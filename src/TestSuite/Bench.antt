-- ===== src/TestSuite/Bench.antt =====
-- test_suite/test1.c to test4.c: what a test works on. It starts programs through the shell and reads
-- the log that they write; what a client leaves there is an argument.
use kerberized_multimedia_in.Base.{ℕ, zero, suc, ◌+◌, ◌-◌, Bool, Option, List, [], ◌∷◌, ◌++◌, Bytes}
use kerberized_multimedia_in.Base.Ints.{ℤ}
use kerberized_multimedia_in.CLib.{Fault, Outcome, returns, exits, faults}

-- What is handed to the shell: the program, and the words that it gets. Redirections are left out.
pub data Command : Type 0 where
  service_create service_remove : Bytes → ℕ → Command
  krb_princ_create ticket_create : Bytes → Bytes → Command
  krb_princ_remove kdestroy : Bytes → Command
  sclient sclient2 : List Bytes → Command
  del_last_line paste : Command

-- A run of a client: whether `client_exec` could start it, and the line that it added to the log.
pub record Attempt : Type 0 where
  pub starts : Bool
  pub logged : Option ℤ

-- The runs of clients to come, what `rand` gives from now on, the numbers in the lines of the log of
-- times, and the commands so far.
pub record Bench : Type 0 where
  pub attempts : List Attempt
  pub rands : ℕ → ℕ
  pub log : List ℤ
  pub commands : List Command

-- How a part of a test ends: it finishes; no run of a client is left for it; the process exits with
-- a code; it does what C leaves undefined; or its fuel does not suffice.
pub data Tested (A : Type 0) : Type 0 where
  finished : A → Bench → Tested A
  pending : Bench → Tested A
  exited : ℕ → Bench → Tested A
  faulty : Fault → Tested A
  out_of_fuel : Tested A

abbrev pub Trial : Type 0 → Type 0
Trial A = Bench → Tested A

abbrev pub and_then : {A B : Type 0} → Tested A → (A → Trial B) → Tested B
and_then (finished a b) f = f a b
and_then (pending b) f = pending b
and_then (exited code b) f = exited code b
and_then (faulty e) f = faulty e
and_then out_of_fuel f = out_of_fuel

infixl 5 ◌>>=◌ ◌>>◌
abbrev pub ◌>>=◌ : {A B : Type 0} → Trial A → (A → Trial B) → Trial B
◌>>=◌ m f b = and_then (m b) f

abbrev pub ◌>>◌ : {A B : Type 0} → Trial A → Trial B → Trial B
m >> k = m >>= λ _. k

abbrev pub result : {A : Type 0} → A → Trial A
result a b = finished a b

-- `exit(code)`
abbrev pub exit : {A : Type 0} → ℕ → Trial A
exit code b = exited code b

abbrev pub lift : {A : Type 0} → Outcome A → Trial A
lift (returns a) b = finished a b
lift (exits code) b = exited code b
lift (faults e) b = faulty e

-- A loop of `n` rounds, that counts from `first`.
unfoldable pub loop : ℕ → ℕ → (ℕ → Trial (Unit {0})) → Trial (Unit {0})
loop first zero body = result tt
loop first (suc n) body = body first >> loop (first + 1) n body

-- `system(shell_command)`
abbrev pub system : Command → Trial (Unit {0})
system c b = finished tt (record b { commands = b.commands ++ (c ∷ []) })

-- The log opened with "w".
abbrev pub clear_log : Trial (Unit {0})
clear_log b = finished tt (record b { log = [] })

-- `n` calls of `rand`: what it gives with `i` more to come.
abbrev pub draw : ℕ → Trial (ℕ → ℕ)
draw n b = finished (λ i. b.rands (n - 1 - i)) (record b { rands = λ i. b.rands (n + i) })
