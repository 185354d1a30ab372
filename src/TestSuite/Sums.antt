-- ===== src/TestSuite/Sums.antt =====
-- test_suite: what test1 of test1.c to test4 of test4.c return for the lines of their log.
use kerberized_multimedia_in.Base.{
  ℕ, zero, suc, ◌*◌, ◌/◌, ◌≤◌, ◌<◌, ◌≡◌, refl, sym, ap, ◌∙◌, List, [], ◌∷◌, length, All, arith,
}
use kerberized_multimedia_in.Base.Ints.{ℤ, pos, negsuc, ◌+ℤ◌, ◌≤ℤ◌, pos_part}
use kerberized_multimedia_in.CLib.{Outcome, returns}
use kerberized_multimedia_in.TestSuite.Bench.{Bench, Trial}
use kerberized_multimedia_in.TestSuite.Requests.{Setting, total_time}
use kerberized_multimedia_in.TestSuite.Order.{rand_max}
use kerberized_multimedia_in.TestSuite.Measures.{
  measure, requests1, requests2, requests3, requests4, test1, test2, test3, test4, quotient,
}
use kerberized_multimedia_in.TestSuite.Meets.{Meets, Meets-weaken}
use kerberized_multimedia_in.TestSuite.Requested.{
  requests1_lem, requests2_lem, requests3_lem, requests4_lem,
}
use kerberized_multimedia_in.TestSuite.Keeps.{pos-pos_part}
use kerberized_multimedia_in.TestSuite.Measured.{measure_lem}
use kerberized_multimedia_in.TestSuite.Log.{
  InRange, Logs, Logged, Logged-Kept, any_end, total_time_bounds,
}
use native.Mathlib.Nat.{div-lt_iff_lt-mul}

-- The sum of a list.
abbrev pub sum : List ℤ → ℤ
sum [] = pos 0
sum (v ∷ log) = v +ℤ sum log

total_time-sum : (n : ℕ) (log : List ℤ) → length log ≡ n → total_time n log ≡ sum log
unfolding total_time
total_time-sum zero [] e = refl
total_time-sum zero (v ∷ log) e = absurd (omega arith)
total_time-sum (suc n) [] e = absurd (omega arith)
total_time-sum (suc n) (v ∷ log) e = ap (◌+ℤ◌ v) (total_time-sum n log (omega arith))

-- A sum of lines that a test keeps.
abbrev pub IsSum : ℕ → ℤ → List ℤ → Type 0
IsSum lines t log =
    All InRange log × (length log ≡ lines) × (t ≡ sum log) × (pos 0 ≤ℤ t) × (t ≤ℤ pos (100 * lines))

abbrev value : Outcome ℤ → ℤ
value (returns t) = t
value _ = pos 0

-- A test starts with an empty log, clients that always log, and what `rand` may give.
abbrev pub IsReady : Bench → Type 0
IsReady b = (b.log ≡ []) × All Logs b.attempts × ((i : ℕ) → b.rands i ≤ rand_max)

IsReady-Logged : (b : Bench) → IsReady b → Logged 0 b
IsReady-Logged b (e, l, r) = (rw e tt, rw e refl, l, r)

sum_lem :
    (lines : ℕ) (t : ℤ) (b : Bench)
    → Logged lines b
    → ◌≡◌ {A = Outcome ℤ} (returns (total_time lines b.log)) (returns t)
    → IsSum lines t b.log
sum_lem lines t b h e =
    let same : total_time lines b.log ≡ t = ap value e in
    let (low, high) = total_time_bounds lines b.log h.0 in
    (h.0, h.1, sym same ∙ total_time-sum lines b.log h.1, rw (← same) low, rw (← same) high)

measure-IsSum :
    (s : Setting) (requests : Trial (Unit {0})) (lines : ℕ) (b : Bench)
    → IsReady b
    → ((c : Bench) → Logged 0 c → Meets any_end (λ _ c'. Logged lines c') (requests c))
    → Meets any_end (λ t b'. IsSum lines t b'.log) (measure s requests lines returns b)
measure-IsSum s requests lines b start made =
    Meets-weaken any_end
      (λ t b'.
        Logged lines b' × ◌≡◌ {A = Outcome ℤ} (returns (total_time lines b'.log)) (returns t))
      (λ t b'. IsSum lines t b'.log) (measure s requests lines returns b)
      (measure_lem any_end s Logged (λ k c cs h. h) requests 0 lines lines returns b
        (IsReady-Logged b start) made (λ c h. (total_time lines c.log, refl)))
      (λ t b' h. sum_lem lines t b' h.0 h.1)

test1-IsSum :
    (s : Setting) (per : ℕ) (b : Bench)
    → 1 ≤ s.group_count
    → per ≤ s.group_count
    → IsReady b
    → Meets any_end (λ t b'. IsSum (pos_part s.num_of_clients * per) t b'.log) (test1 s per b)
unfolding test1
test1-IsSum s per b some_group few start =
    measure-IsSum s (requests1 s per) (pos_part s.num_of_clients * per) b start (λ c h.
      requests1_lem (Logged-Kept s (pos_part s.num_of_clients * per)) per 0 c (omega arith)
        some_group few h)

test2-IsSum :
    (s : Setting) (b : Bench)
    → IsReady b
    → Meets any_end (λ t b'. IsSum (pos_part s.num_of_clients * s.group_count) t b'.log) (test2 s b)
unfolding test2
test2-IsSum s b start =
    measure-IsSum s (requests2 s) (pos_part s.num_of_clients * s.group_count) b start (λ c h.
      requests2_lem (Logged-Kept s (pos_part s.num_of_clients * s.group_count)) 0 c (omega arith) h)

test3-IsSum :
    (s : Setting) (size : ℕ) (b : Bench)
    → 1 ≤ pos_part s.num_of_clients
    → size ≤ pos_part s.num_of_clients
    → IsReady b
    → Meets any_end (λ t b'. IsSum (size * s.group_count) t b'.log) (test3 s size b)
unfolding test3
test3-IsSum s size b some_client few start =
    measure-IsSum s (requests3 s size) (size * s.group_count) b start (λ c h.
      requests3_lem (Logged-Kept s (size * s.group_count)) size 0 c (omega arith) some_client few h)

-- A quotient of such a sum by a number of clients.
pub quotient_lem :
    (total : ℤ) (n bound : ℕ)
    → 1 ≤ n
    → pos 0 ≤ℤ total
    → total ≤ℤ pos (n * bound)
    → (q : ℕ) × (quotient total (pos n) ≡ returns (pos q)) × (q ≡ pos_part total / n) × (q ≤ bound)
unfolding quotient
quotient_lem total zero bound some_client low high = absurd (omega arith)
quotient_lem (negsuc t) (suc n) bound some_client low high = absurd (omega arith)
quotient_lem (pos t) (suc n) bound some_client low high =
    let k = suc n in
    let positive : 0 < k = omega arith in
    let below : t / k < suc bound =
      (div-lt_iff_lt-mul {k = k} {x = t} {y = suc bound} positive).1 (omega arith) in
    (t / k, refl, refl, omega arith)

-- The sum of the lines that a test keeps, divided by the clients, which rounds it down.
abbrev pub IsMean : (num_of_clients : ℤ) (per : ℕ) → ℤ → List ℤ → Type 0
IsMean num_of_clients per t log =
    let lines = pos_part num_of_clients * per in
    All InRange log
    × (length log ≡ lines)
    × (t ≡ pos (pos_part (sum log) / pos_part num_of_clients))
    × (pos 0 ≤ℤ t)
    × (t ≤ℤ pos (100 * per))

module _ (s : Setting) (per : ℕ) (some_client : 1 ≤ pos_part s.num_of_clients) where
  mean_lem :
      (b : Bench)
      → Logged (pos_part s.num_of_clients * per) b
      → (q : ℕ) × (quotient (total_time (pos_part s.num_of_clients * per) b.log) s.num_of_clients
          ≡ returns (pos q))
        × (q ≡ pos_part (sum b.log) / pos_part s.num_of_clients)
        × (q ≤ 100 * per)
  mean_lem b h =
      let n = pos_part s.num_of_clients in
      let total = total_time (n * per) b.log in
      let (low, high) = total_time_bounds (n * per) b.log h.0 in
      let (q, e, exact, small) =
        quotient_lem total n (100 * per) some_client low (omega (arith, high)) in
      (
        q,
        ap (quotient total) (pos-pos_part s.num_of_clients some_client) ∙ e,
        exact ∙ ap (λ z. pos_part z / n) (total_time-sum (n * per) b.log h.1),
        small,
      )

  test4-IsMean :
      (b : Bench)
      → IsReady b
      → Meets any_end (λ t b'. IsMean s.num_of_clients per t b'.log) (test4 s per b)
  unfolding test4
  test4-IsMean b start =
      let lines = pos_part s.num_of_clients * per in
      let mean : ℤ → Outcome ℤ = λ t. quotient t s.num_of_clients in
      Meets-weaken any_end (λ t b'. Logged lines b' × (mean (total_time lines b'.log) ≡ returns t))
        (λ t b'. IsMean s.num_of_clients per t b'.log) (measure s (requests4 s per) lines mean b)
        (measure_lem any_end s Logged (λ k c cs h. h) (requests4 s per) 0 lines lines mean b
          (IsReady-Logged b start)
          (λ c h. requests4_lem (Logged-Kept s lines) per 0 c (omega arith) h)
          (λ c h. let (q, e, exact, small) = mean_lem c h in (pos q, e)))
        (λ t b' h.
          let (q, e, exact, small) = mean_lem b' h.0 in
          let same : pos q ≡ t = ap value (sym e ∙ h.1) in
          (
            h.0.0,
            h.0.1,
            sym same ∙ ap pos exact,
            rw (← same) (omega arith),
            rw (← same) (omega (arith, small)),
          ))

-- Whatever is rejected on the way, a test whose clients always leave a line does nothing undefined and
-- waits only where no run of a client is left, and if it finishes, its log has one line for each request, all between 0 and 100. test1, test2 and
-- test3 return the sum of all these lines, and test4, which has at least one client, that sum divided by
-- the number of clients and rounded down. A test asks at most for the groups and the clients that there are.
pub tests-IsSum :
    (s : Setting) (per size : ℕ) (b : Bench)
    → 1 ≤ pos_part s.num_of_clients
    → 1 ≤ s.group_count
    → per ≤ s.group_count
    → size ≤ pos_part s.num_of_clients
    → IsReady b
    → let n = pos_part s.num_of_clients in
      Meets any_end (λ t b'. IsSum (n * per) t b'.log) (test1 s per b)
      × Meets any_end (λ t b'. IsSum (n * s.group_count) t b'.log) (test2 s b)
      × Meets any_end (λ t b'. IsSum (size * s.group_count) t b'.log) (test3 s size b)
      × Meets any_end (λ t b'. IsMean s.num_of_clients per t b'.log) (test4 s per b)
tests-IsSum s per size b some_client some_group few small start = (
  test1-IsSum s per b some_group few start,
  test2-IsSum s b start,
  test3-IsSum s size b some_client small start,
  test4-IsMean s per some_client b start,
)
