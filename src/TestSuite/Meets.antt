-- ===== src/TestSuite/Meets.antt =====
-- test_suite: reasoning about parts of a test. What holds where a part finishes, where no run of a client
-- is left, and where the process exits; nothing undefined, and enough fuel.
use kerberized_multimedia_in.Base.{ℕ, zero, suc, ◌+◌, ◌≤◌, ◌<◌, ◌≡◌, arith}
use kerberized_multimedia_in.CLib.{Outcome, returns}
use kerberized_multimedia_in.TestSuite.Bench.{
  Bench, Tested, finished, pending, exited, faulty, out_of_fuel, Trial, and_then, lift, loop,
}

-- What a part of a test promises where runs of clients run out, and where the process exits.
pub record Ending : Type 1 where
  pub runs_out : Bench → Type 0
  pub exits_with : ℕ → Bench → Type 0

abbrev pub Meets : {A : Type 0} → Ending → (A → Bench → Type 0) → Tested A → Type 0
Meets e Q (finished a b) = Q a b
Meets e Q (pending b) = e.runs_out b
Meets e Q (exited code b) = e.exits_with code b
Meets e Q (faulty f) = ⊥
Meets e Q out_of_fuel = ⊥

module _ (e : Ending) where
  pub Meets-and_then :
      {A B : Type 0} (Q : A → Bench → Type 0) (R : B → Bench → Type 0) (r : Tested A)
      (f : A → Trial B)
      → Meets e Q r
      → ((a : A) (b : Bench) → Q a b → Meets e R (f a b))
      → Meets e R (and_then r f)
  Meets-and_then Q R (finished a b) f h k = k a b h
  Meets-and_then Q R (pending b) f h k = h
  Meets-and_then Q R (exited code b) f h k = h
  Meets-and_then Q R (faulty x) f h k = elim h [ ]
  Meets-and_then Q R out_of_fuel f h k = elim h [ ]

  pub Meets-weaken :
      {A : Type 0} (Q R : A → Bench → Type 0) (r : Tested A)
      → Meets e Q r
      → ((a : A) (b : Bench) → Q a b → R a b)
      → Meets e R r
  Meets-weaken Q R (finished a b) h k = k a b h
  Meets-weaken Q R (pending b) h k = h
  Meets-weaken Q R (exited code b) h k = h
  Meets-weaken Q R (faulty x) h k = elim h [ ]
  Meets-weaken Q R out_of_fuel h k = elim h [ ]

  pub Meets-lift :
      {A B : Type 0} (R : B → Bench → Type 0) (m : Outcome A) (a : A) (f : A → Trial B) (b : Bench)
      → m ≡ returns a
      → Meets e R (f a b)
      → Meets e R (and_then (lift m b) f)
  Meets-lift R m a f b same h = rw same h

  -- A loop: what each round keeps.
  pub Meets-loop :
      (I : ℕ → Bench → Type 0) (body : ℕ → Trial (Unit {0})) (first n last : ℕ)
      → first + n ≡ last
      → ((i : ℕ) (b : Bench)
          → first ≤ i
          → i < last
          → I i b
          → Meets e (λ _ b'. I (i + 1) b') (body i b))
      → (b : Bench) → I first b
      → Meets e (λ _ b'. I last b') (loop first n body b)
  unfolding loop
  Meets-loop I body first zero last same round b h =
      let same' : first ≡ last = omega arith in rw (← same') h
  Meets-loop I body first (suc n) last same round b h =
      Meets-and_then (λ _ b'. I (first + 1) b') (λ _ b'. I last b') (body first b)
        (λ _. loop (first + 1) n body) (round first b (omega arith) (omega arith) h)
        (λ _ b' h'.
          Meets-loop I body (first + 1) n last (omega arith)
            (λ i c low high k. round i c (omega arith) high k) b' h')

-- The same for weaker promises.
pub Meets-ending :
    {A : Type 0} (e e' : Ending) (Q : A → Bench → Type 0) (r : Tested A)
    → ((b : Bench) → e.runs_out b → e'.runs_out b)
    → ((code : ℕ) (b : Bench) → e.exits_with code b → e'.exits_with code b)
    → Meets e Q r
    → Meets e' Q r
Meets-ending e e' Q (finished a b) out exits h = h
Meets-ending e e' Q (pending b) out exits h = out b h
Meets-ending e e' Q (exited code b) out exits h = exits code b h
Meets-ending e e' Q (faulty f) out exits h = elim h [ ]
Meets-ending e e' Q out_of_fuel out exits h = elim h [ ]
