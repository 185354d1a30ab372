-- ===== src/TestSuite/Keeps.antt =====
-- test_suite: what the requests of test1.c to test4.c keep, if a single attempt keeps it: a statement on
-- the bench and the number of requests that were made.
use kerberized_multimedia_in.Base.{
  ℕ, zero, suc, ◌+◌, ◌-◌, ◌*◌, ◌≤◌, ◌<◌, ◌≡◌, refl, Bool, true, false, some, List, [], ◌∷◌, length,
  if◌then◌else◌, arith,
}
use kerberized_multimedia_in.Base.Ints.{ℤ, pos, negsuc, pos_part}
use kerberized_multimedia_in.CLib.{in_bounds}
use kerberized_multimedia_in.TestSuite.Bench.{Attempt, Bench, Trial, and_then, lift, loop, result}
use kerberized_multimedia_in.TestSuite.Requests.{Setting, try_group, retry, make_request}
use kerberized_multimedia_in.TestSuite.Order.{rand_max, entry}
use kerberized_multimedia_in.TestSuite.Measures.{group_id}
use kerberized_multimedia_in.TestSuite.Meets.{
  Ending, Meets, Meets-and_then, Meets-weaken, Meets-loop,
}
use mathlib.Core.Path.{subst}
use native.Mathlib.Nat.{add-zero}

entry-some : (a : List ℕ) (i : ℕ) → i < length a → (x : ℕ) × (entry a i ≡ some x)
entry-some [] i h = absurd (omega arith)
entry-some (x ∷ a) zero h = (x, refl)
entry-some (x ∷ a) (suc i) h = entry-some a i (omega arith)

pub pos-pos_part : (z : ℤ) → 1 ≤ pos_part z → z ≡ pos (pos_part z)
pos-pos_part (pos n) h = refl
pos-pos_part (negsuc n) h = absurd (omega arith)

-- How many requests a try adds.
abbrev pub one_if : Bool → ℕ
one_if counts = if counts then 1 else 0

-- A statement `I k b` that every attempt of a client keeps, `k` counting the requests up to `bound`.
pub record Kept (e : Ending) (s : Setting) (I : ℕ → Bench → Type 0) (bound : ℕ) : Type 0 where
  pub no_more : (k : ℕ) (b : Bench) → k < bound → I k b → b.attempts ≡ [] → e.runs_out b
  pub tried :
      (client group_id k : ℕ) (a : Attempt) (rest : List Attempt) (b : Bench)
      → I k b
      → b.attempts ≡ a ∷ rest
      → Meets e
          (λ counts b'. (b'.attempts ≡ rest) × I (k + one_if counts) b')
          (try_group s client group_id a (record b { attempts = rest }))
  pub drawn : (k n : ℕ) (b : Bench) → I k b → I k (record b { rands = λ i. b.rands (n + i) })
  pub bounded : (k : ℕ) (b : Bench) → I k b → (i : ℕ) → b.rands i ≤ rand_max

module _ {e : Ending} {s : Setting} {I : ℕ → Bench → Type 0} {bound : ℕ}
    (kept : Kept e s I bound) where
  again_lem :
      (counts : Bool) (k : ℕ) (again : Trial (Unit {0})) (b : Bench)
      → I (k + one_if counts) b
      → (I k b → Meets e (λ _ b'. I (k + 1) b') (again b))
      → Meets e (λ _ b'. I (k + 1) b') ((if counts then result tt else again) b)
  again_lem true k again b h next = h
  again_lem false k again b h next = next (subst (λ i. I i b) (add-zero k) h)

  retry_lem :
      (client group_id k : ℕ) (attempts : List Attempt) (b : Bench)
      → k < bound
      → I k b
      → b.attempts ≡ attempts
      → Meets e (λ _ b'. I (k + 1) b') (retry s client group_id attempts b)
  unfolding retry
  retry_lem client group_id k [] b more h same = kept.no_more k b more h same
  retry_lem client group_id k (a ∷ attempts) b more h same =
      Meets-and_then e (λ counts b'. (b'.attempts ≡ attempts) × I (k + one_if counts) b')
        (λ _ b'. I (k + 1) b') (try_group s client group_id a (record b { attempts = attempts }))
        (λ counts. if counts then result tt else retry s client group_id attempts)
        (kept.tried client group_id k a attempts b h same)
        (λ counts b' h'.
          again_lem counts k (retry s client group_id attempts) b' h'.1
            (λ h''. retry_lem client group_id k attempts b' more h'' h'.0))

  pub make_request_lem :
      (client group_id k : ℕ) (b : Bench)
      → k < bound
      → I k b
      → Meets e (λ _ b'. I (k + 1) b') (make_request s client group_id b)
  unfolding make_request
  make_request_lem client group_id k b more h = retry_lem client group_id k b.attempts b more h refl

  -- The requests of a client or for a group, as an array names them.
  pub requests_lem :
      (first n k : ℕ) (body : ℕ → Trial (Unit {0})) (b : Bench)
      → ((j i : ℕ) (c : Bench)
          → first ≤ j
          → j < first + n
          → i < k + n
          → I i c
          → Meets e (λ _ c'. I (i + 1) c') (body j c))
      → I k b
      → Meets e (λ _ b'. I (k + n) b') (loop first n body b)
  requests_lem first n k body b each h =
      Meets-weaken e (λ _ b'. (i : ℕ) → i + first ≡ k + (first + n) → I i b') (λ _ b'. I (k + n) b')
        (loop first n body b)
        (Meets-loop e (λ j b'. (i : ℕ) → i + first ≡ k + j → I i b') body first n (first + n) refl
          (λ j c low high h'.
            let i = k + j - first in
            Meets-weaken e (λ _ c'. I (i + 1) c')
              (λ _ c'. (i' : ℕ) → i' + first ≡ k + (j + 1) → I i' c') (body j c)
              (each j i c low high (omega arith) (h' i (omega arith)))
              (λ _ c' h'' i' same. let same' : i + 1 ≡ i' = omega arith in rw (← same') h''))
          b (λ i same. let same' : k ≡ i = omega arith in rw (← same') h))
        (λ _ b' h'. h' (k + n) (omega arith))

  -- The requests that the first `per` entries of an array name.
  pub entries_lem :
      (first per k : ℕ) (a : List ℕ) (index : ℕ → ℕ) (request : ℕ → ℕ → Trial (Unit {0}))
      (b : Bench)
      → ((j : ℕ) → first ≤ j → j < first + per → index j < length a)
      → ((j x i : ℕ) (c : Bench)
          → i < k + per
          → I i c
          → Meets e (λ _ c'. I (i + 1) c') (request j x c))
      → I k b
      → Meets e
          (λ _ b'. I (k + per) b')
          (loop first per (λ j c. and_then (lift (in_bounds (entry a (index j))) c) (request j)) b)
  entries_lem first per k a index request b enough each h =
      requests_lem first per k
        (λ j c. and_then (lift (in_bounds (entry a (index j))) c) (request j)) b
        (λ j i c low high more h'.
          let (x, same) = entry-some a (index j) (enough j low high) in
          rw same (each j x i c more h'))
        h

  -- Rounds of so many requests each.
  pub rounds_lem :
      (first n per k last : ℕ) (body : ℕ → Trial (Unit {0})) (b : Bench)
      → last ≡ k + n * per
      → ((j i : ℕ) (c : Bench)
          → i + per ≤ last
          → I i c
          → Meets e (λ _ c'. I (i + per) c') (body j c))
      → I k b
      → Meets e (λ _ b'. I last b') (loop first n body b)
  unfolding loop
  rounds_lem first zero per k last body b same each h =
      let same' : k ≡ last = omega arith in rw (← same') h
  rounds_lem first (suc n) per k last body b same each h =
      Meets-and_then e (λ _ b'. I (k + per) b') (λ _ b'. I last b') (body first b)
        (λ _. loop (first + 1) n body) (each first k b (omega arith) h)
        (λ _ b' h'. rounds_lem (first + 1) n per (k + per) last body b' (omega arith) each h')
