-- ===== src/TestSuite/Ends.antt =====
-- test_suite: test1 of test1.c to test4 of test4.c come to an end.
use kerberized_multimedia_in.Base.{
  ℕ, suc, ◌+◌, ◌*◌, ◌≤◌, ◌<◌, ◌≡◌, refl, ap, ◌∙◌, true, some, [], length, All, arith,
}
use kerberized_multimedia_in.Base.Ints.{ℤ, pos, pos_part}
use kerberized_multimedia_in.CLib.{Outcome, returns}
use kerberized_multimedia_in.TestSuite.Bench.{
  Attempt, Bench, Tested, finished, pending, exited, faulty, out_of_fuel, Trial,
}
use kerberized_multimedia_in.TestSuite.Requests.{Setting, try_group, total_time}
use kerberized_multimedia_in.TestSuite.Order.{rand_max}
use kerberized_multimedia_in.TestSuite.Measures.{
  measure, requests1, requests2, requests3, requests4, test1, test2, test3, test4, quotient,
}
use kerberized_multimedia_in.TestSuite.Meets.{Ending, Meets}
use kerberized_multimedia_in.TestSuite.Requested.{
  requests1_lem, requests2_lem, requests3_lem, requests4_lem,
}
use kerberized_multimedia_in.TestSuite.Keeps.{Kept, pos-pos_part}
use kerberized_multimedia_in.TestSuite.Commands.{try_group_lem, attempted}
use kerberized_multimedia_in.TestSuite.Measured.{measure_lem}
use kerberized_multimedia_in.TestSuite.Log.{
  InRange, InRange-test, last_value-append, All-append_one, total_time_bounds,
}
use kerberized_multimedia_in.TestSuite.Sums.{quotient_lem}
use mathlib.Core.Path.{subst}

-- A client that is started and leaves a line in range.
abbrev pub IsGood : Attempt → Type 0
IsGood a = (v : ℤ) × (a.starts ≡ true) × (a.logged ≡ some v) × InRange v

try_group-IsGood :
    (s : Setting) (client group_id : ℕ) (a : Attempt) (b : Bench)
    → IsGood a
    → try_group s client group_id a b ≡ finished true (attempted s client group_id a b)
try_group-IsGood s client group_id a b (v, starts, logged, h) =
    try_group_lem s client group_id a b
    ∙ simp (starts, logged, last_value-append b.log v, InRange-test v h)

-- Neither the runs of clients run out, nor does the process exit.
abbrev no_end : Ending
no_end = record { runs_out = λ _. ⊥; exits_with = λ _ _. ⊥ }

-- After `k` of `total` requests.
abbrev Going : ℕ → ℕ → Bench → Type 0
Going total k b =
    All InRange b.log
    × All IsGood b.attempts
    × (total ≤ k + length b.attempts)
    × ((i : ℕ) → b.rands i ≤ rand_max)

Going-no_more : (total k : ℕ) (b : Bench) → k < total → Going total k b → b.attempts ≡ [] → ⊥
Going-no_more total k b more h none_left =
    let few : length b.attempts ≡ 0 = ap length none_left in absurd (omega (arith, h.2))

Going-Kept : (s : Setting) (total : ℕ) → Kept no_end s (Going total) total
Going-Kept s total = record {
  no_more = Going-no_more total;
  tried = λ client group_id k a rest b h same.
      let (good, rest_good) = subst (All IsGood) same h.1 in
      let len : length b.attempts ≡ suc (length rest) = ap length same in
      rw (try_group-IsGood s client group_id a (record b { attempts = rest }) good) (
        refl,
        (rw good.2 (All-append_one b.log good.0 h.0 good.3), rest_good, omega (arith, h.2), h.3),
      );
  drawn = λ k n b h. (h.0, h.1, h.2, λ i. h.3 (n + i));
  bounded = λ k b h. h.3;
}

-- A part of a test finishes.
abbrev pub Finishes : {A : Type 0} → Tested A → Type 0
Finishes {A} r = (a : A) × (b : Bench) × (r ≡ finished a b)

Meets-Finishes :
    {A : Type 0} (Q : A → Bench → Type 0) (r : Tested A) → Meets no_end Q r → Finishes r
Meets-Finishes Q (finished a b) h = (a, b, refl)
Meets-Finishes Q (pending b) h = elim h [ ]
Meets-Finishes Q (exited code b) h = elim h [ ]
Meets-Finishes Q (faulty f) h = elim h [ ]
Meets-Finishes Q out_of_fuel h = elim h [ ]

-- Clients that are started and leave a line in range, and what `rand` may give.
abbrev pub IsGoing : Bench → Type 0
IsGoing b = (b.log ≡ []) × All IsGood b.attempts × ((i : ℕ) → b.rands i ≤ rand_max)

measure-Finishes :
    (s : Setting) (requests : Trial (Unit {0})) (total : ℕ) (mean : ℤ → Outcome ℤ) (b : Bench)
    → IsGoing b
    → total ≤ length b.attempts
    → ((c : Bench) → Going total 0 c → Meets no_end (λ _ c'. Going total total c') (requests c))
    → ((c : Bench) → All InRange c.log → (t : ℤ) × (mean (total_time total c.log) ≡ returns t))
    → Finishes (measure s requests total mean b)
measure-Finishes s requests total mean b start enough made known =
    Meets-Finishes (λ t b'. Going total total b' × (mean (total_time total b'.log) ≡ returns t))
      (measure s requests total mean b)
      (measure_lem no_end s (Going total) (λ k c cs h. h) requests 0 total total mean b
        (rw start.0 tt, start.1, omega (arith, enough), start.2) made (λ c h. known c h.0))

-- A test finishes, if as many runs of clients come as it makes requests, and each is started and
-- leaves a line in range; for test3 and test4 there is at least one client.
pub tests_end :
    (s : Setting) (per size : ℕ) (b : Bench)
    → 1 ≤ pos_part s.num_of_clients
    → 1 ≤ s.group_count
    → per ≤ s.group_count
    → size ≤ pos_part s.num_of_clients
    → IsGoing b
    → pos_part s.num_of_clients * per ≤ length b.attempts
    → pos_part s.num_of_clients * s.group_count ≤ length b.attempts
    → size * s.group_count ≤ length b.attempts
    → Finishes (test1 s per b)
      × Finishes (test2 s b)
      × Finishes (test3 s size b)
      × Finishes (test4 s per b)
unfolding test1 test2 test3 test4
tests_end s per size b some_client some_group few small start enough1 enough2 enough3 =
    let n = pos_part s.num_of_clients in
    let sum : (lines : ℕ) (c : Bench)
        → All InRange c.log
        → (t : ℤ) × (◌≡◌ {A = Outcome ℤ} (returns (total_time lines c.log)) (returns t)) =
      λ lines c h. (total_time lines c.log, refl) in
    (
      measure-Finishes s (requests1 s per) (n * per) returns b start enough1
          (λ c h. requests1_lem (Going-Kept s (n * per)) per 0 c (omega arith) some_group few h)
          (sum (n * per)),
      measure-Finishes s (requests2 s) (n * s.group_count) returns b start enough2
          (λ c h. requests2_lem (Going-Kept s (n * s.group_count)) 0 c (omega arith) h)
          (sum (n * s.group_count)),
      measure-Finishes s (requests3 s size) (size * s.group_count) returns b start enough3
          (λ c h.
            requests3_lem (Going-Kept s (size * s.group_count)) size 0 c (omega arith) some_client
              small h)
          (sum (size * s.group_count)),
      measure-Finishes s (requests4 s per) (n * per) (λ t. quotient t s.num_of_clients) b start
          enough1 (λ c h. requests4_lem (Going-Kept s (n * per)) per 0 c (omega arith) h)
          (λ c h.
            let total = total_time (n * per) c.log in
            let (low, high) = total_time_bounds (n * per) c.log h in
            let (q, e, _, _) =
              quotient_lem total n (100 * per) some_client low (omega (arith, high)) in
            (pos q, ap (quotient total) (pos-pos_part s.num_of_clients some_client) ∙ e)),
    )
