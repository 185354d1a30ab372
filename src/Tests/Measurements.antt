-- ===== src/Tests/Measurements.antt =====
-- Runs of the tests of test_suite at concrete inputs.
use kerberized_multimedia_in.Base.{
  ℕ, ◌*◌, ◌%◌, ◌^◌, ◌≤◌, ◌≡◌, refl, true, Option, none, some, List, [], ◌∷◌, take, length, arith,
}
use kerberized_multimedia_in.Base.Ints.{ℤ, pos, ◌+ℤ◌}
use kerberized_multimedia_in.CLib.{returns}
use kerberized_multimedia_in.TestSuite.Bench.{Attempt, Bench, Tested, finished}
use kerberized_multimedia_in.TestSuite.Requests.{Setting, try_group, total_time}
use kerberized_multimedia_in.TestSuite.Order.{rand_max}
use kerberized_multimedia_in.TestSuite.Measures.{group_order, test1, test2, test3, test4}
use kerberized_multimedia_in.TestSuite.Shuffle.{IsSelection, group_order-IsSelection}
use kerberized_multimedia_in.TestSuite.Commands.{attempted}
use kerberized_multimedia_in.TestSuite.Meets.{Meets}
use kerberized_multimedia_in.TestSuite.Log.{any_end, try_group_silent}
use kerberized_multimedia_in.TestSuite.Sums.{IsSum, IsMean, IsReady, tests-IsSum}
use kerberized_multimedia_in.TestSuite.Ends.{IsGoing, Finishes, tests_end}

-- Random numbers of a kind.
abbrev pub rands : ℕ → ℕ
rands i = i * 1103515245 % 2 ^ 31

pub rands_le : (i : ℕ) → rands i ≤ rand_max
rands_le i = omega arith

group_order-IsSelection_example :
    (a : List ℕ) × (group_order rands 5 ≡ returns a)
    × (length a ≡ 5)
    × ((k : ℕ) → k ≤ 5 → IsSelection 1 5 k (take k a))
group_order-IsSelection_example = group_order-IsSelection rands 5 rands_le (omega arith)

-- Two clients of model 2 and two groups.
abbrev pub setting : Setting
setting = record { ksm = 2; num_of_clients = pos 2; group_count = 2; time_log = b't' ∷ [] }

abbrev pub took : ℕ → Attempt
took ms = record { starts = true; logged = some (pos ms) }

abbrev pub bench_of : List Attempt → Bench
bench_of attempts = record { attempts = attempts; rands = rands; log = []; commands = [] }

-- The second run takes too long, and is made again.
abbrev pub mixed : Bench
mixed = bench_of (took 40 ∷ took 500 ∷ took 30 ∷ took 20 ∷ took 10 ∷ [])

mixed-IsReady : IsReady mixed
mixed-IsReady =
    (refl, ((λ e. cc), ((λ e. cc), ((λ e. cc), ((λ e. cc), ((λ e. cc), tt))))), rands_le)

abbrev time_of : Tested ℤ → Option ℤ
time_of (finished t b) = some t
time_of _ = none

times :
    (time_of (test1 setting 2 mixed) ≡ some (pos 100))
    × (time_of (test4 setting 2 mixed) ≡ some (pos 50))
unfolding test1 test4 ◌+ℤ◌ total_time
times = (refl, refl)

tests-IsSum_example :
    Meets any_end (λ t b'. IsSum 4 t b'.log) (test1 setting 2 mixed)
    × Meets any_end (λ t b'. IsSum 4 t b'.log) (test2 setting mixed)
    × Meets any_end (λ t b'. IsSum 4 t b'.log) (test3 setting 2 mixed)
    × Meets any_end (λ t b'. IsMean (pos 2) 2 t b'.log) (test4 setting 2 mixed)
tests-IsSum_example =
    tests-IsSum setting 2 2 mixed (omega arith) (omega arith) (omega arith) (omega arith)
      mixed-IsReady

abbrev quick : Bench
quick = bench_of (took 40 ∷ took 30 ∷ took 20 ∷ took 10 ∷ [])

quick-IsGoing : IsGoing quick
quick-IsGoing = (
  refl,
  (
    (pos 40, refl, refl, (omega arith, omega arith)),
    (
      (pos 30, refl, refl, (omega arith, omega arith)),
      (
        (pos 20, refl, refl, (omega arith, omega arith)),
        ((pos 10, refl, refl, (omega arith, omega arith)), tt),
      ),
    ),
  ),
  rands_le,
)

tests_end_example :
    Finishes (test1 setting 2 quick)
    × Finishes (test2 setting quick)
    × Finishes (test3 setting 2 quick)
    × Finishes (test4 setting 2 quick)
tests_end_example =
    tests_end setting 2 2 quick (omega arith) (omega arith) (omega arith) (omega arith)
      quick-IsGoing (omega arith) (omega arith) (omega arith)

-- A client that fails at once, behind one that took 40 milliseconds.
abbrev silent : Attempt
silent = record { starts = true; logged = none }

abbrev logged_once : Bench
logged_once = record { attempts = []; rands = rands; log = pos 7 ∷ pos 40 ∷ []; commands = [] }

try_group_silent_example :
    try_group setting 0 1 silent logged_once
    ≡ finished true (attempted setting 0 1 silent logged_once)
try_group_silent_example =
    try_group_silent setting 0 1 silent logged_once (pos 7 ∷ []) (pos 40) refl refl refl
      (omega arith, omega arith)
