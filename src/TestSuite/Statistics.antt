-- ===== src/TestSuite/Statistics.antt =====
-- test_suite/test_util.h, test_util.c and run_test1 of test1.c to run_test4 of test4.c, which are the same
-- but for the test that they repeat: the running statistics, and how often a test is repeated. The
-- arithmetic of double is an argument.
use kerberized_multimedia_in.Base.{
  ℕ, zero, suc, ◌+◌, ◌-◌, Bool, ◌&&◌, List, [], ◌∷◌, length, ltb, leb, if◌then◌else◌,
}
use kerberized_multimedia_in.Base.Ints.{ℤ, pos, negsuc, sub_ℕ, leb_ℤ}
use kerberized_multimedia_in.TestSuite.Bench.{out_of_fuel, Trial, ◌>>=◌, ◌>>◌, result, clear_log}
use kerberized_multimedia_in.TestSuite.Requests.{Setting}
use kerberized_multimedia_in.TestSuite.Measures.{test1, test2, test3, test4}

-- Arithmetic on double. `literal n k` is the constant n / 10^k, as the compiler rounds it.
pub record Doubles : Type 1 where
  pub Double : Type 0
  pub of_int : ℤ → Double
  pub literal : ℕ → ℕ → Double
  pub add : Double → Double → Double
  pub sub : Double → Double → Double
  pub mul : Double → Double → Double
  pub div : Double → Double → Double
  pub sqrt : Double → Double
  pub lt : Double → Double → Bool
  pub le : Double → Double → Bool

-- `running_stats_t`
pub record RunningStats (Double : Type 0) : Type 0 where
  pub k : ℕ
  pub coeff_target : Double
  pub mean : Double
  pub variance : Double
  pub std_dev : Double
  pub coeff_variance : Double

-- A line of `print_results`.
pub record Line (Double : Type 0) : Type 0 where
  pub n : ℕ
  pub y : ℤ
  pub stats : RunningStats Double

abbrev pub starting_k : ℕ
starting_k = 5

abbrev pub max_k : ℕ
max_k = 20

module _ (doubles : Doubles) where
  open doubles use {Double, of_int, literal, add, sub, mul, div, sqrt, lt, le}

  -- `set_default_running_stats`
  unfoldable pub default_running_stats : RunningStats Double
  default_running_stats = record {
    k = starting_k;
    coeff_target = literal 5 2;
    mean = of_int (pos 0);
    variance = of_int (pos 0);
    std_dev = of_int (pos 0);
    coeff_variance = of_int (pos 0);
  }

  -- `if( prev_y == -1) prev_y = y`
  unfoldable pub first_y : ℤ → ℤ → ℤ
  first_y prev_y y = if leb_ℤ prev_y (negsuc 0) && leb_ℤ (negsuc 0) prev_y then y else prev_y

  -- `y > prev_y * 1.1`
  unfoldable pub too_slow : ℤ → ℤ → Bool
  too_slow prev_y y = lt (mul (of_int prev_y) (literal 11 1)) (of_int y)

  -- The do-while loop: the test is repeated, each time on an empty log, while it is too slow.
  unfoldable pub take_reading : ℕ → Trial ℤ → ℤ → Trial ℤ
  unfolding first_y too_slow
  take_reading zero test prev_y b = out_of_fuel
  take_reading (suc fuel) test prev_y b =
      let again = take_reading fuel test in
      (clear_log >> test >>= λ y.
      let prev = first_y prev_y y in if too_slow prev y then again prev else result y)
        b

  -- `(prev_mean*(n-1) + y) / (n)`
  unfoldable pub next_mean : ℕ → ℤ → Double → Double
  next_mean n y prev_mean =
      div (add (mul prev_mean (of_int (pos (n - 1)))) (of_int y)) (of_int (pos n))

  -- `((n - 2)*rs->variance + (y-rs->mean) * (y-prev_mean)) / (n - 1)`
  unfoldable pub next_variance : ℕ → ℤ → (variance mean prev_mean : Double) → Double
  next_variance n y variance mean prev_mean =
      div
        (add (mul (of_int (sub_ℕ n 2)) variance)
          (mul (sub (of_int y) mean) (sub (of_int y) prev_mean)))
        (of_int (sub_ℕ n 1))

  -- The statistics with the `n`th reading, in iteration `j`.
  unfoldable pub with_reading : (j n : ℕ) → ℤ → RunningStats Double → RunningStats Double
  unfolding next_mean next_variance
  with_reading j n y rs =
      let new_mean = next_mean n y rs.mean in
      let new_variance = next_variance n y rs.variance new_mean rs.mean in
      if ltb 2 j
      then (record rs {
        mean = new_mean;
        variance = new_variance;
        std_dev = sqrt new_variance;
        coeff_variance = div (sqrt new_variance) new_mean;
      })
      else (record rs { mean = new_mean })

  -- Whether a reading is left out: behind the first ones, one that does not lower the coefficient.
  unfoldable pub is_rejected : (j : ℕ) (before after : RunningStats Double) → Bool
  is_rejected j before after =
      ltb 2 j && le before.coeff_variance after.coeff_variance && ltb starting_k j

  -- One iteration, with the reading `y`: `n` and the statistics after it.
  unfoldable pub update : (j n : ℕ) → ℤ → RunningStats Double → ℕ × RunningStats Double
  unfolding with_reading is_rejected
  update j n y rs =
      let rs' = with_reading j n y rs in if is_rejected j rs rs' then (n - 1, rs) else (n, rs')

  unfoldable pub is_done : ℕ → RunningStats Double → Bool
  is_done j rs = leb starting_k j && lt rs.coeff_variance rs.coeff_target

  -- The loop over `j`, with `rounds` to go: the statistics, and the lines that are printed. The fuel of
  -- a reading is one more than the runs of clients that are left.
  unfoldable pub run_loop :
      (rounds j n : ℕ)
      → Trial ℤ
      → ℤ
      → RunningStats Double
      → Trial (RunningStats Double × List (Line Double))
  unfolding take_reading update is_done
  run_loop zero j n test prev_y rs b = result (rs, []) b
  run_loop (suc rounds) j n test prev_y rs b =
      let rest = run_loop rounds (j + 1) in
      (take_reading (length b.attempts + 1) test prev_y >>= λ y.
      let (n', rs') = update j n y rs in
      let line : Line Double = record { n = n'; y = y; stats = rs' } in
      if is_done j rs'
      then result (record rs' { k = n' }, line ∷ [])
      else (rest (n' + 1) test y rs' >>= λ (rs'', lines). result (rs'', line ∷ lines)))
        b

  -- `run_test1` to `run_test4`, but for the test.
  unfoldable pub run_test :
      Trial ℤ → RunningStats Double → Trial (RunningStats Double × List (Line Double))
  unfolding run_loop
  run_test test rs = run_loop max_k 1 1 test (negsuc 0) rs

  unfoldable pub run_test1 :
      Setting → ℕ → RunningStats Double → Trial (RunningStats Double × List (Line Double))
  unfolding run_test
  run_test1 s assigned_group_count rs = run_test (test1 s assigned_group_count) rs

  unfoldable pub run_test2 :
      Setting → RunningStats Double → Trial (RunningStats Double × List (Line Double))
  unfolding run_test
  run_test2 s rs = run_test (test2 s) rs

  unfoldable pub run_test3 :
      Setting → ℕ → RunningStats Double → Trial (RunningStats Double × List (Line Double))
  unfolding run_test
  run_test3 s group_size rs = run_test (test3 s group_size) rs

  unfoldable pub run_test4 :
      Setting → ℕ → RunningStats Double → Trial (RunningStats Double × List (Line Double))
  unfolding run_test
  run_test4 s assigned_group_count rs = run_test (test4 s assigned_group_count) rs
