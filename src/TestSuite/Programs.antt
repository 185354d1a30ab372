-- ===== src/TestSuite/Programs.antt =====
-- test_suite: main of test1.c to test4.c on all their endings, and what they delete.
use kerberized_multimedia_in.Base.{ℕ, ◌≤◌, ◌≡◌, refl, Bool, true, false, List, [], ◌∷◌, All}
use kerberized_multimedia_in.Base.Ints.{ℤ}
use kerberized_multimedia_in.TestSuite.Bench.{Bench, Trial, ◌>>◌, result, loop, clear_log}
use kerberized_multimedia_in.TestSuite.Statistics.{Doubles, RunningStats, default_running_stats}
use kerberized_multimedia_in.TestSuite.Mains.{
  ignore_count, Files, Run, measure_model, measure_both, over_sizes,
}
use kerberized_multimedia_in.TestSuite.Meets.{Ending, Meets, Meets-and_then, Meets-loop}
use kerberized_multimedia_in.TestSuite.Items.{Item, Owes}

-- A main waits only when no run of a client is left; it exits with code 0 or 1, and all that it created
-- is deleted then.
abbrev pub main_end : (Item → ℕ) → Ending
main_end weight = record {
  runs_out = λ b. b.attempts ≡ [];
  exits_with = λ code b. (code ≤ 1) × Owes weight 0 b;
}

module _ (e : Ending) (doubles : Doubles) (K : Bench → Type 0)
    (cleared : (b : Bench) → K b → K (record b { log = [] })) where
  -- A part of a program that keeps `K`.
  abbrev pub Preserves : {A : Type 0} → Trial A → Type 0
  Preserves m = (b : Bench) → K b → Meets e (λ _ b'. K b') (m b)

  measure_model_lem :
      (test : Trial ℤ) (run : Run doubles)
      → Preserves test
      → ((rs : RunningStats doubles.Double) → Preserves (run rs))
      → Preserves (measure_model doubles test run)
  unfolding measure_model
  measure_model_lem test run tested ran b h =
      Meets-and_then e (λ _. K) (λ _. K)
        (loop 0 ignore_count (λ j. clear_log >> test >> result tt) b) _
        (Meets-loop e (λ _. K) (λ j. clear_log >> test >> result tt) 0 ignore_count ignore_count
          refl
          (λ i c low high h'.
            Meets-and_then e (λ _. K) (λ _. K) (test (record c { log = [] })) (λ _. result tt)
              (tested (record c { log = [] }) (cleared c h')) (λ _ d h''. h''))
          b h)
        (λ _ c h'. ran (default_running_stats doubles) c h')

  pub measure_both_lem :
      (x_val : ℤ) (test : ℕ → Trial ℤ) (run : ℕ → Run doubles) (files : Files doubles.Double)
      → ((ksm : ℕ) → Preserves (test ksm))
      → ((ksm : ℕ) (rs : RunningStats doubles.Double) → Preserves (run ksm rs))
      → Preserves (measure_both doubles x_val test run files)
  unfolding measure_both
  measure_both_lem x_val test run files tested ran b h =
      Meets-and_then e (λ _. K) (λ _. K) (measure_model doubles (test 1) (run 1) b) _
        (measure_model_lem (test 1) (run 1) (tested 1) (ran 1) b h)
        (λ r c h'.
          Meets-and_then e (λ _. K) (λ _. K) (measure_model doubles (test 2) (run 2) c) _
            (measure_model_lem (test 2) (run 2) (tested 2) (ran 2) c h') (λ r' d h''. h''))

  pub over_sizes_lem :
      (only_first : Bool) (body : ℕ → Files doubles.Double → Trial (Files doubles.Double))
      (xs : List ℕ) (files : Files doubles.Double)
      → All (λ x. (fs : Files doubles.Double) → Preserves (body x fs)) xs
      → Preserves (over_sizes doubles only_first body xs files)
  unfolding over_sizes
  over_sizes_lem only_first body [] files each b h = h
  over_sizes_lem true body (x ∷ xs) files each b h =
      Meets-and_then e (λ _. K) (λ _. K) (body x files b) (λ files'. result files')
        (each.0 files b h) (λ files' c h'. h')
  over_sizes_lem false body (x ∷ xs) files each b h =
      Meets-and_then e (λ _. K) (λ _. K) (body x files b)
        (λ files'. over_sizes doubles false body xs files') (each.0 files b h)
        (λ files' c h'. over_sizes_lem false body xs files' each.1 c h')
