-- ===== src/TestSuite/Runs.antt =====
-- test_suite: run_test1 of test1.c to run_test4 of test4.c: how often a test is repeated, and what is
-- reported of it.
use kerberized_multimedia_in.Base.{
  ℕ, zero, suc, ◌+◌, ◌≤◌, ◌<◌, ◌≡◌, ◌≢◌, ◌⊎◌, inl, inr, refl, ◌∙◌, true, false, List, [], ◌∷◌,
  length, Bool-cases, arith,
}
use kerberized_multimedia_in.Base.Ints.{ℤ, negsuc}
use kerberized_multimedia_in.TestSuite.Bench.{Bench, Trial}
use kerberized_multimedia_in.TestSuite.Statistics.{
  Doubles, RunningStats, Line, starting_k, max_k, first_y, too_slow, take_reading, update, is_done,
  run_loop, run_test,
}
use kerberized_multimedia_in.TestSuite.Meets.{Ending, Meets, Meets-and_then, Meets-weaken}
use kerberized_multimedia_in.TestSuite.Updates.{Counted, update_lower, update_lem, is_done_lem}

module _ (doubles : Doubles) where
  open doubles use {Double, le, lt}

  -- A reading is not too slow: not against the one before, if there was one.
  abbrev pub IsSteady : ℤ → ℤ → Type 0
  IsSteady prev_y y = (p : ℤ) × (too_slow doubles p y ≡ false) × (prev_y ≢ negsuc 0 → p ≡ prev_y)

  first_y_kept : (prev_y y : ℤ) → prev_y ≢ negsuc 0 → first_y doubles prev_y y ≡ prev_y
  unfolding first_y
  first_y_kept prev_y y h = ground arith

  steady : (prev_y y z : ℤ) → IsSteady (first_y doubles prev_y y) z → IsSteady prev_y z
  steady prev_y y z (p, fast, same) =
      (p, fast, λ k. let kept = first_y_kept prev_y y k in same (rw kept k) ∙ kept)

  -- The readings of a run, in order.
  abbrev pub AreSteady : ℤ → List (Line Double) → Type 0
  AreSteady prev_y [] = Unit
  AreSteady prev_y (l ∷ lines) = IsSteady prev_y l.y × AreSteady l.y lines

  -- Behind the first five, a line shows the statistics as they were, or a lower coefficient of variance
  -- (or one that does not compare, as no number does with NaN).
  abbrev pub AreLowering : ℕ → RunningStats Double → List (Line Double) → Type 0
  AreLowering j rs [] = Unit
  AreLowering j rs (l ∷ lines) =
      (starting_k < j → (l.stats ≡ rs) ⊎ (le rs.coeff_variance l.stats.coeff_variance ≡ false))
      × AreLowering (j + 1) l.stats lines

  -- What a run reports, from iteration `j` on with `rounds` to go. Either all rounds are made and `k` is
  -- left as it was, or it ends because the coefficient of variance is below its target, with `k`
  -- readings taken.
  abbrev pub IsReport :
      (j rounds : ℕ) → ℤ → RunningStats Double → RunningStats Double × List (Line Double) → Type 0
  IsReport j rounds prev_y rs (rs', lines) =
      AreSteady prev_y lines
      × AreLowering j rs lines
      × (length lines ≤ rounds)
      × (rs'.coeff_target ≡ rs.coeff_target)
      × (((length lines ≡ rounds) × (rs'.k ≡ rs.k))
          ⊎ ((starting_k < j + length lines)
              × (starting_k ≤ rs'.k)
              × (rs'.k < j + length lines)
              × (lt rs'.coeff_variance rs'.coeff_target ≡ true)))

  -- A line in front of a report.
  longer :
      (j rounds : ℕ) (prev_y y : ℤ) (rs rs' rs'' : RunningStats Double) (line : Line Double)
      (lines : List (Line Double))
      → IsSteady prev_y y
      → line.y ≡ y
      → line.stats ≡ rs'
      → (starting_k < j → (rs' ≡ rs) ⊎ (le rs.coeff_variance rs'.coeff_variance ≡ false))
      → rs'.k ≡ rs.k
      → rs'.coeff_target ≡ rs.coeff_target
      → IsReport (j + 1) rounds y rs' (rs'', lines)
      → IsReport j (suc rounds) prev_y rs (rs'', line ∷ lines)
  longer j rounds prev_y y rs rs' rs'' line lines fast same_y same_stats lower same_k same_target
        (all, low_all, few, target, ending) =
      (
        rw same_y (fast, all),
        rw same_stats (lower, low_all),
        omega arith,
        target ∙ same_target,
        elim ending [
          | inl (full, k) ↦ inl (omega arith, k ∙ same_k)
          | inr (late, low, high, done) ↦ inr (omega arith, low, omega arith, done)
        ],
      )

  -- A test that keeps `K` and takes a run of a client at least.
  module _ (e : Ending) (K : Bench → Type 0) (test : Trial ℤ)
      (cleared : (b : Bench) → K b → K (record b { log = [] }))
      (tested : (b : Bench)
        → K b
        → Meets e (λ y b'. K b' × (length b'.attempts < length b.attempts)) (test b)) where
    take_reading_lem :
        (fuel : ℕ) (prev_y : ℤ) (b : Bench)
        → K b
        → length b.attempts < fuel
        → Meets e
            (λ y b'. K b' × (length b'.attempts < length b.attempts) × IsSteady prev_y y)
            (take_reading doubles fuel test prev_y b)
    unfolding take_reading
    take_reading_lem zero prev_y b h enough = absurd (omega arith)
    take_reading_lem (suc fuel) prev_y b h enough =
        Meets-and_then e (λ y b'. K b' × (length b'.attempts < length b.attempts))
          (λ y b'. K b' × (length b'.attempts < length b.attempts) × IsSteady prev_y y)
          (test (record b { log = [] })) _ (tested (record b { log = [] }) (cleared b h))
          (λ y b' h'.
            let prev = first_y doubles prev_y y in
            elim (Bool-cases (too_slow doubles prev y)) [
              | inl slow ↦ rw slow (
                  Meets-weaken e
                    (λ z c. K c × (length c.attempts < length b'.attempts) × IsSteady prev z)
                    (λ z c. K c × (length c.attempts < length b.attempts) × IsSteady prev_y z)
                    (take_reading doubles fuel test prev b')
                    (take_reading_lem fuel prev b' h'.0 (omega (arith, h'.1)))
                    (λ z c r. (r.0, omega (arith, r.1, h'.1), steady prev_y y z r.2)))
              | inr fast ↦ rw fast (h'.0, h'.1, (prev, fast, λ k. first_y_kept prev_y y k))
            ])

    run_loop_lem :
        (rounds j n : ℕ) (prev_y : ℤ) (rs : RunningStats Double) (b : Bench)
        → 1 ≤ j
        → Counted j n
        → K b
        → Meets e
            (λ r b'. K b' × IsReport j rounds prev_y rs r)
            (run_loop doubles rounds j n test prev_y rs b)
    unfolding run_loop
    run_loop_lem zero j n prev_y rs b some counted h =
        (h, (tt, tt, omega arith, refl, inl (refl, refl)))
    run_loop_lem (suc rounds) j n prev_y rs b some counted h =
        Meets-and_then e
          (λ y b'. K b' × (length b'.attempts < length b.attempts) × IsSteady prev_y y)
          (λ r b'. K b' × IsReport j (suc rounds) prev_y rs r)
          (take_reading doubles (length b.attempts + 1) test prev_y b) _
          (take_reading_lem (length b.attempts + 1) prev_y b h (omega arith))
          (λ y b' h'.
            let (n', rs') = update doubles j n y rs in
            let line : Line Double = record { n = n'; y = y; stats = rs' } in
            let (counted', low, high, same_k, same_target) =
              update_lem doubles j n y rs some counted in
            elim (Bool-cases (is_done doubles j rs')) [
              | inl done ↦
                  let (late, below) = is_done_lem doubles j rs' done in
                  rw done (
                    h'.0,
                    (
                      (h'.2, tt),
                      (update_lower doubles j n y rs, tt),
                      omega arith,
                      same_target,
                      inr (omega arith, omega arith, omega arith, below),
                    ),
                  )
              | inr more ↦ rw more (
                  Meets-and_then e (λ r c. K c × IsReport (j + 1) rounds y rs' r)
                    (λ r c. K c × IsReport j (suc rounds) prev_y rs r)
                    (run_loop doubles rounds (j + 1) (n' + 1) test y rs' b') _
                    (run_loop_lem rounds (j + 1) (n' + 1) y rs' b' (omega arith) counted' h'.0)
                    (λ r c h''. (
                      h''.0,
                      longer j rounds prev_y y rs rs' r.0 line r.1 h'.2 refl refl
                          (update_lower doubles j n y rs) same_k same_target h''.1,
                    )))
            ])

    pub run_test_lem :
        (rs : RunningStats Double) (b : Bench)
        → K b
        → Meets e (λ r b'. K b' × IsReport 1 max_k (negsuc 0) rs r) (run_test doubles test rs b)
    unfolding run_test
    run_test_lem rs b h =
        run_loop_lem max_k 1 1 (negsuc 0) rs b (omega arith) (omega arith, omega arith) h
