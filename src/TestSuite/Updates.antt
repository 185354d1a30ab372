-- ===== src/TestSuite/Updates.antt =====
-- test_suite: the statistics of run_test1 of test1.c to run_test4 of test4.c in one iteration.
use kerberized_multimedia_in.Base.{
  ℕ, ◌+◌, ◌≤◌, ◌<◌, min, ◌≡◌, ◌⊎◌, inl, inr, refl, true, false, ltb, Bool-cases, arith,
}
use kerberized_multimedia_in.Base.Ints.{ℤ}
use kerberized_multimedia_in.TestSuite.Statistics.{
  Doubles, RunningStats, starting_k, with_reading, is_rejected, update, is_done,
}
use kerberized_multimedia_in.TestSuite.Meets.{}

-- `n` in iteration `j`: every reading is counted, but the ones that are left out behind the first five.
abbrev pub Counted : (j n : ℕ) → Type 0
Counted j n = (min j 6 ≤ n) × (n ≤ j)

module _ (doubles : Doubles) where
  open doubles use {Double, le, lt}

  with_reading_lem :
      (j n : ℕ) (y : ℤ) (rs : RunningStats Double)
      → let rs' = with_reading doubles j n y rs in
        (rs'.k ≡ rs.k) × (rs'.coeff_target ≡ rs.coeff_target)
  unfolding with_reading
  with_reading_lem j n y rs = elim (Bool-cases (ltb 2 j)) [
    | inl later ↦ rw later (refl, refl)
    | inr first ↦ rw first (refl, refl)
  ]

  rejected_late :
      (j : ℕ) (before after : RunningStats Double)
      → is_rejected doubles j before after ≡ true
      → starting_k < j
  unfolding is_rejected
  rejected_late j before after h = ground arith

  taken_lower :
      (j : ℕ) (before after : RunningStats Double)
      → is_rejected doubles j before after ≡ false
      → starting_k < j
      → le before.coeff_variance after.coeff_variance ≡ false
  unfolding is_rejected
  taken_lower j before after h late = ground arith

  pub update_lower :
      (j n : ℕ) (y : ℤ) (rs : RunningStats Double)
      → starting_k < j
      → let rs' = (update doubles j n y rs).1 in
        (rs' ≡ rs) ⊎ (le rs.coeff_variance rs'.coeff_variance ≡ false)
  unfolding update
  update_lower j n y rs late =
      let rs' = with_reading doubles j n y rs in
      elim (Bool-cases (is_rejected doubles j rs rs')) [
        | inl rejected ↦ inl (rw rejected refl)
        | inr taken ↦ inr (rw taken (taken_lower j rs rs' taken late))
      ]

  pub update_lem :
      (j n : ℕ) (y : ℤ) (rs : RunningStats Double)
      → 1 ≤ j
      → Counted j n
      → let (n', rs') = update doubles j n y rs in
        Counted (j + 1) (n' + 1)
        × (min j starting_k ≤ n')
        × (n' ≤ j)
        × (rs'.k ≡ rs.k)
        × (rs'.coeff_target ≡ rs.coeff_target)
  unfolding update
  update_lem j n y rs some h =
      let rs' = with_reading doubles j n y rs in
      elim (Bool-cases (is_rejected doubles j rs rs')) [
        | inl rejected ↦
            let late = rejected_late j rs rs' rejected in
            rw rejected ((omega arith, omega arith), omega arith, omega arith, refl, refl)
        | inr taken ↦
            let (same_k, same_target) = with_reading_lem j n y rs in
            rw taken ((omega arith, omega arith), omega arith, omega arith, same_k, same_target)
      ]

  pub is_done_lem :
      (j : ℕ) (rs : RunningStats Double)
      → is_done doubles j rs ≡ true
      → (starting_k ≤ j) × (lt rs.coeff_variance rs.coeff_target ≡ true)
  unfolding is_done
  is_done_lem j rs h = (ground arith, ground arith)
