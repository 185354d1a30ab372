-- ===== src/TestSuite/Reports.antt =====
-- test_suite: run_test1 of test1.c to run_test4 of test4.c on all their endings, with their tests.
use kerberized_multimedia_in.Base.{ℕ, zero, suc, ◌*◌, ◌≤◌, ◌<◌, List, length, arith}
use kerberized_multimedia_in.Base.Ints.{ℤ, negsuc, pos_part}
use kerberized_multimedia_in.TestSuite.Bench.{Bench, Tested, Trial}
use kerberized_multimedia_in.TestSuite.Requests.{Setting}
use kerberized_multimedia_in.TestSuite.Measures.{test1, test2, test3, test4}
use kerberized_multimedia_in.TestSuite.Statistics.{Doubles, RunningStats, Line, max_k}
use kerberized_multimedia_in.TestSuite.Meets.{Meets, Meets-weaken}
use kerberized_multimedia_in.TestSuite.Items.{Item}
use kerberized_multimedia_in.TestSuite.Busy.{clean_end, Idle, Tidy}
use kerberized_multimedia_in.TestSuite.CleanUp.{test1-Tidy, test2-Tidy, test3-Tidy, test4-Tidy}
use kerberized_multimedia_in.TestSuite.Runs.{IsReport}

one_le_mul : (m n : ℕ) → 1 ≤ m → 1 ≤ n → 1 ≤ m * n
one_le_mul zero n h k = absurd (omega arith)
one_le_mul (suc m) zero h k = absurd (omega arith)
one_le_mul (suc m) (suc n) h k = omega arith

-- What a run of a test reports, behind the default or any other statistics.
abbrev pub Reports :
    (doubles : Doubles) (weight : Item → ℕ) (s : Setting) (rs : RunningStats doubles.Double)
    → Tested (RunningStats doubles.Double × List (Line doubles.Double))
    → Type 0
Reports doubles weight s rs r =
    Meets (clean_end weight s)
      (λ report b'. Idle weight s b' × IsReport doubles 1 max_k (negsuc 0) rs report) r

-- A test of this setting that leaves fewer runs of clients, and all clients deleted.
abbrev pub Consumes : (weight : Item → ℕ) (s : Setting) (test : Trial ℤ) → Type 0
Consumes weight s test =
    (b : Bench)
    → Idle weight s b
    → Meets (clean_end weight s)
        (λ _ b'. Idle weight s b' × (length b'.attempts < length b.attempts)) (test b)

module _ (weight : Item → ℕ) (s : Setting) where
  Tidy-Consumes :
      (lines : ℕ) (test : Trial ℤ)
      → 1 ≤ lines
      → ((b : Bench)
          → Idle weight s b
          → Meets (clean_end weight s) (λ _ b'. Tidy weight s lines b b') (test b))
      → Consumes weight s test
  Tidy-Consumes lines test some tidy b h =
      Meets-weaken (clean_end weight s) (λ _ b'. Tidy weight s lines b b')
        (λ _ b'. Idle weight s b' × (length b'.attempts < length b.attempts)) (test b) (tidy b h)
        (λ _ b' h'. (h'.0, omega (arith, h'.1)))

  pub test1-Consumes :
      (per : ℕ)
      → 1 ≤ pos_part s.num_of_clients
      → 1 ≤ per
      → per ≤ s.group_count
      → Consumes weight s (test1 s per)
  test1-Consumes per some_client some few =
      Tidy-Consumes (pos_part s.num_of_clients * per) (test1 s per)
        (one_le_mul _ _ some_client some) (λ b h. test1-Tidy weight s per b (omega arith) few h)

  pub test2-Consumes :
      1 ≤ pos_part s.num_of_clients → 1 ≤ s.group_count → Consumes weight s (test2 s)
  test2-Consumes some_client some_group =
      Tidy-Consumes (pos_part s.num_of_clients * s.group_count) (test2 s)
        (one_le_mul _ _ some_client some_group) (λ b h. test2-Tidy weight s b h)

  pub test3-Consumes :
      (size : ℕ)
      → 1 ≤ size
      → size ≤ pos_part s.num_of_clients
      → 1 ≤ s.group_count
      → Consumes weight s (test3 s size)
  test3-Consumes size some small some_group =
      Tidy-Consumes (size * s.group_count) (test3 s size) (one_le_mul _ _ some some_group)
        (λ b h. test3-Tidy weight s size b (omega arith) small h)

  pub test4-Consumes :
      (per : ℕ) → 1 ≤ pos_part s.num_of_clients → 1 ≤ per → Consumes weight s (test4 s per)
  test4-Consumes per some_client some =
      Tidy-Consumes (pos_part s.num_of_clients * per) (test4 s per)
        (one_le_mul _ _ some_client some) (λ b h. test4-Tidy weight s per b some_client h)
