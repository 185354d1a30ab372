-- ===== src/TestSuite/Sizes.antt =====
-- test_suite: the sizes that main of test1.c to test4.c run a test with, between the creation and the
-- deletion of the groups.
use kerberized_multimedia_in.Base.{
  ℕ, ◌≤◌, ◌<◌, ◌≡◌, refl, none, some, List, [], ◌∷◌, Bytes, length, All, arith,
}
use kerberized_multimedia_in.Base.Ints.{ℤ, negsuc, pos_part}
use kerberized_multimedia_in.CLib.{returns}
use kerberized_multimedia_in.Sclient1.CommandLine.{arg}
use kerberized_multimedia_in.TestSuite.Names.{group}
use kerberized_multimedia_in.TestSuite.Bench.{
  Bench, service_create, service_remove, paste, Tested, Trial, and_then,
}
use kerberized_multimedia_in.TestSuite.Requests.{Setting}
use kerberized_multimedia_in.TestSuite.Order.{rand_max}
use kerberized_multimedia_in.TestSuite.Statistics.{Doubles, max_k, run_test}
use kerberized_multimedia_in.TestSuite.Mains.{
  int_of, clients_of, sizes, Files, check_sudo, setting, measure_both, merge_data,
}
use kerberized_multimedia_in.TestSuite.Meets.{Ending, Meets, Meets-weaken, Meets-ending}
use kerberized_multimedia_in.TestSuite.Commands.{with_commands}
use kerberized_multimedia_in.TestSuite.Items.{Item, groups, Owes, Owes-with_commands}
use kerberized_multimedia_in.TestSuite.Busy.{clean_end}
use kerberized_multimedia_in.TestSuite.Runs.{IsReport, run_test_lem}
use kerberized_multimedia_in.TestSuite.Reports.{Consumes}
use kerberized_multimedia_in.TestSuite.Programs.{main_end, measure_both_lem}

-- A number of clients that is given is one, and at least 1.
abbrev pub AreArguments : List Bytes → Type 0
AreArguments argv = elim (arg argv 2) [
  | none ↦ Unit {0}
  | some s ↦ (g : ℤ) × (int_of s ≡ returns g) × (1 ≤ pos_part g)
]

pub clients_of_lem :
    (argv : List Bytes) (unset : ℤ)
    → AreArguments argv
    → 1 ≤ pos_part unset
    → (g : ℤ) × (clients_of argv unset ≡ returns g) × (1 ≤ pos_part g)
unfolding clients_of
clients_of_lem [] unset h k = (unset, refl, k)
clients_of_lem (a ∷ []) unset h k = (unset, refl, k)
clients_of_lem (a ∷ b ∷ []) unset h k = (unset, refl, k)
clients_of_lem (a ∷ b ∷ c ∷ argv) unset h k = h

pub All-sizes : (P : ℕ → Type 0) → ((x : ℕ) → 1 ≤ x → P x) → All P sizes
All-sizes P h = (
  h 1 (omega arith),
  (
    h 5 (omega arith),
    (
      h 10 (omega arith),
      (
        h 15 (omega arith),
        (h 20 (omega arith), (h 30 (omega arith), (h 40 (omega arith), (h 50 (omega arith), tt)))),
      ),
    ),
  ),
)

module _ (doubles : Doubles) (weight : Item → ℕ) where
  -- So many groups are there, or none.
  abbrev pub WithGroups : ℕ → Bench → Type 0
  WithGroups count b =
      Owes weight (weight (groups group count)) b × ((i : ℕ) → b.rands i ≤ rand_max)

  abbrev pub Clear : Bench → Type 0
  Clear b = Owes weight 0 b × ((i : ℕ) → b.rands i ≤ rand_max)

  abbrev pub e : Ending
  e = main_end weight

  pub to_main :
      {A : Type 0} (s : Setting) (Q : A → Bench → Type 0) (r : Tested A)
      → Meets (clean_end weight s) Q r
      → Meets e Q r
  to_main s Q r h =
      Meets-ending (clean_end weight s) e Q r (λ b out. out)
        (λ code b c. (rw c.0 (omega arith), c.1)) h

  -- A size of a test that leaves fewer runs of clients, with its two models.
  pub size_lem :
      (x_val n : ℤ) (count t : ℕ) (test : ℕ → Trial ℤ) (files : Files doubles.Double)
      → ((ksm : ℕ) → Consumes weight (setting doubles ksm n count t) (test ksm))
      → (b : Bench) → WithGroups count b
      → Meets e
          (λ _ b'. WithGroups count b')
          (measure_both doubles x_val test (λ ksm. run_test doubles (test ksm)) files b)
  size_lem x_val n count t test files consumes b h =
      measure_both_lem e doubles (WithGroups count) (λ c k. k) x_val test
        (λ ksm. run_test doubles (test ksm)) files
        (λ ksm c k.
          let s = setting doubles ksm n count t in
          to_main s (λ _. WithGroups count) (test ksm c)
            (Meets-weaken (clean_end weight s)
              (λ _ c'. WithGroups count c' × (length c'.attempts < length c.attempts))
              (λ _. WithGroups count) (test ksm c) (consumes ksm c k) (λ _ d r. r.0)))
        (λ ksm rs c k.
          let s = setting doubles ksm n count t in
          to_main s (λ _. WithGroups count) (run_test doubles (test ksm) rs c)
            (Meets-weaken (clean_end weight s)
              (λ r c'. WithGroups count c' × IsReport doubles 1 max_k (negsuc 0) rs r)
              (λ _. WithGroups count) (run_test doubles (test ksm) rs c)
              (run_test_lem doubles (clean_end weight s) (WithGroups count) (test ksm) (λ d k'. k')
                (consumes ksm) rs c k)
              (λ _ d r. r.0)))
        b h

  -- The groups are created and deleted.
  pub created :
      (count : ℕ) (b : Bench)
      → Clear b
      → WithGroups count (with_commands b (service_create group count ∷ []))
  created count b h =
      (Owes-with_commands weight b _ 0 (weight (groups group count)) h.0 (omega arith), h.1)

  pub deleted :
      (count : ℕ) (b : Bench)
      → WithGroups count b
      → Clear (with_commands b (service_remove group count ∷ []))
  deleted count b h =
      (Owes-with_commands weight b _ (weight (groups group count)) 0 h.0 (omega arith), h.1)

  pub merged :
      (files : Files doubles.Double) (b : Bench)
      → Clear b
      → Meets e (λ _ b'. Owes weight 0 b') (merge_data doubles files b)
  unfolding merge_data
  merged files b h = Owes-with_commands weight b (paste ∷ []) 0 0 h.0 (omega arith)

  pub checked :
      {A : Type 0} (Q : A → Bench → Type 0) (uid : Bytes) (v : ℤ) (f : Unit {0} → Trial A)
      (b : Bench)
      → int_of uid ≡ returns v
      → Meets e Q (f tt b)
      → Meets e Q (and_then (check_sudo (some uid) b) f)
  unfolding check_sudo
  checked Q uid v f b same h = rw same h
