-- ===== src/TestSuite/Mains.antt =====
-- test_suite: main of test1.c to test4.c. Each runs a test with every size, for model 1 and for model 2,
-- and writes the statistics side by side.
use kerberized_multimedia_in.Base.{
  ℕ, Bool, true, false, Option, none, some, List, [], ◌∷◌, ◌++◌, Bytes, if◌then◌else◌,
}
use kerberized_multimedia_in.Base.Ints.{ℤ, pos}
use kerberized_multimedia_in.CLib.{Outcome, returns, faults, overflow, atoi}
use kerberized_multimedia_in.Sclient1.CommandLine.{arg}
use kerberized_multimedia_in.TestSuite.Names.{group, time_log}
use kerberized_multimedia_in.TestSuite.Bench.{
  paste, Trial, ◌>>=◌, ◌>>◌, result, exit, lift, loop, system, clear_log,
}
use kerberized_multimedia_in.TestSuite.Requests.{Setting, create_service, delete_service}
use kerberized_multimedia_in.TestSuite.Measures.{test1, test2, test3, test4}
use kerberized_multimedia_in.TestSuite.Statistics.{
  Doubles, RunningStats, Line, default_running_stats, run_test1, run_test2, run_test3, run_test4,
}

-- `ignore_count`
abbrev pub ignore_count : ℕ
ignore_count = 3

-- The arrays of sizes: `test_array` of test1.c, `group_count_array` of test2.c, `group_size_array` of
-- test3.c.
abbrev pub sizes : List ℕ
sizes = 1 ∷ 5 ∷ 10 ∷ 15 ∷ 20 ∷ 30 ∷ 40 ∷ 50 ∷ []

-- `atoi`; a number that no int holds is undefined.
unfoldable pub int_of : Bytes → Outcome ℤ
int_of s = elim (atoi s) [ none ↦ faults overflow | some v ↦ returns v ]

-- `num_of_clients`, from the second argument or as it is set.
unfoldable pub clients_of : List Bytes → ℤ → Outcome ℤ
unfolding int_of
clients_of argv unset = elim (arg argv 2) [ none ↦ returns unset | some s ↦ int_of s ]

-- `argc > 2`
abbrev pub is_given : List Bytes → Bool
is_given argv = elim (arg argv 2) [ none ↦ false | some s ↦ true ]

-- A line of the log of results.
pub data RawLine (Double : Type 0) : Type 0 where
  starting : ℕ → RawLine Double
  reading : Line Double → RawLine Double

-- A line of `log_data`: `x_val` and the statistics.
abbrev pub Datum : Type 0 → Type 0
Datum Double = ℤ × RunningStats Double

-- The log of results, and the data for each model.
pub record Files (Double : Type 0) : Type 0 where
  pub raw : List (RawLine Double)
  pub ksm1 : List (Datum Double)
  pub ksm2 : List (Datum Double)

abbrev map_reading : {Double : Type 0} → List (Line Double) → List (RawLine Double)
map_reading [] = []
map_reading (l ∷ lines) = reading l ∷ map_reading lines

-- `merge_data`: paste(1), with an empty field where a file has no line left.
unfoldable pub paste_lines : {A : Type 0} → List A → List A → List (Option A × Option A)
paste_lines [] [] = []
paste_lines (a ∷ xs) [] = (some a, none) ∷ paste_lines xs []
paste_lines [] (b ∷ ys) = (none, some b) ∷ paste_lines [] ys
paste_lines (a ∷ xs) (b ∷ ys) = (some a, some b) ∷ paste_lines xs ys

-- The start of main: a user id, or the end.
unfoldable pub check_sudo : Option Bytes → Trial (Unit {0})
unfolding int_of
check_sudo none = exit 0
check_sudo (some uid) = lift (int_of uid) >> result tt

module _ (doubles : Doubles) where
  open doubles use {Double}

  abbrev pub Run : Type 0
  Run = RunningStats Double → Trial (RunningStats Double × List (Line Double))

  -- `setup_logs`: the files, cleared.
  unfoldable pub setup_logs : Files Double
  setup_logs = record { raw = []; ksm1 = []; ksm2 = [] }

  -- The runs before a test, which are not counted, and the test.
  unfoldable pub measure_model : Trial ℤ → Run → Trial (RunningStats Double × List (Line Double))
  unfolding loop default_running_stats
  measure_model test run =
      loop 0 ignore_count (λ j. clear_log >> test >> result tt)
      >> run (default_running_stats doubles)

  -- One size: model 1 and then model 2, each from the default statistics.
  unfoldable pub measure_both : ℤ → (ℕ → Trial ℤ) → (ℕ → Run) → Files Double → Trial (Files Double)
  unfolding measure_model
  measure_both x_val test run files = do
    (rs1, lines1) ← measure_model (test 1) (run 1)
    (rs2, lines2) ← measure_model (test 2) (run 2)
    result (record {
      raw = files.raw ++ (starting 1 ∷ map_reading lines1) ++ (starting 2 ∷ map_reading lines2);
      ksm1 = files.ksm1 ++ ((x_val, rs1) ∷ []);
      ksm2 = files.ksm2 ++ ((x_val, rs2) ∷ []);
    })

  -- The sizes, one after another; with a number of clients that is given, only the first.
  unfoldable pub over_sizes :
      Bool
      → (ℕ → Files Double → Trial (Files Double))
      → List ℕ
      → Files Double
      → Trial (Files Double)
  over_sizes only_first body [] files = result files
  over_sizes only_first body (x ∷ xs) files =
      let rest = over_sizes only_first body xs in
      body x files >>= λ files'. if only_first then result files' else rest files'

  -- The end of main: the data, side by side, behind the log of results.
  unfoldable pub merge_data :
      Files Double
      → Trial (List (RawLine Double) × List (Option (Datum Double) × Option (Datum Double)))
  unfolding paste_lines
  merge_data files = system paste >> result (files.raw, paste_lines files.ksm1 files.ksm2)

  abbrev pub setting : (ksm : ℕ) → ℤ → (group_count test : ℕ) → Setting
  setting ksm num_of_clients group_count test = record {
    ksm = ksm;
    num_of_clients = num_of_clients;
    group_count = group_count;
    time_log = time_log test;
  }

  abbrev pub Merged : Type 0
  Merged = List (RawLine Double) × List (Option (Datum Double) × Option (Datum Double))

  -- A size of test1.c: a number of clients, unless one is given.
  unfoldable pub size1 : Bool → ℤ → ℕ → Files Double → Trial (Files Double)
  unfolding measure_both test1 run_test1
  size1 clients_given given size =
      let n = if clients_given then given else pos size in
      measure_both n (λ ksm. test1 (setting ksm n 5 1) 3)
        (λ ksm. run_test1 doubles (setting ksm n 5 1) 3)

  unfoldable pub main1 : Option Bytes → List Bytes → Trial Merged
  unfolding check_sudo clients_of over_sizes setup_logs merge_data size1
  main1 sudo_uid argv = do
    check_sudo sudo_uid
    given ← lift (clients_of argv (pos 1))
    create_service group 5
    files ← over_sizes (is_given argv) (size1 (is_given argv) given) sizes setup_logs
    delete_service group 5
    merge_data files

  -- A size of test2.c: a number of groups, which are created for it.
  unfoldable pub size2 : ℤ → ℕ → Files Double → Trial (Files Double)
  unfolding measure_both test2 run_test2
  size2 n group_count before = do
    create_service group group_count
    after ←
        measure_both (pos group_count) (λ ksm. test2 (setting ksm n group_count 2))
          (λ ksm. run_test2 doubles (setting ksm n group_count 2)) before
    delete_service group group_count
    result after

  -- A number of clients in test2.c, with every number of groups.
  unfoldable pub clients2 : Bool → ℤ → ℕ → Files Double → Trial (Files Double)
  unfolding over_sizes size2
  clients2 clients_given given clients =
      over_sizes false (size2 (if clients_given then given else pos clients)) sizes

  unfoldable pub main2 : Option Bytes → List Bytes → Trial Merged
  unfolding check_sudo clients_of over_sizes setup_logs merge_data clients2
  main2 sudo_uid argv = do
    check_sudo sudo_uid
    given ← lift (clients_of argv (pos 1))
    files ← over_sizes (is_given argv) (clients2 (is_given argv) given) (10 ∷ []) setup_logs
    merge_data files

  -- A size of test3.c: the size of the groups and the number of clients.
  unfoldable pub size3 : ℕ → Files Double → Trial (Files Double)
  unfolding measure_both test3 run_test3
  size3 size =
      measure_both (pos size) (λ ksm. test3 (setting ksm (pos size) 10 3) size)
        (λ ksm. run_test3 doubles (setting ksm (pos size) 10 3) size)

  -- A number of clients that is given is read here and not used.
  unfoldable pub main3 : Option Bytes → List Bytes → Trial Merged
  unfolding check_sudo clients_of over_sizes setup_logs merge_data size3
  main3 sudo_uid argv = do
    check_sudo sudo_uid
    given ← lift (clients_of argv (pos 50))
    create_service group 10
    files ← over_sizes false size3 sizes setup_logs
    delete_service group 10
    merge_data files

  -- A size of test4.c: the number of groups that a client asks for.
  unfoldable pub size4 : ℤ → ℕ → Files Double → Trial (Files Double)
  unfolding measure_both test4 run_test4
  size4 n l =
      measure_both (pos l) (λ ksm. test4 (setting ksm n 5 4) l)
        (λ ksm. run_test4 doubles (setting ksm n 5 4) l)

  unfoldable pub main4 : Option Bytes → List Bytes → Trial Merged
  unfolding check_sudo clients_of over_sizes setup_logs merge_data size4
  main4 sudo_uid argv = do
    check_sudo sudo_uid
    given ← lift (clients_of argv (pos 5))
    create_service group 5
    files ← over_sizes false (size4 given) (1 ∷ 2 ∷ 3 ∷ 4 ∷ 5 ∷ []) setup_logs
    delete_service group 5
    merge_data files
