-- ===== src/Tests/Programs.antt =====
-- Runs of the programs of test_suite at concrete inputs.
use kerberized_multimedia_in.Base.{
  ℕ, zero, suc, ◌+◌, ◌/◌, ◌≡◌, refl, false, none, some, List, [], ◌∷◌, ◌++◌, Bytes, replicate,
  arith,
}
use kerberized_multimedia_in.Base.Ints.{ℤ, pos, negsuc, ◌+ℤ◌, ◌-ℤ◌, ◌*ℤ◌, ltb_ℤ, leb_ℤ, sub_ℕ}
use kerberized_multimedia_in.CLib.{returns, atoi}
use kerberized_multimedia_in.Sclient1.CommandLine
use kerberized_multimedia_in.Sclient2
use kerberized_multimedia_in.TestSuite.Names.{
  group, realm, ksm1_gcks_port, ksm1_gcks_sname, client_name, cache_filepath, group_name,
}
use kerberized_multimedia_in.TestSuite.Bench.{
  Bench, service_create, del_last_line, sclient, sclient2, finished,
}
use kerberized_multimedia_in.TestSuite.Requests.{client_command, try_group}
use kerberized_multimedia_in.TestSuite.Measures.{test1, test2, test3, test4}
use kerberized_multimedia_in.TestSuite.Statistics.{
  Doubles, RunningStats, default_running_stats, update, next_mean, next_variance, with_reading,
}
use kerberized_multimedia_in.TestSuite.ClientCommands.{client_command-parse_arguments}
use kerberized_multimedia_in.TestSuite.Commands.{refreshment}
use kerberized_multimedia_in.TestSuite.Log.{try_group_branches}
use kerberized_multimedia_in.TestSuite.Meets.{Meets}
use kerberized_multimedia_in.TestSuite.Items.{Item}
use kerberized_multimedia_in.TestSuite.Busy.{Idle, Tidy, clean_end}
use kerberized_multimedia_in.TestSuite.CleanUp.{tests_clean_up}
use kerberized_multimedia_in.TestSuite.Reports.{Reports}
use kerberized_multimedia_in.Tests.Measurements.{rands, rands_le, setting, took, bench_of}

abbrev group3 : Bytes
group3 = b'g' ∷ b'r' ∷ b'o' ∷ b'u' ∷ b'p' ∷ b'3' ∷ []

abbrev cache_file : Bytes
cache_file = b'/' ∷ b'c' ∷ []

abbrev log_file : Bytes
log_file = b'/' ∷ b'l' ∷ []

client_command-parse_arguments_example :
    ((argv : List Bytes) × (port : Bytes) × (client_command group3 cache_file log_file 1
        ≡ sclient argv)
      × (CommandLine.parse_arguments argv
          ≡ returns (record {
            hostname = some realm;
            port = port;
            service = ksm1_gcks_sname;
            group_name = group3;
            cache_name = some cache_file;
            time_log = some log_file;
          }))
      × (atoi port ≡ some (pos ksm1_gcks_port)))
    × ((argv : List Bytes) × (client_command group3 cache_file log_file 2 ≡ sclient2 argv)
        × (Sclient2.parse_arguments argv
            ≡ returns (record {
              hostname = some realm;
              service = group3;
              cache_name = some cache_file;
              time_log = some log_file;
            })))
client_command-parse_arguments_example = client_command-parse_arguments group3 cache_file log_file

-- Two groups are there, and every item weighs one.
abbrev ones : Item → ℕ
ones i = 1

abbrev with_groups : Bench
with_groups = record {
  attempts = took 40 ∷ took 500 ∷ took 30 ∷ record { starts = false; logged = none } ∷ [];
  rands = rands;
  log = [];
  commands = service_create group 2 ∷ [];
}

with_groups-Idle : Idle ones setting with_groups
with_groups-Idle = (omega arith, rands_le)

tests_clean_up_example :
    let e = clean_end ones setting in
    Meets e (λ _ b'. Tidy ones setting 4 with_groups b') (test1 setting 2 with_groups)
    × Meets e (λ _ b'. Tidy ones setting 4 with_groups b') (test2 setting with_groups)
    × Meets e (λ _ b'. Tidy ones setting 4 with_groups b') (test3 setting 2 with_groups)
    × Meets e (λ _ b'. Tidy ones setting 4 with_groups b') (test4 setting 2 with_groups)
tests_clean_up_example =
    tests_clean_up ones setting 2 2 with_groups (omega arith) (omega arith) (omega arith)
      (omega arith) with_groups-Idle

-- An arithmetic on whole numbers, which cuts quotients and knows no fractions.
abbrev times : ℤ → ℤ → ℤ
times z (pos n) = z *ℤ n
times z (negsuc n) = pos 0 -ℤ (z *ℤ suc n)

abbrev divide : ℤ → ℤ → ℤ
divide z (pos zero) = pos 0
divide (pos z) (pos (suc n)) = pos (z / suc n)
divide (negsuc z) (pos (suc n)) = sub_ℕ 0 (suc z / suc n)
divide z (negsuc n) = pos 0

abbrev whole : Doubles
whole = record {
  Double = ℤ;
  of_int = λ z. z;
  literal = λ n k. pos n;
  add = λ x y. x +ℤ y;
  sub = λ x y. x -ℤ y;
  mul = times;
  div = divide;
  sqrt = λ x. x;
  lt = ltb_ℤ;
  le = leb_ℤ;
}

-- Readings of 1, 3 and 2 milliseconds have a mean of 2 and a variance of 1.
abbrev three_readings : RunningStats ℤ
three_readings =
    let (n1, rs1) = update whole 1 1 (pos 1) (default_running_stats whole) in
    let (n2, rs2) = update whole 2 (n1 + 1) (pos 3) rs1 in (update whole 3 (n2 + 1) (pos 2) rs2).1

-- The program has a variance of 0, since the second reading is left out of it.
variance_of_three : (three_readings.mean ≡ pos 2) × (three_readings.variance ≡ pos 0)
unfolding update next_mean next_variance with_reading default_running_stats ◌+ℤ◌ ◌-ℤ◌ ◌*ℤ◌
variance_of_three = (refl, refl)

abbrev stats : RunningStats ℤ
stats = record {
  k = 5;
  coeff_target = pos 5;
  mean = pos 0;
  variance = pos 0;
  std_dev = pos 0;
  coeff_variance = pos 0;
}

-- As many runs of clients as five rounds of a test take, and some more.
abbrev steady : Bench
steady = record with_groups { attempts = replicate 24 (took 40) }

-- `test1 x 1`, by a user of id 1000.
abbrev argv : List Bytes
argv = (b't' ∷ []) ∷ (b'x' ∷ []) ∷ (b'1' ∷ []) ∷ []

abbrev uid : Bytes
uid = b'1' ∷ b'0' ∷ b'0' ∷ b'0' ∷ []

abbrev fresh : Bench
fresh = bench_of (took 40 ∷ took 30 ∷ [])

-- Enough runs of clients for the first program to finish; then one cannot be started, and the others exit.
abbrev long_run : Bench
long_run = bench_of (replicate 160 (took 40) ++ (record { starts = false; logged = none } ∷ []))

-- A client of model 2 that takes half a second.
try_group_branches_example :
    let command = client_command (group_name 1) (cache_filepath (client_name 2 1)) (b't' ∷ []) 2 in
    try_group setting 1 1 (took 500) fresh
    ≡ finished false (record fresh {
      commands = command ∷ del_last_line ∷ refreshment setting (client_name 2 1);
    })
try_group_branches_example = try_group_branches setting 1 1 (took 500) (pos 500) fresh refl
