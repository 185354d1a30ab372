-- ===== src/TestSuite/Measures.antt =====
-- test_suite: test1 of test1.c, test2 of test2.c, test3 of test3.c and test4 of test4.c. Each creates its
-- clients, makes their requests one after another, adds up the log and deletes the clients.
use kerberized_multimedia_in.Base.{ℕ, ◌+◌, ◌-◌, ◌*◌, ◌/◌, ◌%◌, zero, suc, List, if◌then◌else◌}
use kerberized_multimedia_in.Base.Ints.{ℤ, pos, negsuc, pos_part, ltb_ℤ, sub_ℕ}
use kerberized_multimedia_in.CLib.{
  Outcome, returns, faults, out_of_bounds, division_by_zero, in_bounds,
}
use kerberized_multimedia_in.TestSuite.Bench.{Trial, ◌>>=◌, ◌>>◌, result, lift, loop, draw}
use kerberized_multimedia_in.TestSuite.Requests.{
  Setting, create_clients, delete_clients, make_request, sum_log,
}
use kerberized_multimedia_in.TestSuite.Order.{shuffle, count_from, entry}

-- Every test: the clients, its requests, the sum of so many lines of the log, and the clean-up.
unfoldable pub measure : Setting → Trial (Unit {0}) → ℕ → (ℤ → Outcome ℤ) → Trial ℤ
unfolding create_clients delete_clients
measure s requests lines mean = do
  create_clients s
  requests
  total ← sum_log lines
  time ← lift (mean total)
  delete_clients s
  result time

-- `a[l] = l + 1`, shuffled.
unfoldable pub group_order : (ℕ → ℕ) → ℕ → Outcome (List ℕ)
unfolding shuffle count_from
group_order rands group_count = shuffle rands (group_count - 1) (count_from 1 group_count)

-- The requests of test1: each client asks for the first groups of an order of its own.
unfoldable pub requests1 : Setting → ℕ → Trial (Unit {0})
unfolding loop group_order make_request
requests1 s assigned_group_count = loop 0 (pos_part s.num_of_clients) λ i. do
  rands ← draw (s.group_count - 1)
  a ← lift (group_order rands s.group_count)
  loop 1 assigned_group_count
      λ j. do group_id ← lift (in_bounds (entry a (j - 1))); make_request s i group_id

unfoldable pub test1 : Setting → ℕ → Trial ℤ
unfolding requests1 measure
test1 s assigned_group_count =
    measure s (requests1 s assigned_group_count) (pos_part s.num_of_clients * assigned_group_count)
      returns

-- The requests of test2: each client asks for the groups 1 to `assigned_group_count`, which is set to
-- `group_count`.
unfoldable pub requests2 : Setting → Trial (Unit {0})
unfolding loop make_request
requests2 s = loop 0 (pos_part s.num_of_clients) λ i. loop 1 s.group_count λ j. make_request s i j

unfoldable pub test2 : Setting → Trial ℤ
unfolding requests2 measure
test2 s = measure s (requests2 s) (pos_part s.num_of_clients * s.group_count) returns

-- `a[k] = k`, shuffled. An array of variable length has at least one element.
unfoldable pub client_order : (ℕ → ℕ) → ℤ → Outcome (List ℕ)
unfolding shuffle count_from
client_order rands num_of_clients =
    if ltb_ℤ (pos 0) num_of_clients
    then shuffle rands (pos_part num_of_clients - 1) (count_from 0 (pos_part num_of_clients))
    else faults out_of_bounds

-- The requests of test3: each group is asked for by the first clients of an order of its own.
unfoldable pub requests3 : Setting → ℕ → Trial (Unit {0})
unfolding loop client_order make_request
requests3 s group_size = loop 1 s.group_count λ i. do
  rands ← draw (pos_part s.num_of_clients - 1)
  a ← lift (client_order rands s.num_of_clients)
  loop 0 group_size λ j. do cid ← lift (in_bounds (entry a j)); make_request s cid i

unfoldable pub test3 : Setting → ℕ → Trial ℤ
unfolding requests3 measure
test3 s group_size = measure s (requests3 s group_size) (group_size * s.group_count) returns

-- `group_index_start`, under TEST4_CASE_B.
abbrev group_index_start : ℕ
group_index_start = 0

-- `(group_index_start + j-1) % group_count + 1`; `group_count` is 5 in test4.c.
unfoldable pub group_id : (j group_count : ℕ) → ℕ
group_id j group_count = (group_index_start + j - 1) % group_count + 1

-- The requests of test4: each client asks for the groups from `group_index_start` on, in a circle.
unfoldable pub requests4 : Setting → ℕ → Trial (Unit {0})
unfolding loop make_request group_id
requests4 s assigned_group_count =
    loop 0 (pos_part s.num_of_clients)
      λ i. loop 1 assigned_group_count λ j. make_request s i (group_id j s.group_count)

-- `total_time / (num_of_clients)`: the quotient is cut towards zero, and division by zero is undefined.
unfoldable pub quotient : ℤ → ℤ → Outcome ℤ
quotient total (pos zero) = faults division_by_zero
quotient (pos t) (pos (suc n)) = returns (pos (t / suc n))
quotient (pos t) (negsuc n) = returns (sub_ℕ 0 (t / suc n))
quotient (negsuc t) (pos (suc n)) = returns (sub_ℕ 0 (suc t / suc n))
quotient (negsuc t) (negsuc n) = returns (pos (suc t / suc n))

unfoldable pub test4 : Setting → ℕ → Trial ℤ
unfolding requests4 quotient measure
test4 s assigned_group_count =
    measure s (requests4 s assigned_group_count) (pos_part s.num_of_clients * assigned_group_count)
      (λ t. quotient t s.num_of_clients)
