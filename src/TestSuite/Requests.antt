-- ===== src/TestSuite/Requests.antt =====
-- test_suite/test_util.c, and the request of a client in test_suite/test1.c, which test2.c to test4.c
-- repeat word for word.
use kerberized_multimedia_in.Base.{
  ℕ, zero, suc, Bool, true, false, ◌||◌, Option, none, some, List, [], ◌∷◌, ◌++◌, Bytes, ◌==◌,
  if◌then◌else◌,
}
use kerberized_multimedia_in.Base.Ints.{ℤ, pos, ◌+ℤ◌, pos_part, ltb_ℤ}
use kerberized_multimedia_in.CLib.{decimal}
use kerberized_multimedia_in.Timing.{long_max}
use kerberized_multimedia_in.TestSuite.Names.{
  cache_filepath, client_name, group, group_name, test_password, realm, ksm1_client_exe,
  ksm2_client_exe, ksm1_gcks_port, ksm1_gcks_sname,
}
use kerberized_multimedia_in.TestSuite.Bench.{
  Command, service_create, service_remove, krb_princ_create, krb_princ_remove, ticket_create,
  kdestroy, sclient, sclient2, del_last_line, Attempt, finished, pending, Trial, and_then, ◌>>=◌,
  ◌>>◌, result, exit, loop, system,
}

abbrev pub create_service : Bytes → ℕ → Trial (Unit {0})
create_service service_name count = system (service_create service_name count)

abbrev pub delete_service : Bytes → ℕ → Trial (Unit {0})
delete_service service_name count = system (service_remove service_name count)

abbrev pub create_client_cache : Bytes → Trial (Unit {0})
create_client_cache name = system (ticket_create name test_password)

abbrev pub create_client_princ : Bytes → Trial (Unit {0})
create_client_princ name = system (krb_princ_create name test_password)

abbrev pub delete_client_cache : Bytes → Trial (Unit {0})
delete_client_cache name = system (kdestroy (cache_filepath name))

abbrev pub delete_client_princ : Bytes → Trial (Unit {0})
delete_client_princ name = system (krb_princ_remove name)

-- The words of the command of `client_exec`, the program first.
unfoldable pub client_command : (group_name cache time_log : Bytes) (ksm : ℕ) → Command
client_command group_name cache time_log ksm =
    if ksm == 2
    then sclient2 (ksm2_client_exe ∷ realm ∷ group_name ∷ cache ∷ time_log ∷ [])
    else sclient (
        ksm1_client_exe
        ∷ realm
        ∷ decimal ksm1_gcks_port
        ∷ ksm1_gcks_sname
        ∷ group_name
        ∷ cache
        ∷ time_log
        ∷ [])

-- The number in the last line of a log.
unfoldable pub last_value : List ℤ → ℤ
last_value [] = pos long_max
last_value (v ∷ []) = v
last_value (v ∷ w ∷ log) = last_value (w ∷ log)

abbrev pub get_last_value : Trial ℤ
get_last_value b = finished (last_value b.log) b

-- del_last_line.sh
unfoldable pub del_last : List ℤ → List ℤ
del_last [] = []
del_last (v ∷ []) = []
del_last (v ∷ w ∷ log) = v ∷ del_last (w ∷ log)

abbrev pub delete_last_line : Trial (Unit {0})
delete_last_line b =
    finished tt (record b { log = del_last b.log; commands = b.commands ++ (del_last_line ∷ []) })

-- `last_val > 100 || last_val < 0`
abbrev pub out_of_range : ℤ → Bool
out_of_range v = ltb_ℤ (pos 100) v || ltb_ℤ v (pos 0)

abbrev pub line_of : Option ℤ → List ℤ
line_of none = []
line_of (some v) = v ∷ []

-- What stays the same in a test: the model, `num_of_clients`, `group_count` and `timeLog_filepath`.
pub record Setting : Type 0 where
  pub ksm : ℕ
  pub num_of_clients : ℤ
  pub group_count : ℕ
  pub time_log : Bytes

-- The loops that create and that delete the clients.
unfoldable pub create_clients : Setting → Trial (Unit {0})
create_clients s =
    loop 0 (pos_part s.num_of_clients)
      λ i. create_client_princ (client_name s.ksm i) >> create_client_cache (client_name s.ksm i)

unfoldable pub delete_clients : Setting → Trial (Unit {0})
delete_clients s =
    loop 0 (pos_part s.num_of_clients)
      λ i. delete_client_cache (client_name s.ksm i) >> delete_client_princ (client_name s.ksm i)

-- `client_exec`: the command, and the line that the client adds to the log.
unfoldable pub client_exec : Setting → Bytes → Bytes → Attempt → Trial Bool
unfolding client_command
client_exec s group_name cache a b = finished a.starts (record b {
  log = b.log ++ line_of a.logged;
  commands = b.commands ++ (client_command group_name cache s.time_log s.ksm ∷ []);
})

-- A client of model 2 gets a fresh cache for its next attempt.
unfoldable pub refresh_cache : Setting → Bytes → Trial (Unit {0})
refresh_cache s name =
    if s.ksm == 2 then (delete_client_cache name >> create_client_cache name) else result tt

-- The last line of the log, kept or deleted: whether the attempt counts.
unfoldable pub judge : Setting → (client : ℕ) → ℤ → Trial Bool
unfolding del_last refresh_cache
judge s client last_val =
    if out_of_range last_val
    then (delete_last_line >> refresh_cache s (client_name s.ksm client) >> result false)
    else result true

-- A client that cannot be started ends the process, once all clients and groups are deleted.
unfoldable pub give_up : Setting → Trial Bool
unfolding delete_clients
give_up s = do delete_clients s; delete_service group s.group_count; exit 1

-- One attempt of a client at a group.
unfoldable pub try_group : Setting → (client group : ℕ) → Attempt → Trial Bool
unfolding client_exec last_value judge give_up
try_group s client group_id a = do
  started ← client_exec s (group_name group_id) (cache_filepath (client_name s.ksm client)) a
  if started then (get_last_value >>= judge s client) else give_up s

-- A request is made again (`j--`) until it counts, with the runs of clients that come.
unfoldable pub retry : Setting → (client group : ℕ) → List Attempt → Trial (Unit {0})
unfolding try_group
retry s client group_id [] b = pending b
retry s client group_id (a ∷ attempts) b =
    let again = retry s client group_id attempts in
    and_then (try_group s client group_id a (record b { attempts = attempts }))
      λ counts. if counts then result tt else again

unfoldable pub make_request : Setting → (client group : ℕ) → Trial (Unit {0})
unfolding retry
make_request s client group_id b = retry s client group_id b.attempts b

-- The sum of the first lines of the log, at most `n`.
unfoldable pub total_time : ℕ → List ℤ → ℤ
total_time zero log = pos 0
total_time (suc n) [] = pos 0
total_time (suc n) (v ∷ log) = v +ℤ total_time n log

abbrev pub sum_log : ℕ → Trial ℤ
sum_log n b = finished (total_time n b.log) b
