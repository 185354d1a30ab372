-- ===== src/TestSuite/Commands.antt =====
-- test_suite: the commands of the loops that create and delete the clients, and of the ending of a test
-- whose client cannot be started.
use kerberized_multimedia_in.Base.{
  ℕ, zero, suc, ◌+◌, ◌≡◌, refl, ◌∙◌, inl, inr, true, false, List, [], ◌∷◌, ◌++◌, Bytes, ◌==◌,
  append-nil, append_assoc, if◌then◌else◌, Bool-cases,
}
use kerberized_multimedia_in.Base.Ints.{pos_part}
use kerberized_multimedia_in.TestSuite.Names.{
  cache_filepath, client_name, group, group_name, test_password,
}
use kerberized_multimedia_in.TestSuite.Bench.{
  Attempt, Bench, Command, del_last_line, krb_princ_create, ticket_create, krb_princ_remove,
  kdestroy, service_remove, finished, exited, ◌>>◌, loop, system,
}
use kerberized_multimedia_in.TestSuite.Requests.{
  Setting, create_clients, delete_clients, refresh_cache, give_up, client_command, line_of,
  out_of_range, last_value, del_last, try_group,
}

-- Two commands for each number from `first` on.
abbrev pub pairs : (c d : ℕ → Command) (first n : ℕ) → List Command
pairs c d first zero = []
pairs c d first (suc n) = c first ∷ d first ∷ pairs c d (first + 1) n

abbrev pub with_commands : Bench → List Command → Bench
with_commands b cs = record b { commands = b.commands ++ cs }

loop-pairs :
    (c d : ℕ → Command) (first n : ℕ) (b : Bench)
    → loop first n (λ i. system (c i) >> system (d i)) b
      ≡ finished tt (with_commands b (pairs c d first n))
unfolding loop
loop-pairs c d first zero b = simp append-nil
loop-pairs c d first (suc n) b =
    loop-pairs c d (first + 1) n
      (record b { commands = (b.commands ++ (c first ∷ [])) ++ (d first ∷ []) })
    ∙ simp append_assoc

abbrev pub creations : Setting → List Command
creations s =
    pairs (λ i. krb_princ_create (client_name s.ksm i) test_password)
      (λ i. ticket_create (client_name s.ksm i) test_password) 0 (pos_part s.num_of_clients)

abbrev pub deletions : Setting → List Command
deletions s =
    pairs (λ i. kdestroy (cache_filepath (client_name s.ksm i)))
      (λ i. krb_princ_remove (client_name s.ksm i)) 0 (pos_part s.num_of_clients)

pub create_clients_lem :
    (s : Setting) (b : Bench) → create_clients s b ≡ finished tt (with_commands b (creations s))
unfolding create_clients
create_clients_lem s b = loop-pairs _ _ 0 (pos_part s.num_of_clients) b

pub delete_clients_lem :
    (s : Setting) (b : Bench) → delete_clients s b ≡ finished tt (with_commands b (deletions s))
unfolding delete_clients
delete_clients_lem s b = loop-pairs _ _ 0 (pos_part s.num_of_clients) b

pub give_up_lem :
    (s : Setting) (b : Bench)
    → give_up s b
      ≡ exited 1 (with_commands b (deletions s ++ (service_remove group s.group_count ∷ [])))
unfolding give_up
give_up_lem s b = rw (delete_clients_lem s b) (simp append_assoc)

abbrev pub refreshment : Setting → Bytes → List Command
refreshment s name =
    if s.ksm == 2
    then kdestroy (cache_filepath name) ∷ ticket_create name test_password ∷ []
    else []

pub refresh_cache_lem :
    (s : Setting) (name : Bytes) (b : Bench)
    → refresh_cache s name b ≡ finished tt (with_commands b (refreshment s name))
unfolding refresh_cache
refresh_cache_lem s name b = elim (Bool-cases (s.ksm == 2)) [
  | inl two ↦ rw two (simp append_assoc)
  | inr one ↦ rw one (simp append-nil)
]

-- The bench when the client of an attempt has ended.
abbrev pub attempted : Setting → (client group : ℕ) → Attempt → Bench → Bench
attempted s client group_id a b = record b {
  log = b.log ++ line_of a.logged;
  commands =
      b.commands
      ++ (client_command (group_name group_id) (cache_filepath (client_name s.ksm client))
            s.time_log s.ksm
          ∷ []);
}

-- An attempt, by what the last line of the log is then.
pub try_group_lem :
    (s : Setting) (client group_id : ℕ) (a : Attempt) (b : Bench)
    → let b' = attempted s client group_id a b in
      try_group s client group_id a b ≡ (
        if a.starts
        then (if out_of_range (last_value b'.log)
            then finished false (record b' {
              log = del_last b'.log;
              commands = b'.commands ++ (del_last_line ∷ refreshment s (client_name s.ksm client));
            })
            else finished true b')
        else exited 1 (with_commands b' (deletions s ++ (service_remove group s.group_count ∷ []))))
unfolding try_group
try_group_lem s client group_id a b = elim (Bool-cases a.starts) [
  | inl starts ↦ elim (Bool-cases (out_of_range (last_value (b.log ++ line_of a.logged)))) [
    | inl out ↦ rw (starts, out) (rw (refresh_cache_lem s) (simp append_assoc))
    | inr in_range ↦ rw (starts, in_range) refl
  ]
  | inr not_started ↦ rw not_started (give_up_lem s (attempted s client group_id a b))
]
