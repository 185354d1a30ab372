-- ===== src/TestSuite/Busy.antt =====
-- test_suite: what is created and not yet deleted, in the course of a test.
use kerberized_multimedia_in.Base.{
  ℕ, suc, ◌+◌, ◌≤◌, ◌≡◌, refl, ap, inl, inr, List, [], ◌∷◌, ◌++◌, Bytes, ◌==◌, Bool, length,
  Bool-cases, arith,
}
use kerberized_multimedia_in.Base.Ints.{ℤ, pos_part}
use kerberized_multimedia_in.CLib.{Outcome, returns}
use kerberized_multimedia_in.TestSuite.Names.{cache_filepath, client_name, group, group_name}
use kerberized_multimedia_in.TestSuite.Bench.{Attempt, Bench, service_remove, Trial, result}
use kerberized_multimedia_in.TestSuite.Requests.{
  Setting, create_clients, delete_clients, client_command, last_value, out_of_range, line_of,
  try_group, total_time,
}
use kerberized_multimedia_in.TestSuite.Order.{rand_max}
use kerberized_multimedia_in.TestSuite.Measures.{measure}
use kerberized_multimedia_in.TestSuite.Meets.{
  Ending, Meets, Meets-and_then, Meets-weaken, Meets-lift,
}
use kerberized_multimedia_in.TestSuite.Keeps.{Kept, one_if}
use kerberized_multimedia_in.TestSuite.Commands.{
  with_commands, creations, deletions, create_clients_lem, delete_clients_lem, refreshment,
  attempted, try_group_lem,
}
use kerberized_multimedia_in.TestSuite.Items.{
  Item, groups, created_by, deleted_by, weighed, Owes, weighed-append, clients, pairs_created,
  pairs_deleted, Owes-with_commands,
}

module _ (weight : Item → ℕ) (s : Setting) where
  -- The groups that the program has created.
  abbrev pub service_weight : ℕ
  service_weight = weight (groups group s.group_count)

  -- A test waits only when no run of a client is left; it exits with code 1, and all is deleted then.
  abbrev pub clean_end : Ending
  clean_end = record {
    runs_out = λ b. b.attempts ≡ [];
    exits_with = λ code b. (code ≡ 1) × Owes weight 0 b;
  }

  -- During the requests, the clients and the groups are there.
  abbrev pub Busy : Bench → Type 0
  Busy b = Owes weight (service_weight + clients weight s) b × ((i : ℕ) → b.rands i ≤ rand_max)

  -- Each request takes a run of a client.
  abbrev pub BusyFor : (limit k : ℕ) → Bench → Type 0
  BusyFor limit k b = Busy b × (k + length b.attempts ≤ limit)

  command_nothing :
      (name cache time_log : Bytes) (ksm : ℕ)
      → (weighed weight created_by (client_command name cache time_log ksm ∷ []) ≡ 0)
        × (weighed weight deleted_by (client_command name cache time_log ksm ∷ []) ≡ 0)
  unfolding client_command
  command_nothing name cache time_log ksm = elim (Bool-cases (ksm == 2)) [
    | inl two ↦ rw two (refl, refl)
    | inr one ↦ rw one (refl, refl)
  ]

  refreshment_even :
      (name : Bytes)
      → weighed weight created_by (refreshment s name)
        ≡ weighed weight deleted_by (refreshment s name)
  refreshment_even name = elim (Bool-cases (s.ksm == 2)) [
    | inl two ↦ rw two (omega arith)
    | inr one ↦ rw one refl
  ]

  attempted-Owes :
      (client group_id owed : ℕ) (a : Attempt) (b : Bench)
      → Owes weight owed b
      → Owes weight owed (attempted s client group_id a b)
  attempted-Owes client group_id owed a b h =
      let (made, gone) =
        command_nothing (group_name group_id) (cache_filepath (client_name s.ksm client)) s.time_log
          s.ksm in
      Owes-with_commands weight b _ owed owed h (omega (arith, made, gone))

  deletions-Owes :
      (b : Bench) (owed : ℕ)
      → Owes weight (owed + clients weight s) b
      → Owes weight owed (with_commands b (deletions s))
  deletions-Owes b owed h =
      let (gone, none_made) = pairs_deleted weight s.ksm 0 (pos_part s.num_of_clients) in
      Owes-with_commands weight b (deletions s) (owed + clients weight s) owed h
        (omega (arith, gone, none_made))

  creations-Owes :
      (b : Bench) (owed : ℕ)
      → Owes weight owed b
      → Owes weight (owed + clients weight s) (with_commands b (creations s))
  creations-Owes b owed h =
      let (made, none_gone) = pairs_created weight s.ksm 0 (pos_part s.num_of_clients) in
      Owes-with_commands weight b (creations s) owed (owed + clients weight s) h
        (omega (arith, made, none_gone))

  give_up-Owes :
      (b : Bench)
      → Owes weight (service_weight + clients weight s) b
      → Owes weight 0 (with_commands b (deletions s ++ (service_remove group s.group_count ∷ [])))
  give_up-Owes b h =
      let (gone, none_made) = pairs_deleted weight s.ksm 0 (pos_part s.num_of_clients) in
      Owes-with_commands weight b _ (service_weight + clients weight s) 0 h (
        omega (
          arith,
          gone,
          none_made,
          weighed-append weight created_by (deletions s) (service_remove group s.group_count ∷ []),
          weighed-append weight deleted_by (deletions s) (service_remove group s.group_count ∷ []),
        ))

  try-Busy :
      (client group_id : ℕ) (a : Attempt) (b : Bench)
      → Busy b
      → Meets clean_end
          (λ counts b'. (b'.attempts ≡ b.attempts) × Busy b')
          (try_group s client group_id a b)
  try-Busy client group_id a b (h, r) =
      let owed = service_weight + clients weight s in
      let b' = attempted s client group_id a b in
      let h' = attempted-Owes client group_id owed a b h in
      elim (Bool-cases a.starts) [
        | inl starts ↦ elim (Bool-cases (out_of_range (last_value (b.log ++ line_of a.logged)))) [
          | inl out ↦
              rw (try_group_lem s, starts, out)
                (
                  refl,
                  (
                    Owes-with_commands weight b' _ owed owed h'
                        (omega (arith, refreshment_even (client_name s.ksm client))),
                    r,
                  ),
                )
          | inr in_range ↦ rw (try_group_lem s, starts, in_range) (refl, (h', r))
        ]
        | inr not_started ↦ rw (try_group_lem s, not_started) (refl, give_up-Owes b' h')
      ]

  one_less :
      (limit k : ℕ) (counts : Bool) (a : Attempt) (rest : List Attempt) (b b' : Bench)
      → b.attempts ≡ a ∷ rest
      → b'.attempts ≡ rest
      → k + length b.attempts ≤ limit
      → k + one_if counts + length b'.attempts ≤ limit
  one_less limit k counts a rest b b' same same' h =
      let len : length b.attempts ≡ suc (length rest) = ap length same in
      let len' : length b'.attempts ≡ length rest = ap length same' in
      elim (Bool-cases counts) [
        | inl counted ↦ rw counted (omega arith)
        | inr rejected ↦ rw rejected (omega arith)
      ]

  pub Busy-Kept : (limit bound : ℕ) → Kept clean_end s (BusyFor limit) bound
  Busy-Kept limit bound = record {
    no_more = λ k b more h none_left. none_left;
    tried = λ client group_id k a rest b h same.
        Meets-weaken clean_end (λ _ b'. (b'.attempts ≡ rest) × Busy b')
          (λ counts b'. (b'.attempts ≡ rest) × BusyFor limit (k + one_if counts) b')
          (try_group s client group_id a (record b { attempts = rest }))
          (try-Busy client group_id a (record b { attempts = rest }) h.0)
          (λ counts b' h'. (h'.0, (h'.1, one_less limit k counts a rest b b' same h'.0 h.1)));
    drawn = λ k n b h. ((h.0.0, λ i. h.0.1 (n + i)), h.1);
    bounded = λ k b h. h.0.1;
  }

  -- Between tests, only the groups are there.
  abbrev pub Idle : Bench → Type 0
  Idle b = Owes weight service_weight b × ((i : ℕ) → b.rands i ≤ rand_max)

  -- A test of so many requests leaves at least so many runs of clients less.
  abbrev pub Tidy : (lines : ℕ) (before after : Bench) → Type 0
  Tidy lines before after = Idle after × (lines + length after.attempts ≤ length before.attempts)

  pub measure-Tidy :
      (requests : Trial (Unit {0})) (lines : ℕ) (mean : ℤ → Outcome ℤ) (b : Bench)
      → Idle b
      → ((limit : ℕ) (c : Bench)
          → BusyFor limit 0 c
          → Meets clean_end (λ _ c'. BusyFor limit lines c') (requests c))
      → ((z : ℤ) → (t : ℤ) × (mean z ≡ returns t))
      → Meets clean_end (λ _ b'. Tidy lines b b') (measure s requests lines mean b)
  unfolding measure
  measure-Tidy requests lines mean b (h, r) made known =
      let limit = length b.attempts in
      let Ends : ℤ → Bench → Type 0 = λ _ c. Tidy lines b c in
      Meets-and_then clean_end (λ _. BusyFor limit 0) Ends (create_clients s b) _
        (rw (create_clients_lem s b) ((creations-Owes b service_weight h, r), omega arith))
        (λ _ c h'.
          Meets-and_then clean_end (λ _. BusyFor limit lines) Ends (requests c) _ (made limit c h')
            (λ _ d h''.
              let (t, same) = known (total_time lines d.log) in
              Meets-lift clean_end Ends (mean (total_time lines d.log)) t _ d same (
                Meets-and_then clean_end (λ _. Tidy lines b) Ends (delete_clients s d)
                  (λ _. result t)
                  (rw (delete_clients_lem s d)
                    ((deletions-Owes d service_weight h''.0.0, h''.0.1), h''.1))
                  (λ _ c' h3. h3))))
