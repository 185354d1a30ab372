-- ===== src/TestSuite/Log.antt =====
-- test_suite: the time log of a test, and the sum of its lines.
use kerberized_multimedia_in.Base.{
  ℕ, zero, suc, ◌+◌, ◌*◌, ◌≤◌, ◌≡◌, ◌≢◌, inl, inr, refl, ap, ◌∙◌, Option, none, some, List, [], ◌∷◌,
  ◌++◌, length, Bool, true, false, not, leb, if◌then◌else◌, All, Bool-cases, Option-cases,
  append-nil, length-append, arith,
}
use kerberized_multimedia_in.Base.Ints.{ℤ, pos, ◌≤ℤ◌, int_laws}
use kerberized_multimedia_in.TestSuite.Names.{cache_filepath, client_name, group, group_name}
use kerberized_multimedia_in.TestSuite.Bench.{
  Attempt, Bench, del_last_line, service_remove, finished, exited,
}
use kerberized_multimedia_in.TestSuite.Requests.{
  Setting, last_value, del_last, out_of_range, try_group, total_time, client_command,
}
use kerberized_multimedia_in.TestSuite.Order.{rand_max}
use kerberized_multimedia_in.TestSuite.Meets.{Ending, Meets}
use kerberized_multimedia_in.TestSuite.Commands.{attempted, deletions, refreshment, try_group_lem}
use kerberized_multimedia_in.TestSuite.Keeps.{Kept, one_if}
use mathlib.Core.Path.{subst}

-- A line that a test keeps.
abbrev pub InRange : ℤ → Type 0
InRange v = (pos 0 ≤ℤ v) × (v ≤ℤ pos 100)

out_of_range-InRange : (v : ℤ) → out_of_range v ≡ false → InRange v
out_of_range-InRange v e = (ground arith, ground arith)

pub InRange-test : (v : ℤ) → InRange v → out_of_range v ≡ false
InRange-test v h = ground arith

pub last_value-append : (log : List ℤ) (v : ℤ) → last_value (log ++ (v ∷ [])) ≡ v
unfolding last_value
last_value-append [] v = refl
last_value-append (u ∷ []) v = refl
last_value-append (u ∷ w ∷ log) v = last_value-append (w ∷ log) v

del_last-append : (log : List ℤ) (v : ℤ) → del_last (log ++ (v ∷ [])) ≡ log
unfolding del_last
del_last-append [] v = refl
del_last-append (u ∷ []) v = refl
del_last-append (u ∷ w ∷ log) v = ap (◌∷◌ u) (del_last-append (w ∷ log) v)

pub All-append_one :
    (log : List ℤ) (v : ℤ) → All InRange log → InRange v → All InRange (log ++ (v ∷ []))
All-append_one [] v h k = (k, tt)
All-append_one (u ∷ log) v h k = (h.0, All-append_one log v h.1 k)

-- A client that is started leaves a line.
abbrev pub Logs : Attempt → Type 0
Logs a = ◌≢◌ {A = Option ℤ} a.logged none

logged_some : (a : Attempt) → Logs a → (v : ℤ) × (a.logged ≡ some v)
logged_some a h = elim (Option-cases a.logged) [
  | inl nothing ↦ absurd (h nothing)
  | inr (v, e) ↦ (v, e)
]

-- A test waits only when no run of a client is left, and may exit anyhow; it does nothing undefined.
abbrev pub any_end : Ending
any_end = record { runs_out = λ b. b.attempts ≡ []; exits_with = λ _ _. Unit {0} }

-- After `k` requests, whose clients always log.
abbrev pub Logged : ℕ → Bench → Type 0
Logged k b =
    All InRange b.log × (length b.log ≡ k) × All Logs b.attempts × ((i : ℕ) → b.rands i ≤ rand_max)

-- What an attempt with a line does to the log.
try_logged :
    (s : Setting) (client group_id k : ℕ) (a : Attempt) (v : ℤ) (b : Bench)
    → a.logged ≡ some v
    → Logged k b
    → Meets any_end
        (λ counts b'. (b'.attempts ≡ b.attempts) × Logged (k + one_if counts) b')
        (try_group s client group_id a b)
try_logged s client group_id k a v b e (h, len, l, r) = elim (Bool-cases a.starts) [
  | inl starts ↦ elim (Bool-cases (out_of_range v)) [
    | inl out ↦
        rw (try_group_lem s, starts, e, last_value-append b.log v, out, del_last-append b.log v)
          (refl, (h, omega arith, l, r))
    | inr in_range ↦
        rw (try_group_lem s, starts, e, last_value-append b.log v, in_range)
          (
            refl,
            (
              All-append_one b.log v h (out_of_range-InRange v in_range),
              omega (arith, length-append b.log (v ∷ [])),
              l,
              r,
            ),
          )
  ]
  | inr not_started ↦ rw (try_group_lem s, not_started) tt
]

-- From 0 to 100.
abbrev pub within : ℤ → Bool
within (pos n) = leb n 100
within v = false

out_of_range-within : (v : ℤ) → out_of_range v ≡ not (within v)
out_of_range-within v = ground arith

-- An attempt that adds a line to the log, on all branches. A client that cannot be started ends the
-- process with code 1, behind the deletion of all clients and groups. Else a line from 0 to 100 stays,
-- and the attempt counts. With any other line the log is as before, a client of model 2 gets a fresh cache,
-- and the attempt does not count.
pub try_group_branches :
    (s : Setting) (client group_id : ℕ) (a : Attempt) (v : ℤ) (b : Bench)
    → a.logged ≡ some v
    → let name = client_name s.ksm client in
      let command = client_command (group_name group_id) (cache_filepath name) s.time_log s.ksm in
      let ran = b.commands ++ (command ∷ []) in
      try_group s client group_id a b ≡ (
        if a.starts
        then (if within v
            then finished true (record b { log = b.log ++ (v ∷ []); commands = ran })
            else finished false
                (record b { commands = ran ++ (del_last_line ∷ refreshment s name) }))
        else exited 1 (record b {
          log = b.log ++ (v ∷ []);
          commands = ran ++ (deletions s ++ (service_remove group s.group_count ∷ []));
        }))
try_group_branches s client group_id a v b e =
    try_group_lem s client group_id a b
    ∙ rw (e, last_value-append b.log v, out_of_range-within v)
        (elim (Bool-cases (within v)) [
          | inl kept ↦ rw kept refl
          | inr deleted ↦ rw (deleted, del_last-append b.log v) refl
        ])

pub total_time_bounds :
    (n : ℕ) (log : List ℤ)
    → All InRange log
    → (pos 0 ≤ℤ total_time n log) × (total_time n log ≤ℤ pos (100 * n))
unfolding total_time
total_time_bounds zero log h = (omega arith, omega arith)
total_time_bounds (suc n) [] h = (omega arith, omega arith)
total_time_bounds (suc n) (v ∷ log) h =
    let (low, high) = total_time_bounds n log h.1 in (omega (int_laws, h.0), omega (int_laws, h.0))

-- A client that is started and leaves no line, as one that fails does, is counted with the line of the
-- one before, if that is in range.
pub try_group_silent :
    (s : Setting) (client group_id : ℕ) (a : Attempt) (b : Bench) (log : List ℤ) (v : ℤ)
    → a.starts ≡ true
    → a.logged ≡ none
    → b.log ≡ log ++ (v ∷ [])
    → InRange v
    → try_group s client group_id a b ≡ finished true (attempted s client group_id a b)
try_group_silent s client group_id a b log v starts silent same h =
    try_group_lem s client group_id a b
    ∙ simp (starts, silent, same, append-nil, last_value-append log v, InRange-test v h)

pub Logged-Kept : (s : Setting) (bound : ℕ) → Kept any_end s Logged bound
Logged-Kept s bound = record {
  no_more = λ k b more h none_left. none_left;
  tried = λ client group_id k a rest b h same.
      let (logs, rest_Logs) = subst (All Logs) same h.2 in
      let (v, e) = logged_some a logs in
      try_logged s client group_id k a v (record b { attempts = rest }) e
        (h.0, h.1, rest_Logs, h.3);
  drawn = λ k n b h. (h.0, h.1, h.2, λ i. h.3 (n + i));
  bounded = λ k b h. h.3;
}
