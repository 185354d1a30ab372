-- ===== src/TestSuite/CleanUp.antt =====
-- test_suite: test1 of test1.c to test4 of test4.c delete what they create, also where they exit.
use kerberized_multimedia_in.Base.{ℕ, zero, suc, ◌*◌, ◌/◌, ◌≤◌, ◌≡◌, refl, arith}
use kerberized_multimedia_in.Base.Ints.{ℤ, pos, negsuc, pos_part, sub_ℕ}
use kerberized_multimedia_in.CLib.{returns}
use kerberized_multimedia_in.TestSuite.Bench.{Bench}
use kerberized_multimedia_in.TestSuite.Requests.{Setting}
use kerberized_multimedia_in.TestSuite.Measures.{
  requests1, requests2, requests3, requests4, test1, test2, test3, test4, quotient,
}
use kerberized_multimedia_in.TestSuite.Meets.{Meets}
use kerberized_multimedia_in.TestSuite.Requested.{
  requests1_lem, requests2_lem, requests3_lem, requests4_lem,
}
use kerberized_multimedia_in.TestSuite.Items.{Item}
use kerberized_multimedia_in.TestSuite.Busy.{clean_end, Idle, Tidy, Busy-Kept, measure-Tidy}

quotient_returns : (z w : ℤ) → 1 ≤ pos_part w → (t : ℤ) × (quotient z w ≡ returns t)
unfolding quotient
quotient_returns z (negsuc n) h = absurd (omega arith)
quotient_returns z (pos zero) h = absurd (omega arith)
quotient_returns (pos z) (pos (suc n)) h = (pos (z / suc n), refl)
quotient_returns (negsuc z) (pos (suc n)) h = (sub_ℕ 0 (suc z / suc n), refl)

module _ (weight : Item → ℕ) (s : Setting) where
  pub test1-Tidy :
      (per : ℕ) (b : Bench)
      → 1 ≤ s.group_count
      → per ≤ s.group_count
      → Idle weight s b
      → Meets
          (clean_end weight s)
          (λ _ b'. Tidy weight s (pos_part s.num_of_clients * per) b b')
          (test1 s per b)
  unfolding test1
  test1-Tidy per b some_group few start =
      let lines = pos_part s.num_of_clients * per in
      measure-Tidy weight s (requests1 s per) lines returns b start
        (λ limit c h.
          requests1_lem (Busy-Kept weight s limit lines) per 0 c (omega arith) some_group few h)
        (λ z. (z, refl))

  pub test2-Tidy :
      (b : Bench)
      → Idle weight s b
      → Meets
          (clean_end weight s)
          (λ _ b'. Tidy weight s (pos_part s.num_of_clients * s.group_count) b b')
          (test2 s b)
  unfolding test2
  test2-Tidy b start =
      let lines = pos_part s.num_of_clients * s.group_count in
      measure-Tidy weight s (requests2 s) lines returns b start
        (λ limit c h. requests2_lem (Busy-Kept weight s limit lines) 0 c (omega arith) h)
        (λ z. (z, refl))

  pub test3-Tidy :
      (size : ℕ) (b : Bench)
      → 1 ≤ pos_part s.num_of_clients
      → size ≤ pos_part s.num_of_clients
      → Idle weight s b
      → Meets
          (clean_end weight s)
          (λ _ b'. Tidy weight s (size * s.group_count) b b')
          (test3 s size b)
  unfolding test3
  test3-Tidy size b some_client small start =
      let lines = size * s.group_count in
      measure-Tidy weight s (requests3 s size) lines returns b start
        (λ limit c h.
          requests3_lem (Busy-Kept weight s limit lines) size 0 c (omega arith) some_client small h)
        (λ z. (z, refl))

  pub test4-Tidy :
      (per : ℕ) (b : Bench)
      → 1 ≤ pos_part s.num_of_clients
      → Idle weight s b
      → Meets
          (clean_end weight s)
          (λ _ b'. Tidy weight s (pos_part s.num_of_clients * per) b b')
          (test4 s per b)
  unfolding test4
  test4-Tidy per b some_client start =
      let lines = pos_part s.num_of_clients * per in
      measure-Tidy weight s (requests4 s per) lines (λ t. quotient t s.num_of_clients) b start
        (λ limit c h. requests4_lem (Busy-Kept weight s limit lines) per 0 c (omega arith) h)
        (λ z. quotient_returns z s.num_of_clients some_client)

-- However items are weighed, and whatever the clients log: when a test has finished, all principals and
-- caches that it created are deleted, and it has taken a run of a client for each request at least.
-- Where it ends because a client cannot be started, it exits with code 1, and the groups that the
-- program created are deleted too. A test asks at most for the groups and the clients that there are;
-- for test3 and test4 there is at least one client.
pub tests_clean_up :
    (weight : Item → ℕ) (s : Setting) (per size : ℕ) (b : Bench)
    → 1 ≤ pos_part s.num_of_clients
    → 1 ≤ s.group_count
    → per ≤ s.group_count
    → size ≤ pos_part s.num_of_clients
    → Idle weight s b
    → let n = pos_part s.num_of_clients in
      let e = clean_end weight s in
      Meets e (λ _ b'. Tidy weight s (n * per) b b') (test1 s per b)
      × Meets e (λ _ b'. Tidy weight s (n * s.group_count) b b') (test2 s b)
      × Meets e (λ _ b'. Tidy weight s (size * s.group_count) b b') (test3 s size b)
      × Meets e (λ _ b'. Tidy weight s (n * per) b b') (test4 s per b)
tests_clean_up weight s per size b some_client some_group few small start = (
  test1-Tidy weight s per b some_group few start,
  test2-Tidy weight s b start,
  test3-Tidy weight s size b some_client small start,
  test4-Tidy weight s per b some_client start,
)
