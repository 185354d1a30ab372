-- ===== src/TestSuite/Requested.antt =====
-- test_suite: what all requests of test1.c to test4.c keep.
use kerberized_multimedia_in.Base.{ℕ, ◌+◌, ◌-◌, ◌*◌, ◌≤◌, ◌≡◌, ap, ◌∙◌, arith}
use kerberized_multimedia_in.Base.Ints.{pos_part}
use kerberized_multimedia_in.CLib.{returns}
use kerberized_multimedia_in.TestSuite.Bench.{Bench}
use kerberized_multimedia_in.TestSuite.Requests.{Setting, make_request}
use kerberized_multimedia_in.TestSuite.Measures.{
  client_order, requests1, requests2, requests3, requests4, group_id,
}
use kerberized_multimedia_in.TestSuite.Meets.{Ending, Meets}
use kerberized_multimedia_in.TestSuite.Shuffle.{group_order-IsSelection, client_order-IsSelection}
use kerberized_multimedia_in.TestSuite.Keeps.{
  Kept, pos-pos_part, make_request_lem, requests_lem, entries_lem, rounds_lem,
}

module _ {e : Ending} {s : Setting} {I : ℕ → Bench → Type 0} {bound : ℕ}
    (kept : Kept e s I bound) where
  pub requests2_lem :
      (k : ℕ) (b : Bench)
      → bound ≡ k + pos_part s.num_of_clients * s.group_count
      → I k b
      → Meets e (λ _ b'. I bound b') (requests2 s b)
  unfolding requests2
  requests2_lem k b total h =
      rounds_lem kept 0 (pos_part s.num_of_clients) s.group_count k bound _ b total
        (λ j i c room h'.
          requests_lem kept 1 s.group_count i (λ g. make_request s j g) c
            (λ g i' c' low high more h''. make_request_lem kept j g i' c' (omega arith) h'') h')
        h

  pub requests4_lem :
      (per k : ℕ) (b : Bench)
      → bound ≡ k + pos_part s.num_of_clients * per
      → I k b
      → Meets e (λ _ b'. I bound b') (requests4 s per b)
  unfolding requests4
  requests4_lem per k b total h =
      rounds_lem kept 0 (pos_part s.num_of_clients) per k bound _ b total
        (λ j i c room h'.
          requests_lem kept 1 per i (λ g. make_request s j (group_id g s.group_count)) c
            (λ g i' c' low high more h''.
              make_request_lem kept j (group_id g s.group_count) i' c' (omega arith) h'')
            h')
        h

  pub requests1_lem :
      (per k : ℕ) (b : Bench)
      → bound ≡ k + pos_part s.num_of_clients * per
      → 1 ≤ s.group_count
      → per ≤ s.group_count
      → I k b
      → Meets e (λ _ b'. I bound b') (requests1 s per b)
  unfolding requests1
  requests1_lem per k b total some_group few h =
      rounds_lem kept 0 (pos_part s.num_of_clients) per k bound _ b total
        (λ j i c room h'.
          let (a, same, len, _) =
            group_order-IsSelection (λ l. c.rands (s.group_count - 1 - 1 - l)) s.group_count
              (λ l. kept.bounded i c h' (s.group_count - 1 - 1 - l)) some_group in
          rw same (
            entries_lem kept 1 per i a (λ g. g - 1) (λ g. make_request s j)
              (record c { rands = λ l. c.rands (s.group_count - 1 + l) })
              (λ g low high. omega arith)
              (λ g x i' c' more h''. make_request_lem kept j x i' c' (omega arith) h'')
              (kept.drawn i (s.group_count - 1) c h')))
        h

  pub requests3_lem :
      (size k : ℕ) (b : Bench)
      → bound ≡ k + s.group_count * size
      → 1 ≤ pos_part s.num_of_clients
      → size ≤ pos_part s.num_of_clients
      → I k b
      → Meets e (λ _ b'. I bound b') (requests3 s size b)
  unfolding requests3
  requests3_lem size k b total some_client few h =
      rounds_lem kept 1 s.group_count size k bound _ b total
        (λ j i c room h'.
          let n = pos_part s.num_of_clients in
          let (a, e, len, _) =
            client_order-IsSelection (λ l. c.rands (n - 1 - 1 - l)) n
              (λ l. kept.bounded i c h' (n - 1 - 1 - l)) some_client in
          let same : client_order (λ l. c.rands (n - 1 - 1 - l)) s.num_of_clients ≡ returns a =
            ap (client_order (λ l. c.rands (n - 1 - 1 - l)))
              (pos-pos_part s.num_of_clients some_client)
            ∙ e in
          rw same (
            entries_lem kept 0 size i a (λ g. g) (λ _ cid. make_request s cid j)
              (record c { rands = λ l. c.rands (n - 1 + l) }) (λ g low high. omega arith)
              (λ g x i' c' more h''. make_request_lem kept x j i' c' (omega arith) h'')
              (kept.drawn i (n - 1) c h')))
        h
