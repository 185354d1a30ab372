-- ===== src/TestSuite/EachSize.antt =====
-- test_suite: each size that main of test1.c to test4.c run a test with.
use kerberized_multimedia_in.Base.{ℕ, ◌≤◌, Bool, true, false, List, [], ◌∷◌, All, arith}
use kerberized_multimedia_in.Base.Ints.{ℤ, pos, pos_part}
use kerberized_multimedia_in.TestSuite.Names.{group}
use kerberized_multimedia_in.TestSuite.Bench.{
  Bench, service_create, service_remove, Trial, and_then,
}
use kerberized_multimedia_in.TestSuite.Measures.{test1, test2, test3, test4}
use kerberized_multimedia_in.TestSuite.Statistics.{
  Doubles, run_test, run_test1, run_test2, run_test3, run_test4,
}
use kerberized_multimedia_in.TestSuite.Mains.{
  sizes, Files, setup_logs, setting, measure_both, over_sizes, merge_data, size1, size2, clients2,
  size3, size4,
}
use kerberized_multimedia_in.TestSuite.Meets.{Meets, Meets-and_then}
use kerberized_multimedia_in.TestSuite.Commands.{with_commands}
use kerberized_multimedia_in.TestSuite.Items.{Item, Owes}
use kerberized_multimedia_in.TestSuite.Reports.{
  test1-Consumes, test2-Consumes, test3-Consumes, test4-Consumes,
}
use kerberized_multimedia_in.TestSuite.Programs.{main_end, over_sizes_lem}
use kerberized_multimedia_in.TestSuite.Sizes.{
  WithGroups, Clear, All-sizes, size_lem, created, deleted, merged,
}

module _ (doubles : Doubles) (weight : Item → ℕ) where
  -- A size that keeps `K`.
  abbrev pub Keeping :
      (K : Bench → Type 0) → (Files doubles.Double → Trial (Files doubles.Double)) → Type 0
  Keeping K body =
      (files : Files doubles.Double) (c : Bench)
      → K c
      → Meets (main_end weight) (λ _ c'. K c') (body files c)

  -- The sizes, between the creation and the deletion of the groups.
  pub sizes_lem :
      (count : ℕ) (only_first : Bool)
      (body : ℕ → Files doubles.Double → Trial (Files doubles.Double)) (xs : List ℕ) (b : Bench)
      → All (λ x. Keeping (WithGroups doubles weight count) (body x)) xs
      → (Clear doubles weight) b
      → Meets
          (main_end weight)
          (λ _ c'. Owes weight 0 c')
          (and_then
            (over_sizes doubles only_first body xs
              (setup_logs doubles)
              (with_commands b (service_create group count ∷ [])))
            λ files c. merge_data doubles files (with_commands c (service_remove group count ∷ [])))
  sizes_lem count only_first body xs b each h =
      Meets-and_then (main_end weight) (λ _. WithGroups doubles weight count) (λ _. Owes weight 0)
        (over_sizes doubles only_first body xs (setup_logs doubles)
          (with_commands b (service_create group count ∷ [])))
        _
        (over_sizes_lem (main_end weight) doubles (WithGroups doubles weight count) (λ c k. k)
          only_first body xs (setup_logs doubles) each _ (created doubles weight count b h))
        (λ files c h'. merged doubles weight files _ (deleted doubles weight count c h'))

  pub size1_lem :
      (clients_given : Bool) (given : ℤ) (size : ℕ)
      → 1 ≤ pos_part given
      → 1 ≤ size
      → Keeping (WithGroups doubles weight 5) (size1 doubles clients_given given size)
  unfolding size1 run_test1
  size1_lem true given size some_given some_size files c h =
      size_lem doubles weight given given 5 1 (λ ksm. test1 (setting doubles ksm given 5 1) 3) files
        (λ ksm.
          test1-Consumes weight (setting doubles ksm given 5 1) 3 some_given (omega arith)
            (omega arith))
        c h
  size1_lem false given size some_given some_size files c h =
      size_lem doubles weight (pos size) (pos size) 5 1
        (λ ksm. test1 (setting doubles ksm (pos size) 5 1) 3) files
        (λ ksm.
          test1-Consumes weight (setting doubles ksm (pos size) 5 1) 3 some_size (omega arith)
            (omega arith))
        c h

  size2_lem :
      (n : ℤ) (group_count : ℕ)
      → 1 ≤ pos_part n
      → 1 ≤ group_count
      → Keeping (Clear doubles weight) (size2 doubles n group_count)
  unfolding size2 run_test2
  size2_lem n count some_client some_group files b h =
      Meets-and_then (main_end weight) (λ _. WithGroups doubles weight count)
        (λ _. (Clear doubles weight))
        (measure_both doubles (pos count) (λ ksm. test2 (setting doubles ksm n count 2))
          (λ ksm. run_test doubles (test2 (setting doubles ksm n count 2))) files
          (with_commands b (service_create group count ∷ [])))
        _
        (size_lem doubles weight (pos count) n count 2
          (λ ksm. test2 (setting doubles ksm n count 2)) files
          (λ ksm. test2-Consumes weight (setting doubles ksm n count 2) some_client some_group)
          (with_commands b (service_create group count ∷ [])) (created doubles weight count b h))
        (λ after c h'. deleted doubles weight count c h')

  pub clients2_lem :
      (clients_given : Bool) (given : ℤ) (clients : ℕ)
      → 1 ≤ pos_part given
      → 1 ≤ clients
      → Keeping (Clear doubles weight) (clients2 doubles clients_given given clients)
  unfolding clients2
  clients2_lem true given clients some_given some_client files b h =
      over_sizes_lem (main_end weight) doubles (Clear doubles weight) (λ d k. k) false
        (size2 doubles given) sizes files
        (All-sizes (λ x. Keeping (Clear doubles weight) (size2 doubles given x))
          (λ x some_group. size2_lem given x some_given some_group))
        b h
  clients2_lem false given clients some_given some_client files b h =
      over_sizes_lem (main_end weight) doubles (Clear doubles weight) (λ d k. k) false
        (size2 doubles (pos clients)) sizes files
        (All-sizes (λ x. Keeping (Clear doubles weight) (size2 doubles (pos clients) x))
          (λ x some_group. size2_lem (pos clients) x some_client some_group))
        b h

  pub size3_lem :
      (size : ℕ) → 1 ≤ size → Keeping (WithGroups doubles weight 10) (size3 doubles size)
  unfolding size3 run_test3
  size3_lem size some_size files c h =
      size_lem doubles weight (pos size) (pos size) 10 3
        (λ ksm. test3 (setting doubles ksm (pos size) 10 3) size) files
        (λ ksm.
          test3-Consumes weight (setting doubles ksm (pos size) 10 3) size some_size (omega arith)
            (omega arith))
        c h

  pub size4_lem :
      (n : ℤ) (l : ℕ)
      → 1 ≤ pos_part n
      → 1 ≤ l
      → Keeping (WithGroups doubles weight 5) (size4 doubles n l)
  unfolding size4 run_test4
  size4_lem n l some_client some_group files c h =
      size_lem doubles weight (pos l) n 5 4 (λ ksm. test4 (setting doubles ksm n 5 4) l) files
        (λ ksm. test4-Consumes weight (setting doubles ksm n 5 4) l some_client some_group) c h
