-- ===== src/TestSuite/Items.antt =====
-- test_suite: what the commands of a test create in the KDC, the directory of the caches and among the
-- groups, and that all of it is deleted again.
use kerberized_multimedia_in.Base.{ℕ, zero, suc, ◌+◌, ◌≡◌, refl, List, [], ◌∷◌, ◌++◌, Bytes, arith}
use kerberized_multimedia_in.Base.Ints.{pos_part}
use kerberized_multimedia_in.TestSuite.Names.{cache_filepath, client_name, test_password}
use kerberized_multimedia_in.TestSuite.Bench.{
  Bench, Command, service_create, service_remove, krb_princ_create, krb_princ_remove, ticket_create,
  kdestroy,
}
use kerberized_multimedia_in.TestSuite.Requests.{Setting}
use kerberized_multimedia_in.TestSuite.Commands.{pairs, with_commands}

-- What a command leaves behind or takes away: a principal, the file of a cache, or so many groups.
pub data Item : Type 0 where
  principal cache : Bytes → Item
  groups : Bytes → ℕ → Item

-- By krb_princ_create.sh, ticket_create.sh and service_create.sh.
abbrev pub created_by : Command → List Item
created_by (service_create name count) = groups name count ∷ []
created_by (krb_princ_create name password) = principal name ∷ []
created_by (ticket_create name password) = cache (cache_filepath name) ∷ []
created_by _ = []

-- By krb_princ_remove.sh, kdestroy and service_remove.sh.
abbrev pub deleted_by : Command → List Item
deleted_by (service_remove name count) = groups name count ∷ []
deleted_by (krb_princ_remove name) = principal name ∷ []
deleted_by (kdestroy file) = cache file ∷ []
deleted_by _ = []

module _ (weight : Item → ℕ) where
  abbrev total : List Item → ℕ
  total [] = 0
  total (i ∷ items) = weight i + total items

  -- The items of all commands, each with its weight.
  abbrev pub weighed : (Command → List Item) → List Command → ℕ
  weighed items [] = 0
  weighed items (c ∷ cs) = total (items c) + weighed items cs

  -- What has been created is what has been deleted and `owed`.
  abbrev pub Owes : ℕ → Bench → Type 0
  Owes owed b = weighed created_by b.commands ≡ weighed deleted_by b.commands + owed

  pub weighed-append :
      (items : Command → List Item) (cs ds : List Command)
      → weighed items (cs ++ ds) ≡ weighed items cs + weighed items ds
  weighed-append items [] ds = omega arith
  weighed-append items (c ∷ cs) ds = omega (arith, weighed-append items cs ds)

  pub clients_from : ℕ → (first n : ℕ) → ℕ
  clients_from ksm first zero = 0
  clients_from ksm first (suc n) =
      weight (principal (client_name ksm first))
      + weight (cache (cache_filepath (client_name ksm first)))
      + clients_from ksm (first + 1) n

  abbrev pub clients : Setting → ℕ
  clients s = clients_from s.ksm 0 (pos_part s.num_of_clients)

  pub pairs_created :
      (ksm first n : ℕ)
      → let cs =
          pairs
            (λ i. krb_princ_create (client_name ksm i) test_password)
            (λ i. ticket_create (client_name ksm i) test_password)
            first
            n in
        (weighed created_by cs ≡ clients_from ksm first n) × (weighed deleted_by cs ≡ 0)
  unfolding clients_from
  pairs_created ksm first zero = (refl, refl)
  pairs_created ksm first (suc n) =
      let (made, none_deleted) = pairs_created ksm (first + 1) n in
      (omega (arith, made), omega (arith, none_deleted))

  pub pairs_deleted :
      (ksm first n : ℕ)
      → let cs =
          pairs
            (λ i. kdestroy (cache_filepath (client_name ksm i)))
            (λ i. krb_princ_remove (client_name ksm i))
            first
            n in
        (weighed deleted_by cs ≡ clients_from ksm first n) × (weighed created_by cs ≡ 0)
  unfolding clients_from
  pairs_deleted ksm first zero = (refl, refl)
  pairs_deleted ksm first (suc n) =
      let (deleted, none_made) = pairs_deleted ksm (first + 1) n in
      (omega (arith, deleted), omega (arith, none_made))

  -- Commands that follow.
  pub Owes-with_commands :
      (b : Bench) (cs : List Command) (before after : ℕ)
      → Owes before b
      → before + weighed created_by cs ≡ after + weighed deleted_by cs
      → Owes after (with_commands b cs)
  Owes-with_commands b cs before after h e = omega (
    arith,
    h,
    e,
    weighed-append created_by b.commands cs,
    weighed-append deleted_by b.commands cs,
  )
