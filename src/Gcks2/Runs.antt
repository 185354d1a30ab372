-- ===== src/Gcks2/Runs.antt =====
-- Whole runs of kmtools/gcks2.cxx.
use kerberized_multimedia_in.Base.{
  ℕ, ◌≡◌, ◌≢◌, ◌⊎◌, inl, inr, true, none, some, List, [], ◌∷◌, Bytes, arith, ◌==◌,
}
use kerberized_multimedia_in.CLib.{returns, faults, null_pointer}
use kerberized_multimedia_in.Mikey.{MikeyLib}
use kerberized_multimedia_in.Gcks2.{obtain_service_key, serve_kdc, process_mikey_message}
use kerberized_multimedia_in.Gcks2.Setup.{
  Start, Round, ended, set_up, serve_round, serve_rounds, run_server,
}

-- Every call before the loop succeeds, but for the look-up of the key.
pub record IsStarted (s : Start) : Type 0 where
  pub clock_getres : s.clock_getres ≡ true
  pub clock_prev : s.clock_prev ≡ true
  pub init_context : s.init_context ≡ 0
  pub keytab : (s.keytab ≡ none) ⊎ (s.keytab ≡ some 0)
  pub socket : s.socket ≡ true
  pub reuses_address : s.reuses_address ≡ true
  pub lingers : s.lingers ≡ true
  pub binds : s.binds ≡ true
  pub listens : s.listens ≡ true

pub set_up_lem :
    (s : Start)
    → IsStarted s
    → set_up s
      ≡ returns (obtain_service_key s.sname_to_principal s.read_service_key s.service_key).1
unfolding set_up
set_up_lem s ok =
    let i : (s.init_context == 0) ≡ true = ground (arith, ok.init_context) in
    elim ok.keytab [
      | inl k ↦ simp (
        ok.clock_getres, ok.clock_prev, i, k, ok.socket, ok.reuses_address, ok.lingers, ok.binds,
        ok.listens,
      )
      | inr k ↦ simp (
        ok.clock_getres, ok.clock_prev, i, k, ok.socket, ok.reuses_address, ok.lingers, ok.binds,
        ok.listens,
      )
    ]

-- The key is found only if both calls of the look-up succeed.
obtain_service_key_failed :
    (sname_retval read_retval : ℕ) (key : Bytes)
    → (sname_retval ≢ 0) ⊎ (read_retval ≢ 0)
    → (obtain_service_key sname_retval read_retval key).1 ≡ none
unfolding obtain_service_key
obtain_service_key_failed sname_retval read_retval key h = ground (arith, h)

module _ (lib : MikeyLib) where
  serve_round_no_key :
      (message : Bytes) (round : Round)
      → round.clock_reads ≡ true
      → round.received ≡ some message
      → serve_round lib none round ≡ faults null_pointer
  unfolding serve_round serve_kdc process_mikey_message
  serve_round_no_key message round clock came = simp (clock, came)

  -- A server that does not find its key starts all the same, and reads a null pointer at the first
  -- message of the KDC.
  pub run_server_no_key :
      (s : Start) (message : Bytes) (round : Round) (rounds : List Round)
      → IsStarted s
      → (s.sname_to_principal ≢ 0) ⊎ (s.read_service_key ≢ 0)
      → round.clock_reads ≡ true
      → round.received ≡ some message
      → run_server lib s (round ∷ rounds) ≡ ([], ended (faults null_pointer))
  unfolding run_server serve_rounds
  run_server_no_key s message round rounds ok lost clock came = rw (
    set_up_lem s ok,
    obtain_service_key_failed s.sname_to_principal s.read_service_key s.service_key lost,
    serve_rounds,
    serve_round_no_key message round clock came,
  )
