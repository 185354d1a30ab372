-- ===== src/Gcks2/Setup.antt =====
-- kmtools/gcks2.cxx: `main` before its loop, the loop, and the whole run.
use kerberized_multimedia_in.Base.{
  ℕ, Bool, true, not, Option, none, some, List, [], ◌∷◌, Bytes, ◌==◌,
}
use kerberized_multimedia_in.CLib.{Outcome, returns, exits, faults, ◌>>◌, exit_if}
use kerberized_multimedia_in.Mikey.{MikeyLib}
use kerberized_multimedia_in.Gcks2.{
  Network, Sending, not_sent, connecting, sent, obtain_service_key, serve_kdc,
}

-- What the calls before the loop give. `keytab` is the return value of `krb5_kt_resolve`, which is
-- called only if there is a keytab argument; the last three fields belong to `obtain_service_key`.
pub record Start : Type 0 where
  pub clock_getres : Bool
  pub clock_prev : Bool
  pub init_context : ℕ
  pub keytab : Option ℕ
  pub socket : Bool
  pub reuses_address : Bool
  pub lingers : Bool
  pub binds : Bool
  pub listens : Bool
  pub sname_to_principal : ℕ
  pub read_service_key : ℕ
  pub service_key : Bytes

abbrev pub resolved : Option ℕ → Bool
resolved none = true
resolved (some retval) = retval == 0

-- The key of the server. The return value of `obtain_service_key` is dropped: the key stays the null
-- pointer where it fails.
unfoldable pub set_up : Start → Outcome (Option Bytes)
set_up s = do
  exit_if (not s.clock_getres) 0
  exit_if (not s.clock_prev) 0
  exit_if (not (s.init_context == 0)) 1
  exit_if (not (resolved s.keytab)) 1
  exit_if (not s.socket) 1
  exit_if (not s.reuses_address) 1
  exit_if (not s.lingers) 1
  let gcks_key = (obtain_service_key s.sname_to_principal s.read_service_key s.service_key).1
  exit_if (not s.binds) 1
  exit_if (not s.listens) 1
  returns gcks_key

-- A round of the loop: whether the clock can be read, what stands on the connection of the KDC, and
-- what the sending to the client meets.
pub record Round : Type 0 where
  pub clock_reads : Bool
  pub received : Option Bytes
  pub network : Network

-- How the loop stands: it waits for the KDC, or for a client that has refused all connections so far;
-- `ended` where the
-- process is over.
pub data Standing : Type 0 where
  waits : Standing
  blocked : Standing
  ended : Outcome (Unit {0}) → Standing

module _ (lib : MikeyLib) where
  unfoldable pub serve_round : Option Bytes → Round → Outcome Sending
  serve_round gcks_key round =
      exit_if (not round.clock_reads) 0 >> serve_kdc lib gcks_key round.received round.network

  -- The loop, over the rounds that come: what was sent, and how it stands then. The server goes on to
  -- the next message of the KDC only when the client is served.
  unfoldable pub serve_rounds : Option Bytes → List Round → List Sending × Standing
  unfolding serve_round
  serve_rounds gcks_key [] = ([], waits)
  serve_rounds gcks_key (round ∷ rounds) =
      let (sendings, standing) = serve_rounds gcks_key rounds in
      elim (serve_round gcks_key round) [
        | returns not_sent ↦ (not_sent ∷ sendings, standing)
        | returns connecting ↦ ([], blocked)
        | returns (sent host port message) ↦ (sent host port message ∷ sendings, standing)
        | exits n ↦ ([], ended (exits n))
        | faults e ↦ ([], ended (faults e))
      ]

  abbrev pub started : Outcome (Option Bytes) → List Round → List Sending × Standing
  started (returns gcks_key) rounds = serve_rounds gcks_key rounds
  started (exits n) rounds = ([], ended (exits n))
  started (faults e) rounds = ([], ended (faults e))

  -- `main`
  unfoldable pub run_server : Start → List Round → List Sending × Standing
  unfolding set_up serve_rounds
  run_server s rounds = started (set_up s) rounds
