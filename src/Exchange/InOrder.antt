-- ===== src/Exchange/InOrder.antt =====
-- Model 2 as a system: a whole run of kmtools/gcks2.cxx against the messages of the KDC.
use kerberized_multimedia_in.Base.{ℕ, ◌≡◌, refl, true, some, List, [], ◌∷◌, Bytes, All, arith}
use kerberized_multimedia_in.CLib.{returns}
use kerberized_multimedia_in.Mikey.{MikeyLib, IsMikey, DeliversKey, initiator_message}
use kerberized_multimedia_in.Gcks2.{Sending, sent, obtain_service_key, kdc_uri}
use kerberized_multimedia_in.Gcks2.Forwards.{IsForwardable, Reaches, to_client, serve_kdc-Reaches}
use kerberized_multimedia_in.Gcks2.Setup.{
  Start, Round, waits, serve_round, serve_rounds, run_server,
}
use kerberized_multimedia_in.Gcks2.Runs.{IsStarted, set_up_lem}
use kerberized_multimedia_in.Kdc.{GcksRequest}
use kerberized_multimedia_in.Kdc.Message.{kdc_config}

-- A request that the KDC has handed on, and the round of the server that takes it.
pub record Turn : Type 0 where
  pub request : GcksRequest
  pub cname : Bytes
  pub sname : Bytes
  pub round : Round

abbrev pub rounds_of : List Turn → List Round
rounds_of [] = []
rounds_of (t ∷ turns) = t.round ∷ rounds_of turns

pub obtain_service_key_found :
    (sname_retval read_retval : ℕ) (key : Bytes)
    → sname_retval ≡ 0
    → read_retval ≡ 0
    → (obtain_service_key sname_retval read_retval key).1 ≡ some key
unfolding obtain_service_key
obtain_service_key_found sname_retval read_retval key s r = ground (arith, s, r)

module _ (lib : MikeyLib) where
  -- The message of the KDC under the key of the server, and every call of the round succeeds.
  pub record IsServed (gcks_key : Bytes) (t : Turn) : Type 0 where
    pub forwardable : IsForwardable lib t.request t.cname t.sname
    pub same_key : t.request.gcks_key ≡ gcks_key
    pub clock_reads : t.round.clock_reads ≡ true
    pub received :
        t.round.received
        ≡ some (initiator_message lib (kdc_config t.request t.cname t.sname) t.request.ssrc kdc_uri)
    pub reaches : Reaches t.round.network

  -- What is for the client of a turn.
  abbrev pub own_sending : Turn → Sending
  own_sending t =
      sent t.request.from_string 9999
        (to_client lib t.request.session_key t.round.network.ssrc t.cname)

  abbrev pub own_sendings : List Turn → List Sending
  own_sendings [] = []
  own_sendings (t ∷ turns) = own_sending t ∷ own_sendings turns

  pub serve_round-IsServed :
      IsMikey lib
      → DeliversKey lib
      → (gcks_key : Bytes) (t : Turn) → IsServed gcks_key t
      → serve_round lib (some gcks_key) t.round ≡ returns (own_sending t)
  unfolding serve_round
  serve_round-IsServed mikey key gcks_key t ok =
      let r = t.request in
      let f = ok.forwardable in
      rw (
        ok.clock_reads,
        ok.received,
        ← ok.same_key,
        serve_kdc-Reaches lib mikey key r t.cname t.sname t.round.network f ok.reaches,
      )

  serve_rounds-IsServed :
      IsMikey lib
      → DeliversKey lib
      → (gcks_key : Bytes) (turns : List Turn) → All (IsServed gcks_key) turns
      → serve_rounds lib (some gcks_key) (rounds_of turns) ≡ (own_sendings turns, waits)
  unfolding serve_rounds
  serve_rounds-IsServed mikey key gcks_key [] ok = refl
  serve_rounds-IsServed mikey key gcks_key (t ∷ turns) (first, ok) = rw (
    serve_rounds,
    serve_round-IsServed mikey key gcks_key t first,
    serve_rounds-IsServed mikey key gcks_key turns ok,
  )

  -- A server that has started and found its key sends every client of the KDC its own message, in the
  -- order of the KDC's messages, and waits for the KDC again: if libmikey keeps its promises, the KDC's
  -- messages are for requests that can be handed on whole, under the key of the server, and every call
  -- of the rounds succeeds.
  pub run_server-forwarded :
      IsMikey lib
      → DeliversKey lib
      → (s : Start) (turns : List Turn) → IsStarted s
      → s.sname_to_principal ≡ 0
      → s.read_service_key ≡ 0
      → All (IsServed s.service_key) turns
      → run_server lib s (rounds_of turns) ≡ (own_sendings turns, waits)
  unfolding run_server
  run_server-forwarded mikey key s turns started found read ok = rw (
    set_up_lem s started,
    obtain_service_key_found s.sname_to_principal s.read_service_key s.service_key found read,
    serve_rounds-IsServed mikey key s.service_key turns ok,
  )
