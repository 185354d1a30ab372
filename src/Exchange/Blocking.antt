-- ===== src/Exchange/Blocking.antt =====
-- Model 2 as a system: a client that refuses the connection of kmtools/gcks2.cxx, for a while or as long
-- as the server tries.
use kerberized_multimedia_in.Base.{
  ℕ, zero, suc, ◌≡◌, refl, ap, ◌∙◌, Bool, true, false, some, List, [], ◌∷◌, ◌++◌, Bytes, replicate,
  All, arith,
}
use kerberized_multimedia_in.Base.Ints.{pos}
use kerberized_multimedia_in.CLib.{returns}
use kerberized_multimedia_in.Mikey.{MikeyLib, IsMikey, DeliversKey, initiator_message}
use kerberized_multimedia_in.Gcks2.{connecting, connected, kdc_uri}
use kerberized_multimedia_in.Gcks2.Forwards.{
  IsForwardable, serve_kdc-kdc, send_mikey_message_blocked,
}
use kerberized_multimedia_in.Gcks2.Setup.{
  Start, Round, waits, blocked, serve_round, serve_rounds, run_server,
}
use kerberized_multimedia_in.Gcks2.Runs.{IsStarted, set_up_lem}
use kerberized_multimedia_in.Kdc.Message.{kdc_config}
use kerberized_multimedia_in.Exchange.InOrder.{
  Turn, IsServed, rounds_of, own_sending, own_sendings, serve_round-IsServed, run_server-forwarded,
  obtain_service_key_found,
}

-- A turn in which `connect` gives these results.
abbrev pub with_connects : Turn → List Bool → Turn
with_connects t results = record t {
  round = record t.round { network = record t.round.network { connects = results } };
}

-- So many refusals.
abbrev pub refusals : ℕ → List Bool
refusals k = replicate k false

connected-refusals : (k : ℕ) → connected (refusals k) ≡ false
unfolding connected
connected-refusals zero = refl
connected-refusals (suc k) = connected-refusals k

connected_late : (k : ℕ) (more : List Bool) → connected (refusals k ++ (true ∷ more)) ≡ true
unfolding connected
connected_late zero more = refl
connected_late (suc k) more = connected_late k more

All-append : {A : Type 0} (P : A → Type 0) (xs ys : List A) → All P xs → All P ys → All P (xs ++ ys)
All-append P [] ys h k = k
All-append P (x ∷ xs) ys (h, hs) k = (h, All-append P xs ys hs k)

module _ (lib : MikeyLib) where
  -- The message of the KDC under the key of the server, and every call of the round succeeds up to
  -- `connect`.
  pub record IsTried (gcks_key : Bytes) (t : Turn) : Type 0 where
    pub forwardable : IsForwardable lib t.request t.cname t.sname
    pub same_key : t.request.gcks_key ≡ gcks_key
    pub clock_reads : t.round.clock_reads ≡ true
    pub received :
        t.round.received
        ≡ some (initiator_message lib (kdc_config t.request t.cname t.sname) t.request.ssrc kdc_uri)
    pub socket : t.round.network.socket ≡ true
    pub host_known : t.round.network.host_known ≡ true

  same_sendings :
      (t : Turn) (results : List Bool) (turns after : List Turn)
      → own_sendings lib (turns ++ (with_connects t results ∷ after))
        ≡ own_sendings lib (turns ++ (t ∷ after))
  same_sendings t results [] after = refl
  same_sendings t results (u ∷ turns) after =
      ap (◌∷◌ (own_sending lib u)) (same_sendings t results turns after)

  late-IsServed :
      (gcks_key : Bytes) (t : Turn) (k : ℕ) (more : List Bool)
      → IsTried gcks_key t
      → IsServed lib gcks_key (with_connects t (refusals k ++ (true ∷ more)))
  late-IsServed gcks_key t k more ok = record {
    forwardable = ok.forwardable;
    same_key = ok.same_key;
    clock_reads = ok.clock_reads;
    received = ok.received;
    reaches = (ok.socket, ok.host_known, connected_late k more);
  }

  module _ (mikey : IsMikey lib) (key : DeliversKey lib) where
    serve_round_refused :
        (gcks_key : Bytes) (t : Turn) (k : ℕ)
        → IsTried gcks_key t
        → serve_round lib (some gcks_key) (with_connects t (refusals k)).round ≡ returns connecting
    unfolding serve_round
    serve_round_refused gcks_key t k ok =
        let f = ok.forwardable in
        let net = (with_connects t (refusals k)).round.network in
        rw (
          ok.clock_reads,
          ok.received,
          ← ok.same_key,
          serve_kdc-kdc lib mikey key t.request t.cname t.sname net f,
          send_mikey_message_blocked lib t.cname t.request.from_string (pos t.request.from_port)
              t.request.session_key net f.cname_text (omega (arith, f.conn_info_room)) f.from_text
              f.from_room ok.socket ok.host_known (connected-refusals k),
        )

    serve_rounds_refused :
        (gcks_key : Bytes) (turns : List Turn) (round : Round) (later : List Round)
        → All (IsServed lib gcks_key) turns
        → serve_round lib (some gcks_key) round ≡ returns connecting
        → serve_rounds lib (some gcks_key) (rounds_of turns ++ (round ∷ later))
          ≡ (own_sendings lib turns, blocked)
    unfolding serve_rounds
    serve_rounds_refused gcks_key [] round later ok stuck = rw (serve_rounds, stuck)
    serve_rounds_refused gcks_key (t ∷ turns) round later (first, ok) stuck = rw (
      serve_rounds,
      serve_round-IsServed lib mikey key gcks_key t first,
      serve_rounds_refused gcks_key turns round later ok stuck,
    )

    -- A server that has started and found its key, and has served some clients of the KDC, comes to one
    -- that refuses the connection. As long as it refuses, no later message of the KDC is taken, and the
    -- server does not give up. If it accepts after any number of refusals, it is sent its message, and the
    -- later clients theirs. libmikey keeps its promises, the KDC's messages are for requests that can be
    -- handed on whole, under the key of the server, and all other calls of the rounds succeed.
    pub run_server_refused :
        (s : Start) (turns after : List Turn) (t : Turn) (k : ℕ) (more : List Bool)
        (later : List Round)
        → IsStarted s
        → s.sname_to_principal ≡ 0
        → s.read_service_key ≡ 0
        → All (IsServed lib s.service_key) turns
        → All (IsServed lib s.service_key) after
        → IsTried s.service_key t
        → let t' = with_connects t (refusals k ++ (true ∷ more)) in
          (run_server lib s (rounds_of turns ++ ((with_connects t (refusals k)).round ∷ later))
            ≡ (own_sendings lib turns, blocked))
          × (run_server lib s (rounds_of (turns ++ (t' ∷ after)))
              ≡ (own_sendings lib (turns ++ (t ∷ after)), waits))
    unfolding run_server
    run_server_refused s turns after t k more later started found read ok ok' tried =
        let t' = with_connects t (refusals k ++ (true ∷ more)) in
        (
          rw (
            set_up_lem s started,
            obtain_service_key_found s.sname_to_principal s.read_service_key s.service_key found
                read,
            serve_rounds_refused s.service_key turns (with_connects t (refusals k)).round later ok
                (serve_round_refused s.service_key t k tried),
          ),
          run_server-forwarded lib mikey key s (turns ++ (t' ∷ after)) started found read (
                All-append (IsServed lib s.service_key) turns (t' ∷ after) ok
                  (late-IsServed s.service_key t k more tried, ok'))
              ∙ ap (λ sendings. (sendings, waits))
                  (same_sendings t (refusals k ++ (true ∷ more)) turns after),
        )
