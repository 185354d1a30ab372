-- ===== src/Tests/Exchange.antt =====
-- Runs of model 2 as a system at concrete inputs.
use kerberized_multimedia_in.Base.{
  ℕ, List, inl, none, ◌≡◌, refl, sym, ap, ◌∙◌, true, false, some, [], ◌∷◌, ◌++◌, Bytes, arith,
}
use kerberized_multimedia_in.CLib.{returns}
use kerberized_multimedia_in.CLib.BufferLaws.{length-zeroed}
use kerberized_multimedia_in.Gcks2.Setup.{Start, waits, blocked, run_server}
use kerberized_multimedia_in.Gcks2.Runs.{IsStarted}
use kerberized_multimedia_in.Gcks2.{kdc_uri, sent, serve_kdc}
use kerberized_multimedia_in.Gcks2.Forwards.{IsForwardable, serve_kdc-Reaches}
use kerberized_multimedia_in.Mikey.{initiator_message}
use kerberized_multimedia_in.Kdc.Message.{kdc_config}
use kerberized_multimedia_in.Kdc.Tgs.{Issued, find_master_key, replies, issue_ticket}
use kerberized_multimedia_in.Kdc.Issues.{IsFound, issue_ticket_lem}
use kerberized_multimedia_in.Tests.Patches.{options, options-is_mikey_set, lookups, lookups-IsFound}
use kerberized_multimedia_in.Sclient1.{joined}
use kerberized_multimedia_in.Sclient2.{listening_port, take_message}
use kerberized_multimedia_in.Exchange.{
  Asked, request_of, Packet, System, ask, forward, Turns, Reach, start, next,
}
use kerberized_multimedia_in.Exchange.InOrder.{
  Turn, IsServed, rounds_of, own_sendings, run_server-forwarded,
}
use kerberized_multimedia_in.Exchange.Blocking.{with_connects, refusals, run_server_refused}
use kerberized_multimedia_in.Exchange.Invariant.{AreForwardable}
use kerberized_multimedia_in.Exchange.Messages.{IsAnswerTo}
use kerberized_multimedia_in.Exchange.Progress.{request-IsAnswerTo}
use kerberized_multimedia_in.Exchange.Origin.{Takes, client_of, packets-authenticated}
use kerberized_multimedia_in.Tests.SimpleMikey.{
  simple_mikey, simple_mikey-IsMikey, simple_mikey-DeliversKey,
}
use kerberized_multimedia_in.Tests.Servers.{
  bob, request, line, network, network-Reaches, answer, request-IsForwardable,
}
use kerberized_multimedia_in.Tests.Clients.{world2, has_ticket, to_bob}
use mathlib.Core.List.{Memᴰ}
use mathlib.Core.Path.{subst}

abbrev message : Bytes
message = initiator_message simple_mikey (kdc_config request bob (b'g' ∷ [])) request.ssrc kdc_uri

served :
    serve_kdc simple_mikey (some request.gcks_key) (some message) network
    ≡ returns (sent request.from_string 9999 answer)
served =
    serve_kdc-Reaches simple_mikey simple_mikey-IsMikey simple_mikey-DeliversKey request bob
      (b'g' ∷ []) network request-IsForwardable network-Reaches
    ∙ ap (λ t. returns (sent request.from_string 9999 t)) to_bob

abbrev asked_by_bob : Asked
asked_by_bob = record {
  kdc_options = options;
  enc_tkt_in_skey = false;
  lookups = lookups;
  request = request;
  cname = bob;
  sname = b'g' ∷ [];
}

abbrev issued : Issued
issued = record { sent = some message; keys = 8; freed = true; ended = replies }

issued_lem : issue_ticket simple_mikey options false lookups 7 request line ≡ returns issued
unfolding find_master_key
issued_lem =
    issue_ticket_lem simple_mikey simple_mikey-IsMikey simple_mikey-DeliversKey options false
      lookups 7 request line bob (b'g' ∷ []) options-is_mikey_set lookups-IsFound
      request-IsForwardable (refl, refl, refl, refl)

abbrev packet : Packet
packet = record { addr = request.from_string; port = 9999; text = answer }

abbrev answered : System
answered = record { asked = asked_by_bob ∷ []; keys = 8; backlog = []; packets = packet ∷ [] }

answered-Reach : Reach simple_mikey request.gcks_key answered
answered-Reach =
    next (next (start 7) (ask asked_by_bob line issued issued_lem))
      (forward message [] network packet refl served)

only_bob : (a : Asked) → Memᴰ a (asked_by_bob ∷ []) → a ≡ asked_by_bob
only_bob a (Memᴰ.head e) = e
only_bob a (Memᴰ.tail m) = elim m [ ]

answered-AreForwardable : AreForwardable simple_mikey request.gcks_key (asked_by_bob ∷ [])
answered-AreForwardable a m =
    subst
      (λ b.
        IsForwardable simple_mikey (request_of b) b.cname b.sname
        × (b.lookups.gcks_key ≡ request.gcks_key))
      (sym (only_bob a m)) (request-IsForwardable, refl)

world2-Takes : Takes world2 packet 4
world2-Takes = record {
  arrived = refl;
  short = omega arith;
  room = length-zeroed 1024;
  has_creds = has_ticket;
}

packets-authenticated_example :
    (a : Asked) × Memᴰ a answered.asked
    × (packet.addr ≡ a.request.from_string)
    × (packet.port ≡ listening_port)
    × (m : simple_mikey.Mikey) × (take_message simple_mikey (client_of a world2)
        ≡ returns (joined true m))
packets-authenticated_example =
    packets-authenticated simple_mikey request.gcks_key answered packet world2 4
      simple_mikey-IsMikey simple_mikey-DeliversKey answered-Reach answered-AreForwardable
      (Memᴰ.head refl) world2-Takes

-- `gcks2 g` with a key, and two requests of Bob.
abbrev with_key : Start
with_key = record {
  clock_getres = true;
  clock_prev = true;
  init_context = 0;
  keytab = none;
  socket = true;
  reuses_address = true;
  lingers = true;
  binds = true;
  listens = true;
  sname_to_principal = 0;
  read_service_key = 0;
  service_key = request.gcks_key;
}

with_key-IsStarted : IsStarted with_key
with_key-IsStarted = record {
  clock_getres = refl;
  clock_prev = refl;
  init_context = refl;
  keytab = inl refl;
  socket = refl;
  reuses_address = refl;
  lingers = refl;
  binds = refl;
  listens = refl;
}

abbrev turn_with : ℕ → Turn
turn_with ssrc = record {
  request = request;
  cname = bob;
  sname = b'g' ∷ [];
  round = record {
    clock_reads = true;
    received = some message;
    network = record network { ssrc = ssrc };
  };
}

turn_with-IsServed : (ssrc : ℕ) → IsServed simple_mikey request.gcks_key (turn_with ssrc)
turn_with-IsServed ssrc = record {
  forwardable = request-IsForwardable;
  same_key = refl;
  clock_reads = refl;
  received = refl;
  reaches = network-Reaches;
}

abbrev turns : List Turn
turns = turn_with 2 ∷ turn_with 7 ∷ []

run_server-forwarded_example :
    run_server simple_mikey with_key (rounds_of turns) ≡ (own_sendings simple_mikey turns, waits)
run_server-forwarded_example =
    run_server-forwarded simple_mikey simple_mikey-IsMikey simple_mikey-DeliversKey with_key turns
      with_key-IsStarted refl refl (turn_with-IsServed 2, (turn_with-IsServed 7, tt))

-- Bob asks again while his first message waits.
abbrev asked_once : System
asked_once = record { asked = asked_by_bob ∷ []; keys = 8; backlog = message ∷ []; packets = [] }

lookups-IsFound_again : IsFound lookups 8
unfolding find_master_key
lookups-IsFound_again = record {
  principal = refl;
  entry = refl;
  not_empty = omega arith;
  enctype = refl;
  master_key = refl;
  decrypts = refl;
}

request-IsAnswerTo_example :
    (t : System) × (new : List Packet) × (p : Packet) × Turns simple_mikey request.gcks_key
      asked_once t
    × (t.asked ≡ asked_by_bob ∷ asked_by_bob ∷ [])
    × (t.backlog ≡ [])
    × (t.packets ≡ new ++ [])
    × Memᴰ p new
    × IsAnswerTo simple_mikey asked_by_bob p
request-IsAnswerTo_example =
    request-IsAnswerTo simple_mikey request.gcks_key asked_once asked_by_bob line (λ i. network)
      simple_mikey-IsMikey simple_mikey-DeliversKey
      (next (start 7) (ask asked_by_bob line issued issued_lem)) answered-AreForwardable
      options-is_mikey_set lookups-IsFound_again request-IsForwardable refl (refl, refl, refl, refl)
      (λ i. network-Reaches)

-- A client that refuses the connection three times, or as long as it is tried, behind one that is served.
run_server_refused_example :
    let t = turn_with 7 in
    let t' = with_connects t (refusals 3 ++ (true ∷ [])) in
    (run_server simple_mikey with_key (
        rounds_of (turn_with 2 ∷ [])
        ++ ((with_connects t (refusals 3)).round ∷ (turn_with 4).round ∷ []))
      ≡ (own_sendings simple_mikey (turn_with 2 ∷ []), blocked))
    × (run_server simple_mikey with_key (rounds_of ((turn_with 2 ∷ []) ++ (t' ∷ turn_with 4 ∷ [])))
        ≡ (own_sendings simple_mikey ((turn_with 2 ∷ []) ++ (t ∷ turn_with 4 ∷ [])), waits))
run_server_refused_example =
    run_server_refused simple_mikey simple_mikey-IsMikey simple_mikey-DeliversKey with_key
      (turn_with 2 ∷ []) (turn_with 4 ∷ []) (turn_with 7) 3 [] ((turn_with 4).round ∷ [])
      with_key-IsStarted refl refl (turn_with-IsServed 2, tt) (turn_with-IsServed 4, tt)
      (record {
        forwardable = request-IsForwardable;
        same_key = refl;
        clock_reads = refl;
        received = refl;
        socket = refl;
        host_known = refl;
      })
