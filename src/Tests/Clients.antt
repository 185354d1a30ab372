-- ===== src/Tests/Clients.antt =====
-- Runs of the two clients of kmtools against the servers.
use kerberized_multimedia_in.Base.{
  ◌+◌, ◌<◌, ◌≡◌, refl, true, none, some, [], ◌∷◌, Bytes, length, ap, ◌∙◌, arith, inl,
}
use kerberized_multimedia_in.CLib.{returns, faults, out_of_bounds, zeroed, until_nul, htons}
use kerberized_multimedia_in.CLib.BufferLaws.{length-zeroed}
use kerberized_multimedia_in.Net.{bytes, interrupted}
use kerberized_multimedia_in.Mikey.{initiator_message, new_config}
use kerberized_multimedia_in.Gcks1.{bufsiz, frame, answer_text, serve}
use kerberized_multimedia_in.Gcks1.Answers.{answer_text-NoNul, serve_lem}
use kerberized_multimedia_in.Gcks2.{sent}
use kerberized_multimedia_in.Gcks2.Forwards.{forwarded-Reaches, to_client}
use kerberized_multimedia_in.Sclient1.{accepted, joined, take_reply}
use kerberized_multimedia_in.Sclient1.Delivery.{take_reply-authenticated}
use kerberized_multimedia_in.Sclient1
use kerberized_multimedia_in.Sclient2.{listening_port, take_message}
use kerberized_multimedia_in.Sclient2
use kerberized_multimedia_in.Sclient2.Delivery.{take_message-authenticated, take_message_outside}
use kerberized_multimedia_in.Timing.Exact.{reading}
use kerberized_multimedia_in.Credentials.{obtain_credentials}
use kerberized_multimedia_in.Tests.SimpleMikey.{
  field_of, shifted, simple_mikey, simple_mikey-IsMikey, simple_mikey-DeliversKey,
}
use kerberized_multimedia_in.Tests.Servers.{
  bob, group_key, from_bob, from_bob-IsServed, answer, request, line, network, network-Reaches,
  request-IsForwardable,
}
use kerberized_multimedia_in.Tests.Wires.{ticket}

-- A client of model 1 for which all calls succeed, and the reply comes in three pieces.
abbrev pub world1 : Sclient1.World
world1 = record {
  clock_getres = true;
  clock_prev = true;
  init_context = 0;
  start_ts = some (reading 1 5);
  getaddrinfo = 0;
  addresses = record { socket = some 3; connects = true } ∷ [];
  sname_to_principal = 0;
  cc_resolve = 0;
  cc_get_principal = 0;
  unparse_name = 0;
  client_name = bob;
  krb5 = ticket;
  session_key = group_key;
  sendauth = accepted true;
  received =
      bytes 0 []
      ∷ bytes 12 (2 ∷ 11 ∷ 10 ∷ 9 ∷ 1 ∷ [])
      ∷ interrupted
      ∷ bytes 2 (100 ∷ 113 ∷ 100 ∷ 1 ∷ 1 ∷ 1 ∷ [])
      ∷ [];
  malloc = λ n. some (zeroed n);
  xmitlen = 0 ∷ 0 ∷ [];
  end_ts = some (reading 3 5000009);
  log_opens = true;
}

pub served :
    (b : Bytes) × (serve simple_mikey from_bob (zeroed bufsiz) ≡ returns (0 ∷ 12 ∷ answer, b))
unfolding frame htons answer_text simple_mikey initiator_message until_nul new_config field_of
    shifted
served =
    let (b, e, _) =
      serve_lem simple_mikey from_bob (zeroed bufsiz) from_bob-IsServed
        (answer_text-NoNul simple_mikey from_bob) (length-zeroed bufsiz) in
    (b, e)

pub answer_fits : length (answer_text simple_mikey from_bob) < bufsiz
unfolding answer_text simple_mikey initiator_message until_nul new_config field_of shifted
answer_fits = omega arith

take_reply-authenticated_example :
    (m : simple_mikey.Mikey) × (take_reply simple_mikey world1 ≡ returns (joined true m))
take_reply-authenticated_example =
    take_reply-authenticated simple_mikey simple_mikey-IsMikey from_bob (zeroed bufsiz)
      (0 ∷ 12 ∷ answer) served.0 world1 [] (zeroed (length (answer_text simple_mikey from_bob) + 1))
      from_bob-IsServed (length-zeroed bufsiz) refl answer_fits served.1 refl refl refl refl refl
      (length-zeroed (length (answer_text simple_mikey from_bob) + 1))

-- Its session.
pub taken : (m : simple_mikey.Mikey) × (take_reply simple_mikey world1 ≡ returns (joined true m))
taken =
    take_reply-authenticated simple_mikey simple_mikey-IsMikey from_bob (zeroed bufsiz)
      (0 ∷ 12 ∷ answer) served.0 world1 [] (zeroed (length (answer_text simple_mikey from_bob) + 1))
      from_bob-IsServed (length-zeroed bufsiz) refl answer_fits served.1 refl refl refl refl refl
      (length-zeroed (length (answer_text simple_mikey from_bob) + 1))

-- A client of model 2 with the answer of the GCKS on its connection.
abbrev pub world2 : Sclient2.World
world2 = record {
  clock_getres = true;
  start_ts = some (reading 1 5);
  clock_prev = true;
  init_context = 0;
  sname_to_principal = 0;
  cc_resolve = 0;
  cc_get_principal = 0;
  krb5 = ticket;
  unparse_name = 0;
  client_name = bob;
  socket = true;
  setsockopt = true;
  bind = true;
  listen = true;
  arrived = some answer;
  recv_data = zeroed 1024;
  session_key = group_key;
  end_ts = some (reading 3 5000009);
  log_opens = true;
}

pub to_bob : to_client simple_mikey group_key 2 bob ≡ answer
unfolding simple_mikey initiator_message new_config field_of shifted
to_bob = refl

pub has_ticket : (obtain_credentials ticket true true).out_creds ≡ some 4
unfolding obtain_credentials
has_ticket = refl

take_message-authenticated_example :
    (listening_port ≡ listening_port)
    × (m : simple_mikey.Mikey) × (take_message simple_mikey world2 ≡ returns (joined true m))
take_message-authenticated_example =
    take_message-authenticated simple_mikey simple_mikey-IsMikey simple_mikey-DeliversKey request
      line bob (b'g' ∷ []) network request.from_string 9999 answer world2 4 request-IsForwardable
      (refl, refl, refl, refl) network-Reaches
      (forwarded-Reaches simple_mikey simple_mikey-IsMikey simple_mikey-DeliversKey request line bob
          (b'g' ∷ []) network request-IsForwardable (refl, refl, refl, refl) network-Reaches
        ∙ ap (λ t. returns (sent request.from_string 9999 t)) to_bob)
      refl (omega arith) (length-zeroed 1024) refl refl has_ticket

pub message_taken :
    (listening_port ≡ listening_port)
    × (m : simple_mikey.Mikey) × (take_message simple_mikey world2 ≡ returns (joined true m))
message_taken =
    take_message-authenticated simple_mikey simple_mikey-IsMikey simple_mikey-DeliversKey request
      line bob (b'g' ∷ []) network request.from_string 9999 answer world2 4 request-IsForwardable
      (refl, refl, refl, refl) network-Reaches
      (forwarded-Reaches simple_mikey simple_mikey-IsMikey simple_mikey-DeliversKey request line bob
          (b'g' ∷ []) network request-IsForwardable (refl, refl, refl, refl) network-Reaches
        ∙ ap (λ t. returns (sent request.from_string 9999 t)) to_bob)
      refl (omega arith) (length-zeroed 1024) refl refl has_ticket

take_message_outside_example :
    take_message simple_mikey (record world2 { arrived = none }) ≡ faults out_of_bounds
take_message_outside_example =
    take_message_outside simple_mikey (record world2 { arrived = none }) (length-zeroed 1024)
      (inl refl)
