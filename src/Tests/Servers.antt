-- ===== src/Tests/Servers.antt =====
-- Runs of the two servers of kmtools.
use kerberized_multimedia_in.Base.{◌≡◌, refl, true, false, some, [], ◌∷◌, Bytes, length, arith}
use kerberized_multimedia_in.CLib.{returns, exits, zeroed, until_nul, decimal, htons}
use kerberized_multimedia_in.CLib.BufferLaws.{length-zeroed}
use kerberized_multimedia_in.Gcks1.{Connection, bufsiz, frame, answer_text, serve_all}
use kerberized_multimedia_in.Gcks1.Answers.{
  IsServed, sent_frames, serve_all-served, serve_all-refused,
}
use kerberized_multimedia_in.Mikey.{initiator_message, new_config}
use kerberized_multimedia_in.Gcks2.{Network, connected, serve_kdc}
use kerberized_multimedia_in.Gcks2.Verdict.{with_verdicts, serve_kdc-with_verdicts}
use kerberized_multimedia_in.Gcks2.Forwards.{IsForwardable, Reaches}
use kerberized_multimedia_in.Kdc.{GcksRequest, GcksLine}
use kerberized_multimedia_in.ConnInfo.{format_conn_info}
use kerberized_multimedia_in.Tests.SimpleMikey.{field_of, shifted, simple_mikey}

abbrev pub bob : Bytes
bob = b'b' ∷ b'o' ∷ b'b' ∷ []

abbrev pub group_key : Bytes
group_key = 9 ∷ 8 ∷ 7 ∷ []

abbrev pub from_bob : Connection
from_bob = record {
  listens = true;
  accepted = true;
  clock_reads = true;
  recvauth = 0;
  session_key = group_key;
  group_name = b'g' ∷ [];
  unparse_name = 0;
  cname = bob;
  ssrc = 5;
  length_written = true;
  text_written = true;
}

abbrev unknown : Connection
unknown = record from_bob { recvauth = 1 }

pub from_bob-IsServed : IsServed simple_mikey from_bob
from_bob-IsServed = record {
  listens = refl;
  accepted = refl;
  clock_reads = refl;
  recvauth = refl;
  length_written = refl;
  text_written = refl;
}

serve_all-served_example :
    (b : Bytes) × (serve_all simple_mikey (from_bob ∷ from_bob ∷ []) (zeroed bufsiz)
      ≡ (sent_frames simple_mikey (from_bob ∷ from_bob ∷ []), returns b))
    × (length b ≡ bufsiz)
serve_all-served_example =
    serve_all-served simple_mikey (from_bob ∷ from_bob ∷ []) (zeroed bufsiz)
      (from_bob-IsServed, (from_bob-IsServed, tt)) (length-zeroed bufsiz)

serve_all-refused_example :
    serve_all simple_mikey (from_bob ∷ unknown ∷ from_bob ∷ []) (zeroed bufsiz)
    ≡ (sent_frames simple_mikey (from_bob ∷ []), exits 1)
serve_all-refused_example =
    serve_all-refused simple_mikey (from_bob ∷ []) unknown (from_bob ∷ []) (zeroed bufsiz)
      (from_bob-IsServed, tt) refl refl refl (λ e. absurd (omega arith)) (length-zeroed bufsiz)

-- The key, the name and the empty offer of the simple library's message for Bob.
abbrev pub answer : Bytes
answer = 2 ∷ 11 ∷ 10 ∷ 9 ∷ 1 ∷ 2 ∷ 100 ∷ 113 ∷ 100 ∷ 1 ∷ 1 ∷ 1 ∷ []

pub answer_text-from_bob : answer_text simple_mikey from_bob ≡ answer
unfolding answer_text simple_mikey initiator_message until_nul new_config field_of shifted
answer_text-from_bob = refl

pub frame-answer : frame answer ≡ 0 ∷ 12 ∷ answer
unfolding frame htons
frame-answer = refl

-- A client at 10.0.0.1, port 88.
abbrev address : Bytes
address = b'1' ∷ b'0' ∷ b'.' ∷ b'0' ∷ b'.' ∷ b'0' ∷ b'.' ∷ b'1' ∷ []

abbrev pub request : GcksRequest
request = record {
  cname = some bob;
  sname = some (b'g' ∷ []);
  from_string = address;
  from_port = 88;
  gcks_key = 4 ∷ 5 ∷ [];
  session_key = group_key;
  ssrc = 1;
}

abbrev pub line : GcksLine
line = record { host_known = true; socket = true; setsockopt = true; connects = true }

abbrev pub network : Network
network = record { ssrc = 2; socket = true; host_known = true; connects = false ∷ true ∷ [] }

pub network-Reaches : Reaches network
unfolding connected
network-Reaches = (refl, refl, refl)

pub request-IsForwardable : IsForwardable simple_mikey request bob (b'g' ∷ [])
unfolding decimal initiator_message simple_mikey new_config field_of shifted format_conn_info
request-IsForwardable = record {
  has_cname = refl;
  has_sname = refl;
  cname_text = ground arith;
  cname_field = ground arith;
  from_text = ground arith;
  from_field = ground arith;
  sname_field = ground arith;
  port_int = omega arith;
  conn_info_room = omega arith;
  from_room = omega arith;
  message_room = omega arith;
}

serve_kdc-with_verdicts_example :
    serve_kdc
      (with_verdicts simple_mikey (λ message. false))
      (some (4 ∷ 5 ∷ []))
      (some answer)
      network
    ≡ serve_kdc simple_mikey (some (4 ∷ 5 ∷ [])) (some answer) network
serve_kdc-with_verdicts_example =
    serve_kdc-with_verdicts simple_mikey (λ message. false) (some (4 ∷ 5 ∷ [])) (some answer)
      network

-- fe80:1234:5678:9abc:def0:1234:5, an address of 30 bytes.
abbrev long_address : Bytes
long_address =
    b'f' ∷ b'e' ∷ b'8' ∷ b'0' ∷ b':' ∷ b'1' ∷ b'2' ∷ b'3' ∷ b'4' ∷ b':' ∷ b'5' ∷ b'6' ∷ b'7' ∷ b'8'
    ∷ b':' ∷ b'9' ∷ b'a' ∷ b'b' ∷ b'c' ∷ b':' ∷ b'd' ∷ b'e' ∷ b'f' ∷ b'0' ∷ b':' ∷ b'1' ∷ b'2'
    ∷ b'3' ∷ b'4' ∷ b':' ∷ b'5' ∷ []
