-- ===== src/Tests/Model1.antt =====
-- Whole runs of kmtools/gcks1.cxx and kmtools/sclient.cxx at concrete inputs.
use kerberized_multimedia_in.Base.{
  ◌≡◌, refl, true, none, some, List, [], ◌∷◌, Bytes, length, ◌+◌, arith,
}
use kerberized_multimedia_in.Base.Ints.{pos}
use kerberized_multimedia_in.CLib.{returns, exits, zeroed, atoi}
use kerberized_multimedia_in.CLib.BufferLaws.{length-zeroed}
use kerberized_multimedia_in.Gcks1.{bufsiz, answer_text}
use kerberized_multimedia_in.Gcks1.Answers.{sent_frames}
use kerberized_multimedia_in.Gcks1.Setup.{
  Settings, Start, port_option, keytab_option, short_port, to_short, take_options, port_at_end,
  run_server,
}
use kerberized_multimedia_in.Gcks1.Runs.{
  IsStarted, settings_of, run_server_no_port, run_server-served,
}
use kerberized_multimedia_in.Sclient1.{World, joined, run_client}
use kerberized_multimedia_in.Sclient1.Connect.{Address, find_socket}
use kerberized_multimedia_in.Sclient1.CommandLine.{
  sample_port, sample_service, Arguments, parse_arguments,
}
use kerberized_multimedia_in.Sclient1.Runs.{IsReady, run_client-take_reply}
use kerberized_multimedia_in.Timing.Exact.{reading}
use kerberized_multimedia_in.Tests.SimpleMikey.{simple_mikey, simple_mikey-IsMikey}
use kerberized_multimedia_in.Tests.Servers.{from_bob, from_bob-IsServed, answer}
use kerberized_multimedia_in.Tests.Wires.{no_ticket}
use kerberized_multimedia_in.Tests.Clients.{world1, has_ticket, served, answer_fits}

-- `gcks1 -S k 80`: one operand is no port.
abbrev no_port : Start
no_port = record {
  clock_getres = true;
  clock_prev = true;
  init_context = 0;
  options = keytab_option (b'k' ∷ []) 0 ∷ [];
  operands = (b'8' ∷ b'0' ∷ []) ∷ [];
  sname_to_principal = 0;
  socket = some 4;
  binds = true;
  peername = true;
}

-- `gcks1 -p 80`
abbrev with_port : Start
with_port = record no_port { options = port_option (b'8' ∷ b'0' ∷ []) ∷ []; operands = [] }

abbrev settings : Settings
settings = record { port = pos 0; service = sample_service; keytab = some (b'k' ∷ []) }

no_port-IsStarted : IsStarted no_port
no_port-IsStarted = record {
  clock_getres = refl;
  clock_prev = refl;
  init_context = refl;
  sname_to_principal = refl;
}

with_port-IsStarted : IsStarted with_port
with_port-IsStarted = record {
  clock_getres = refl;
  clock_prev = refl;
  init_context = refl;
  sname_to_principal = refl;
}

no_port-settings : settings_of no_port ≡ returns settings
unfolding take_options port_at_end
no_port-settings = refl

with_port-settings :
    settings_of with_port
    ≡ returns (record { port = pos 80; service = sample_service; keytab = none })
unfolding take_options port_at_end short_port to_short atoi
with_port-settings = refl

run_server_no_port_example :
    run_server simple_mikey no_port (from_bob ∷ []) (zeroed bufsiz) ≡ ([], exits 3)
run_server_no_port_example =
    run_server_no_port simple_mikey no_port settings (from_bob ∷ []) (zeroed bufsiz)
      no_port-IsStarted no_port-settings refl

run_server-served_example :
    (b : Bytes) × (run_server simple_mikey with_port (from_bob ∷ []) (zeroed bufsiz)
      ≡ (sent_frames simple_mikey (from_bob ∷ []), returns b))
    × (length b ≡ bufsiz)
run_server-served_example =
    run_server-served simple_mikey with_port
      (record { port = pos 80; service = sample_service; keytab = none }) 4 (from_bob ∷ [])
      (zeroed bufsiz) with_port-IsStarted with_port-settings refl refl refl (from_bob-IsServed, tt)
      (length-zeroed bufsiz)

abbrev addresses : List Address
addresses =
    record { socket = none; connects = true } ∷ record { socket = some 3; connects = true } ∷ []

-- `sclient h`, and `sclient h p s g`.
abbrev short_line : List Bytes
short_line = (b'c' ∷ []) ∷ (b'h' ∷ []) ∷ []

abbrev long_line : List Bytes
long_line = (b'c' ∷ []) ∷ (b'h' ∷ []) ∷ (b'p' ∷ []) ∷ (b's' ∷ []) ∷ (b'g' ∷ []) ∷ []

abbrev short_arguments : Arguments
short_arguments = record {
  hostname = some (b'h' ∷ []);
  port = sample_port;
  service = sample_service;
  group_name = b'g' ∷ b'r' ∷ b'o' ∷ b'u' ∷ b'p' ∷ b'1' ∷ [];
  cache_name = none;
  time_log = none;
}

abbrev long_arguments : Arguments
long_arguments = record short_arguments {
  port = b'p' ∷ [];
  service = b's' ∷ [];
  group_name = b'g' ∷ [];
}

world1-IsReady : IsReady world1 (reading 1 5) 3 4
unfolding find_socket
world1-IsReady = record {
  clock_getres = refl;
  clock_prev = refl;
  clock_start = refl;
  init_context = refl;
  getaddrinfo = refl;
  sname_to_principal = refl;
  socket = refl;
  cc_resolve = refl;
  cc_get_principal = refl;
  unparse_name = refl;
  ticket = has_ticket;
}

abbrev without_ticket : World
without_ticket = record world1 { krb5 = no_ticket }

-- `sclient h p s g c l`, with a log.
abbrev logged_line : List Bytes
logged_line =
    (b'c' ∷ [])
    ∷ (b'h' ∷ [])
    ∷ (b'p' ∷ [])
    ∷ (b's' ∷ [])
    ∷ (b'g' ∷ [])
    ∷ (b'c' ∷ [])
    ∷ (b'l' ∷ [])
    ∷ []

abbrev logged_arguments : Arguments
logged_arguments = record long_arguments {
  cache_name = some (b'c' ∷ []);
  time_log = some (b'l' ∷ []);
}

run_client-take_reply_example :
    (m : simple_mikey.Mikey) × (run_client simple_mikey world1 logged_line
      ≡ returns (joined true m, some (pos 2005)))
unfolding parse_arguments
run_client-take_reply_example =
    run_client-take_reply simple_mikey simple_mikey-IsMikey from_bob (zeroed bufsiz)
      (0 ∷ 12 ∷ answer) served.0 world1 [] (zeroed (length (answer_text simple_mikey from_bob) + 1))
      logged_line logged_arguments 1 5 3 5000009 3 4 (b's' ∷ []) (b'l' ∷ []) from_bob-IsServed
      (length-zeroed bufsiz) refl answer_fits served.1 refl refl refl refl refl
      (length-zeroed (length (answer_text simple_mikey from_bob) + 1)) world1-IsReady refl refl
      (ground arith) refl refl refl (omega arith) (omega arith) (omega arith) (omega arith)
