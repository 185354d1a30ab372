-- ===== src/Tests/Model2.antt =====
-- Whole runs of kmtools/gcks2.cxx and kmtools/sclient2.cxx at concrete inputs.
use kerberized_multimedia_in.Base.{
  ◌≡◌, refl, true, none, some, List, [], ◌∷◌, Bytes, arith, inl, inr, ap, sym,
}
use kerberized_multimedia_in.Base.Ints.{pos}
use kerberized_multimedia_in.CLib.{returns, faults, null_pointer, overflow, zeroed, c_str}
use kerberized_multimedia_in.CLib.BufferLaws.{length-zeroed}
use kerberized_multimedia_in.Gcks2.Setup.{Start, Round, ended, run_server}
use kerberized_multimedia_in.Gcks2.Runs.{IsStarted, run_server_no_key}
use kerberized_multimedia_in.Sclient1.{joined}
use kerberized_multimedia_in.Sclient2.{
  World, Arguments, set_up, parse_arguments, open_port, take_message, run_client,
}
use kerberized_multimedia_in.Sclient2.Receive.{receive, receive_short}
use kerberized_multimedia_in.Sclient2.Runs.{IsReady, run_client_slow, run_client-take_message}
use kerberized_multimedia_in.Timing.Exact.{reading}
use kerberized_multimedia_in.Tests.SimpleMikey.{
  simple_mikey, simple_mikey-IsMikey, simple_mikey-DeliversKey,
}
use kerberized_multimedia_in.Tests.Servers.{bob, group_key, answer, network}
use kerberized_multimedia_in.Tests.Clients.{world2, message_taken, to_bob, has_ticket}

-- `gcks2 g`, where the keytab has no key for the service.
abbrev no_key : Start
no_key = record {
  clock_getres = true;
  clock_prev = true;
  init_context = 0;
  keytab = none;
  socket = true;
  reuses_address = true;
  lingers = true;
  binds = true;
  listens = true;
  sname_to_principal = 0;
  read_service_key = 2;
  service_key = [];
}

abbrev round : Round
round = record { clock_reads = true; received = some answer; network = network }

no_key-IsStarted : IsStarted no_key
no_key-IsStarted = record {
  clock_getres = refl;
  clock_prev = refl;
  init_context = refl;
  keytab = inl refl;
  socket = refl;
  reuses_address = refl;
  lingers = refl;
  binds = refl;
  listens = refl;
}

run_server_no_key_example :
    run_server simple_mikey no_key (round ∷ []) ≡ ([], ended (faults null_pointer))
run_server_no_key_example =
    run_server_no_key simple_mikey no_key answer round [] no_key-IsStarted
      (inr (λ e. absurd (omega arith))) refl refl

abbrev arguments : Arguments
arguments = record {
  hostname = some (b'h' ∷ []);
  service = b's' ∷ [];
  cache_name = none;
  time_log = none;
}

abbrev line : List Bytes
line = (b'c' ∷ []) ∷ (b'h' ∷ []) ∷ (b's' ∷ []) ∷ []

abbrev slow_world : World
slow_world = record world2 { end_ts = some (reading 4 0) }

run_client_slow_example : run_client simple_mikey slow_world line ≡ faults overflow
unfolding set_up parse_arguments open_port take_message
run_client_slow_example =
    run_client_slow simple_mikey slow_world line arguments (joined true message_taken.1) 1 5 4 0
      refl refl message_taken.2 refl (omega arith) (omega arith)

got :
    (closed : Bytes) × (receive (zeroed 1024) (some answer) ≡ returns closed)
    × (c_str closed ≡ some answer)
got =
    receive_short (zeroed 1024) answer (omega (arith, length-zeroed 1024)) (omega arith)
      (ground arith)

world2-IsReady : IsReady world2 (reading 1 5)
world2-IsReady = record {
  clock_getres = refl;
  clock_start = refl;
  clock_prev = refl;
  init_context = refl;
  sname_to_principal = refl;
  cc_resolve = refl;
  cc_get_principal = refl;
  unparse_name = refl;
  socket = refl;
  setsockopt = refl;
  bind = refl;
  listen = refl;
}

-- A client with a log.
abbrev logged_line : List Bytes
logged_line = [] ∷ [] ∷ [] ∷ [] ∷ (b'l' ∷ []) ∷ []

run_client-take_message_example :
    (m : simple_mikey.Mikey) × (run_client simple_mikey world2 logged_line
      ≡ returns (joined true m, some (pos 2005)))
run_client-take_message_example =
    run_client-take_message simple_mikey simple_mikey-IsMikey simple_mikey-DeliversKey group_key bob
      2 world2 4 logged_line 1 5 3 5000009 (b'l' ∷ []) (ap some (sym to_bob))
      (rw to_bob (omega arith)) (length-zeroed 1024) refl refl has_ticket world2-IsReady refl refl
      refl (omega arith) (omega arith) (omega arith) (omega arith)
