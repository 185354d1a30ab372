-- ===== src/Sclient2.antt =====
-- kmtools/sclient2.cxx: the client of model 2. It asks the KDC for a ticket with the option
-- KDC_OPT_MIKEY, and waits for the MIKEY message of the GCKS on port 9999.
pub mod Receive
pub mod Delivery
pub mod Runs
use kerberized_multimedia_in.Base.{
  ℕ, Bool, true, false, not, ◌&&◌, Option, none, some, List, [], ◌∷◌, Bytes, length, ltb, ◌==◌,
}
use kerberized_multimedia_in.CLib.{
  Outcome, returns, exits, faults, uninitialised, ◌>>=◌, ◌>>◌, exit_if, in_bounds, c_str,
}
use kerberized_multimedia_in.Credentials.{Krb5Results, obtain_credentials}
use kerberized_multimedia_in.Base.Ints.{ℤ}
use kerberized_multimedia_in.Timing.{Timespec, read_clock, elapsed_ns, log_time}
use kerberized_multimedia_in.Mikey.{MikeyLib}
use kerberized_multimedia_in.Sclient1.{Session, creds_of, respond}
use kerberized_multimedia_in.Sclient1.CommandLine.{sample_service, arg, or_default}
use Receive.{receive}

-- What the calls of `main` give, in its order. `arrived` is what stands on the connection when `recv`
-- reads it (`none` where `accept` or `recv` fails), and `recv_data` what that array holds before.
pub record World : Type 0 where
  pub clock_getres : Bool
  pub start_ts : Option Timespec
  pub clock_prev : Bool
  pub init_context : ℕ
  pub sname_to_principal : ℕ
  pub cc_resolve : ℕ
  pub cc_get_principal : ℕ
  pub krb5 : Krb5Results
  pub unparse_name : ℕ
  pub client_name : Bytes
  pub socket : Bool
  pub setsockopt : Bool
  pub bind : Bool
  pub listen : Bool
  pub arrived : Option Bytes
  pub recv_data : Bytes
  pub session_key : Bytes
  pub end_ts : Option Timespec
  pub log_opens : Bool

-- What `main` takes from the command line; `hostname` is `argv[1]`.
pub record Arguments : Type 0 where
  pub hostname : Option Bytes
  pub service : Bytes
  pub cache_name : Option Bytes
  pub time_log : Option Bytes

-- `if (argc < 2 && argc > 5)`, and each `if (argc > i)`.
unfoldable pub parse_arguments : List Bytes → Outcome Arguments
parse_arguments argv = do
  exit_if (ltb (length argv) 2 && ltb 5 (length argv)) 1
  returns (record {
    hostname = arg argv 1;
    service = or_default (arg argv 2) sample_service;
    cache_name = arg argv 3;
    time_log = arg argv 4;
  })

-- The port that the client listens on, `htons(9999)`.
abbrev pub listening_port : ℕ
listening_port = 9999

abbrev nonzero : ℕ → Bool
nonzero retval = not (retval == 0)

-- Up to the ticket: the clock, the command line, the names and the cache. The return value of
-- `obtain_credentials` is not looked at.
unfoldable pub set_up : World → List Bytes → Outcome (Arguments × Timespec)
unfolding parse_arguments
set_up w argv = do
  exit_if (not w.clock_getres) 0
  start_ts ← read_clock w.start_ts
  exit_if (not w.clock_prev) 0
  arguments ← parse_arguments argv
  exit_if (nonzero w.init_context) 1
  exit_if (nonzero w.sname_to_principal) 1
  exit_if (nonzero w.cc_resolve) 1
  exit_if (nonzero w.cc_get_principal) 1
  returns (arguments, start_ts)

-- The listening socket.
unfoldable pub open_port : World → Outcome (Unit {0})
open_port w = do
  exit_if (nonzero w.unparse_name) 1
  exit_if (not w.socket) 1
  exit_if (not w.setsockopt) 1
  exit_if (not w.bind) 1
  exit_if (not w.listen) 1
  returns tt

module _ (lib : MikeyLib) where
  open lib use {Mikey}

  -- From `recv` to `setMikeyOffer`: the message as a string, and the responder's part under the key
  -- in `creds`, which is not initialised unless `obtain_credentials` has set it.
  unfoldable pub take_message : World → Outcome (Session Mikey)
  take_message w = do
    recv_data ← receive w.recv_data w.arrived
    message ← in_bounds (c_str recv_data)
    creds ← creds_of (obtain_credentials w.krb5 true true).out_creds
    returns (respond lib w.session_key w.client_name message)

  -- `main`: the session, and the milliseconds that are logged.
  unfoldable pub run_client : World → List Bytes → Outcome (Session Mikey × Option ℤ)
  unfolding set_up open_port take_message
  run_client w argv = do
    (arguments, start_ts) ← set_up w argv
    open_port w
    session ← take_message w
    end_ts ← read_clock w.end_ts
    time_elapsed ← elapsed_ns start_ts end_ts
    logged ← log_time arguments.time_log w.log_opens start_ts end_ts
    returns (session, logged)
