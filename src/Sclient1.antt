-- ===== src/Sclient1.antt =====
-- kmtools/sclient.cxx: the client of model 1. It sends its group's name to the GCKS in a Kerberos
-- request, and takes the MIKEY message of the reply under the session key of its ticket.
pub mod CommandLine
pub mod Connect
pub mod Reply
pub mod Framing
pub mod Delivery
pub mod Requests
pub mod Runs
use kerberized_multimedia_in.Base.{
  ℕ, Bool, true, false, not, Option, none, some, List, [], ◌∷◌, Bytes, ◌==◌, if◌then◌else◌,
}
use kerberized_multimedia_in.CLib.{
  Outcome, returns, exits, faults, uninitialised, ◌>>=◌, ◌>>◌, exit_if, deref, in_bounds, c_str,
}
use kerberized_multimedia_in.Credentials.{Krb5Results, Pointer, obtain_credentials}
use kerberized_multimedia_in.Mikey.{MikeyLib, MikeyTestConfig, new_config}
use kerberized_multimedia_in.Base.Ints.{ℤ}
use kerberized_multimedia_in.Net.{Event}
use kerberized_multimedia_in.Timing.{Timespec, read_clock, log_time}
use CommandLine.{Arguments, parse_arguments, checksum_data, group_authdata}
use Connect.{Address, find_socket}
use Reply.{receive_reply}

-- How `krb5_sendauth` returns.
pub data SendAuth : Type 0 where
  -- KRB5_SENDAUTH_REJECTED
  rejected : SendAuth
  -- another error
  failed : SendAuth
  -- 0, with or without the reply of the server
  accepted : Bool → SendAuth

-- What the calls of `main` give, in its order. `session_key` is the key in the credentials, `malloc`
-- the memory that `malloc` gives, and `xmitlen` what that variable holds before it is read.
pub record World : Type 0 where
  pub clock_getres : Bool
  pub clock_prev : Bool
  pub init_context : ℕ
  pub start_ts : Option Timespec
  pub getaddrinfo : ℕ
  pub addresses : List Address
  pub sname_to_principal : ℕ
  pub cc_resolve : ℕ
  pub cc_get_principal : ℕ
  pub unparse_name : ℕ
  pub client_name : Bytes
  pub krb5 : Krb5Results
  pub session_key : Bytes
  pub sendauth : SendAuth
  pub received : List Event
  pub malloc : ℕ → Option Bytes
  pub xmitlen : Bytes
  pub end_ts : Option Timespec
  pub log_opens : Bool

-- What a run leaves behind when it ends with exit code 0.
pub data Session (M : Type 0) : Type 0 where
  -- the server refused the request; the client prints its error
  refused : Session M
  -- a MIKEY message came: what `responder_authenticate` says, and the state after `setMikeyOffer`,
  -- which the client reports as authenticated
  joined : Bool → M → Session M

abbrev nonzero : ℕ → Bool
nonzero retval = not (retval == 0)

-- `creds` is not initialised: it points somewhere only if `obtain_credentials` sets it.
abbrev pub creds_of : Option Pointer → Outcome Pointer
creds_of none = faults uninitialised
creds_of (some creds) = returns creds

-- Up to the socket: the command line, the context and the addresses.
unfoldable pub set_up : World → List Bytes → Outcome (Arguments × ℕ × Timespec)
unfolding parse_arguments find_socket
set_up w argv = do
  exit_if (not w.clock_getres) 0
  exit_if (not w.clock_prev) 0
  arguments ← parse_arguments argv
  exit_if (nonzero w.init_context) 1
  start_ts ← read_clock w.start_ts
  exit_if (nonzero w.getaddrinfo) 1
  exit_if (elim w.addresses [ [] ↦ true | ap ∷ aps ↦ false ]) 1
  exit_if (nonzero w.sname_to_principal) 1
  sock ← elim (find_socket w.addresses) [ none ↦ exits 1 | some sock ↦ returns sock ]
  returns (arguments, sock, start_ts)

-- From the socket to `krb5_sendauth`: the checksum, the caches, the ticket and the group's name,
-- as it stands in the authorization data.
unfoldable pub request : World → List Bytes → Arguments → Outcome Bytes
unfolding checksum_data group_authdata
request w argv arguments = do
  cksum ← checksum_data argv
  exit_if (nonzero w.cc_resolve) 1
  exit_if (nonzero w.cc_get_principal) 1
  exit_if (nonzero w.unparse_name) 1
  creds ← creds_of (obtain_credentials w.krb5 true true).out_creds
  group_authdata arguments.group_name

module _ (lib : MikeyLib) where
  open lib use {Mikey, construct, responder_authenticate, set_mikey_offer}

  -- The responder's part: its result is printed, and `setMikeyOffer` is called in any case.
  unfoldable pub respond : Bytes → Bytes → Bytes → Session Mikey
  respond session_key peer_uri message =
      let config = record new_config { psk_string = session_key } in
      let (authenticated, mikey) = responder_authenticate message peer_uri (construct config) in
      joined authenticated (set_mikey_offer mikey)

  -- The branch with a reply: it is received, and handed to libmikey as a string.
  unfoldable pub open_reply : World → Outcome (Session Mikey)
  unfolding respond
  open_reply w = do
    data_buffer ← receive_reply w.malloc w.xmitlen w.received
    message ← in_bounds (c_str data_buffer)
    returns (respond w.session_key w.client_name message)

  -- From the return of `krb5_sendauth` on.
  unfoldable pub after_sendauth : World → SendAuth → Outcome (Session Mikey)
  after_sendauth w failed = exits 1
  after_sendauth w rejected = returns refused
  after_sendauth w (accepted false) = exits 1
  after_sendauth w (accepted true) = open_reply w

  unfoldable pub take_reply : World → Outcome (Session Mikey)
  unfolding after_sendauth
  take_reply w = after_sendauth w w.sendauth

  -- `main`: the session, and the milliseconds that are logged.
  unfoldable pub run_client : World → List Bytes → Outcome (Session Mikey × Option ℤ)
  unfolding set_up request take_reply
  run_client w argv = do
    (arguments, sock, start_ts) ← set_up w argv
    authdata ← request w argv arguments
    session ← take_reply w
    end_ts ← read_clock w.end_ts
    logged ← log_time arguments.time_log w.log_opens start_ts end_ts
    returns (session, logged)
