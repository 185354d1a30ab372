-- ===== src/Gcks2.antt =====
-- kmtools/gcks2.cxx: the group key server of model 2. The KDC sends it a MIKEY message with a
-- client's session key and address, and it sends that client a MIKEY message under this key.
pub mod Setup
pub mod Runs
pub mod Verdict
pub mod Forwards
use kerberized_multimedia_in.Base.{
  ℕ, ◌-◌, Bool, true, false, Option, none, some, List, [], ◌∷◌, Bytes, length, take, ◌==◌,
  if◌then◌else◌,
}
use kerberized_multimedia_in.Base.Ints.{ℤ, pos}
use kerberized_multimedia_in.CLib.{
  Outcome, returns, exits, faults, out_of_bounds, uninitialised, ◌>>=◌, ◌>>◌, deref, in_bounds,
  exit_if, c_str, strncpy, zeroed, until_nul,
}
use kerberized_multimedia_in.ConnInfo.{ClientConnInfo, parse_conn_info}
use kerberized_multimedia_in.Gcks1.{bufsiz}
use kerberized_multimedia_in.Mikey.{MikeyLib, MikeyTestConfig, new_config, initiator_message}
use kerberized_multimedia_in.Mikey.Wrapper.{bytes_at}

-- `obtain_service_key`, for the return values of `krb5_sname_to_principal` and of
-- `krb5_kt_read_service_key`, and the key that the latter finds: the return value and what
-- `*gcks_key` holds then (it is set to the null pointer by `main`).
unfoldable pub obtain_service_key : ℕ → ℕ → Bytes → ℕ × Option Bytes
obtain_service_key sname_retval read_retval key =
    if sname_retval == 0
    then (if read_retval == 0 then (0, some key) else (read_retval, none))
    else (sname_retval, none)

-- "KDC"
abbrev pub kdc_uri : Bytes
kdc_uri = b'K' ∷ b'D' ∷ b'C' ∷ []

-- What `process_mikey_message` gives back, and what `responderAuthenticate` said, which it prints.
pub record Processed : Type 0 where
  pub authenticated : Bool
  pub session_key : Bytes
  pub conn_info : ClientConnInfo

-- What the calls of `send_mikey_message` meet: the number that `rand` gives, whether `socket`
-- succeeds, whether `gethostbyname` finds the host, and the results of `connect`, one by one.
pub record Network : Type 0 where
  pub ssrc : ℕ
  pub socket : Bool
  pub host_known : Bool
  pub connects : List Bool

-- How `send_mikey_message` ends.
pub data Sending : Type 0 where
  -- no socket: it returns
  not_sent : Sending
  -- none of the tries to connect so far got through: it goes on
  connecting : Sending
  -- the host that was looked up, the port, and the message handed to `send`
  sent : Bytes → ℕ → Bytes → Sending

-- `while (connect(...) == -1) usleep(500);`, over the tries that come: whether one gets through.
unfoldable pub connected : List Bool → Bool
connected [] = false
connected (true ∷ results) = true
connected (false ∷ results) = connected results

-- `char buf[n]; strncpy(buf, src, n);`, and the string that is read in `buf`.
unfoldable pub through_buffer : ℕ → Option Bytes → Outcome Bytes
through_buffer n src = do
  memory ← deref src
  text ← in_bounds (c_str memory)
  buf ← in_bounds (strncpy (zeroed n) text n)
  in_bounds (c_str buf)

abbrev pub host_entry : Bool → Outcome (Unit {0})
host_entry true = returns tt
host_entry false = deref none

module _ (lib : MikeyLib) where
  open lib use {
    construct, responder_authenticate, set_mikey_offer, get_tgk, get_tgk_length, get_conn_info,
  }

  -- The argument `peerUri` is overwritten by "KDC". A message that is not authenticated is reported,
  -- and used like any other. A null `connInfo` would send `strtok` to its pointer of the message
  -- before, in memory freed since: a fault.
  unfoldable pub process_mikey_message : Bytes → Option Bytes → ClientConnInfo → Outcome Processed
  process_mikey_message key_mgmt_message gcks_key conn_info = do
    key ← deref gcks_key
    let config = record new_config { psk_string = key }
    let verdict = responder_authenticate key_mgmt_message kdc_uri (construct config)
    let mikey = set_mikey_offer verdict.1
    session_key ← bytes_at (get_tgk mikey) (get_tgk_length mikey)
    text ← deref (get_conn_info mikey)
    parsed ← parse_conn_info text conn_info
    returns (record { authenticated = verdict.0; session_key = session_key; conn_info = parsed })

  -- The client's port is an argument that the body does not use, and `tmpBuf` is filled and not read.
  -- The source leaves the two other buffers
  -- uninitialised; `strncpy` writes all their bytes, so zeros stand for what they held.
  unfoldable pub send_mikey_message :
      Option Bytes → Option Bytes → ℤ → Bytes → Network → Outcome Sending
  unfolding through_buffer connected
  send_mikey_message client_name c_addr client_port session_key net = do
    peer_uri ← through_buffer 2048 client_name
    client_addr ← through_buffer 30 c_addr
    let config = record new_config { psk_string = session_key }
    let message = initiator_message lib config net.ssrc peer_uri
    if net.socket
        then host_entry net.host_known
          >> returns (
              if connected net.connects
              then sent client_addr 9999 (until_nul message)
              else connecting)
        else returns not_sent

  -- One round of `main`'s loop, for what stands on the connection when `recv` reads it (`none` where
  -- `accept` or `recv` gives -1, and then `recv_data[-1]` is written): at most `BUFSIZ` - 1 bytes are
  -- read, into a buffer of zeros.
  unfoldable pub serve_kdc : Option Bytes → Option Bytes → Network → Outcome Sending
  unfolding process_mikey_message send_mikey_message
  serve_kdc gcks_key received net = do
    recv_data ← in_bounds received
    let empty : ClientConnInfo = record {
      client_name = none;
      client_addr = none;
      group_name = none;
      client_port = pos 0;
    }
    done ← process_mikey_message (until_nul (take (bufsiz - 1) recv_data)) gcks_key empty
    send_mikey_message done.conn_info.client_name done.conn_info.client_addr
        done.conn_info.client_port done.session_key net
