-- ===== src/Kdc.antt =====
-- krb5.patch: `do_gcks_req`, by which the KDC hands a client's session key to the group key server of
-- model 2 (kmtools/gcks2.cxx), through kmtools/libmikey_wrapper.cxx.
pub mod Message
pub mod Tgs
pub mod Issues
use kerberized_multimedia_in.Base.{
  ℕ, ◌-◌, Bool, not, if◌then◌else◌, Option, none, some, Bytes, length,
}
use kerberized_multimedia_in.CLib.{
  Outcome, returns, faults, uninitialised, ◌>>=◌, ◌>>◌, exit_if, in_bounds, c_str, strncpy, store,
  zeroed,
}
use kerberized_multimedia_in.ConnInfo.{format_conn_info}
use kerberized_multimedia_in.Mikey.{MikeyLib, new_config, psk}
use kerberized_multimedia_in.Mikey.Wrapper.{
  call_config_construct, call_mikey_add_sender, call_config_set_psk, call_config_set_tgk,
  call_config_set_conn_info, call_mikey_construct, call_mikey_initiator_create,
}
use kerberized_multimedia_in.Gcks1.{bufsiz}
use kerberized_multimedia_in.Gcks2.{kdc_uri, host_entry}

-- The arguments of `do_gcks_req`, with the client's address as `inet_ntop` prints it, and the number
-- that `rand` gives.
pub record GcksRequest : Type 0 where
  pub cname : Option Bytes
  pub sname : Option Bytes
  pub from_string : Bytes
  pub from_port : ℕ
  pub gcks_key : Bytes
  pub session_key : Bytes
  pub ssrc : ℕ

-- `connInfo` is written only if both names are there.
abbrev pub conn_info_of : Option Bytes → Option Bytes → Bytes → ℕ → Outcome Bytes
conn_info_of (some cname) (some sname) from_string port =
    returns (format_conn_info cname from_string port sname)
conn_info_of none sname from_string port = faults uninitialised
conn_info_of (some cname) none from_string port = faults uninitialised

-- `memset`, `strncpy(tmpBuf, message, BUFSIZ)` and `tmpBuf[BUFSIZ-1] = '\0'`, and the string that
-- `send` takes from the buffer.
unfoldable pub buffered : Bytes → Bytes → Outcome Bytes
buffered tmp_buf message = do
  copied ← in_bounds (strncpy tmp_buf message bufsiz)
  closed ← in_bounds (store copied (bufsiz - 1) 0)
  in_bounds (c_str closed)

-- What the calls after that meet: whether `gethostbyname` finds KDC_GCKS_ADDR, and whether `socket`,
-- `setsockopt` and `connect` succeed.
pub record GcksLine : Type 0 where
  pub host_known : Bool
  pub socket : Bool
  pub setsockopt : Bool
  pub connects : Bool

module _ (lib : MikeyLib) where
  -- The bytes that are sent to the GCKS, once it is connected.
  unfoldable pub gcks_message : GcksRequest → Outcome Bytes
  unfolding buffered
  gcks_message r = do
    conn_info ← conn_info_of r.cname r.sname r.from_string r.from_port
    keyed ← call_config_set_psk call_config_construct r.gcks_key (length r.gcks_key)
    loaded ← call_config_set_tgk keyed r.session_key (length r.session_key)
    let mikey = call_mikey_construct lib (call_config_set_conn_info loaded conn_info)
    buffered (zeroed bufsiz)
        (call_mikey_initiator_create lib (call_mikey_add_sender lib mikey r.ssrc) psk kdc_uri).0

  -- `do_gcks_req`: the message that goes to KDC_GCKS_ADDR, or `none` where it returns -1. It returns no
  -- value after `send`, and its caller takes none.
  unfoldable pub do_gcks_req : GcksRequest → GcksLine → Outcome (Option Bytes)
  unfolding gcks_message
  do_gcks_req r line = do
    message ← gcks_message r
    if line.socket
        then (do
          host_entry line.host_known
          exit_if (not line.setsockopt) 1
          returns (if line.connects then some message else none))
        else returns none
