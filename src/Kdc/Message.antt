-- ===== src/Kdc/Message.antt =====
-- What the KDC (krb5.patch) sends to the group key server.
use kerberized_multimedia_in.Base.{
  ℕ, ◌-◌, ◌<◌, ◌≡◌, some, true, Bytes, length, take_all, leb, arith,
}
use kerberized_multimedia_in.CLib.{zeroed, returns}
use kerberized_multimedia_in.CLib.BufferLaws.{c_str-closed, length-zeroed}
use kerberized_multimedia_in.CLib.StrLaws.{NoNul, until_nul-NoNul}
use kerberized_multimedia_in.ConnInfo.{format_conn_info}
use kerberized_multimedia_in.Mikey.{
  MikeyLib, MikeyTestConfig, psk, IsMikey, DeliversKey, new_config, initiator_message,
}
use kerberized_multimedia_in.Mikey.Wrapper.{
  call_config_set_psk, call_config_set_tgk, call_config_set_conn_info, call_mikey_construct,
  call_mikey_initiator_create,
}
use kerberized_multimedia_in.Gcks1.{bufsiz}
use kerberized_multimedia_in.Gcks2.{kdc_uri}
use kerberized_multimedia_in.Kdc.{GcksRequest, GcksLine, buffered, gcks_message, do_gcks_req}

-- The configuration that the request amounts to.
abbrev pub kdc_config : GcksRequest → Bytes → Bytes → MikeyTestConfig
kdc_config r cname sname = record new_config {
  psk_string = r.gcks_key;
  tgk_ptr = some r.session_key;
  tgk_length = length r.session_key;
  conn_info = some (format_conn_info cname r.from_string r.from_port sname);
}

set_psk_whole :
    (config : MikeyTestConfig) (key : Bytes)
    → call_config_set_psk config key (length key) ≡ returns (record config { psk_string = key })
unfolding call_config_set_psk
set_psk_whole config key =
    let fits : leb (length key) (length key) ≡ true = ground arith in
    rw (fits, take_all (length key) key (omega arith))

set_tgk_whole :
    (config : MikeyTestConfig) (key : Bytes)
    → call_config_set_tgk config key (length key)
      ≡ returns (record config { tgk_ptr = some key; tgk_length = length key })
unfolding call_config_set_tgk
set_tgk_whole config key =
    let fits : leb (length key) (length key) ≡ true = ground arith in
    rw (fits, take_all (length key) key (omega arith))

buffered_short :
    (tmp_buf s : Bytes)
    → length tmp_buf ≡ bufsiz
    → NoNul s
    → length s < bufsiz
    → buffered tmp_buf s ≡ returns s
unfolding buffered
buffered_short tmp_buf s len clean short =
    let (copied, closed, e, e', string) =
      c_str-closed tmp_buf s (bufsiz - 1) len (omega arith) clean in
    rw (e, e', string)

-- The line to the group key server is up.
abbrev pub Connects : GcksLine → Type 0
Connects line =
    (line.host_known ≡ true)
    × (line.socket ≡ true)
    × (line.setsockopt ≡ true)
    × (line.connects ≡ true)

module _ (lib : MikeyLib) where
  call_create :
      IsMikey lib
      → DeliversKey lib
      → (config : MikeyTestConfig) (ssrc : ℕ)
      → (call_mikey_initiator_create lib
          (lib.add_sender ssrc (call_mikey_construct lib config))
          psk
          kdc_uri).0
        ≡ initiator_message lib config ssrc kdc_uri
  unfolding call_mikey_construct call_mikey_initiator_create
  call_create mikey key config ssrc =
      rw (key.starts config ssrc kdc_uri)
        (until_nul-NoNul _ (mikey.message_text config ssrc kdc_uri))

  pub gcks_message_lem :
      IsMikey lib
      → DeliversKey lib
      → (r : GcksRequest) (cname sname : Bytes) → r.cname ≡ some cname
      → r.sname ≡ some sname
      → length (initiator_message lib (kdc_config r cname sname) r.ssrc kdc_uri) < bufsiz
      → gcks_message lib r
        ≡ returns (initiator_message lib (kdc_config r cname sname) r.ssrc kdc_uri)
  unfolding gcks_message call_config_set_conn_info
  gcks_message_lem mikey key r cname sname c s short =
      let config = kdc_config r cname sname in
      let text = initiator_message lib config r.ssrc kdc_uri in
      let info = format_conn_info cname r.from_string r.from_port sname in
      simp (c, s, set_psk_whole, set_tgk_whole)
        (rw (call_create mikey key config r.ssrc) (
          buffered_short (zeroed bufsiz) text (length-zeroed bufsiz)
            (mikey.message_text config r.ssrc kdc_uri) short))

  -- Where every call of the KDC succeeds, this message is sent.
  pub do_gcks_req_lem :
      IsMikey lib
      → DeliversKey lib
      → (r : GcksRequest) (line : GcksLine) (cname sname : Bytes) → r.cname ≡ some cname
      → r.sname ≡ some sname
      → length (initiator_message lib (kdc_config r cname sname) r.ssrc kdc_uri) < bufsiz
      → Connects line
      → do_gcks_req lib r line
        ≡ returns (some (initiator_message lib (kdc_config r cname sname) r.ssrc kdc_uri))
  unfolding do_gcks_req
  do_gcks_req_lem mikey key r line cname sname c s short (h, k, o, n) =
      rw (gcks_message_lem mikey key r cname sname c s short, k, h, o, n)
