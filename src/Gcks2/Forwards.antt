-- ===== src/Gcks2/Forwards.antt =====
-- From the KDC of krb5.patch to the GCKS of kmtools/gcks2.cxx: the session key and the
-- address of a client reach the server, and its message goes to that client under that key.
use kerberized_multimedia_in.Base.{
  ◌∙◌, ap, leb, ℕ, ◌+◌, ◌^◌, ◌≤◌, ◌<◌, ◌≡◌, refl, true, false, Option, none, some, [], Bytes,
  length, arith, ◌-◌, take_all,
}
use kerberized_multimedia_in.Base.Ints.{ℤ, pos}
use kerberized_multimedia_in.CLib.{Outcome, returns, faults, out_of_bounds, ◌>>=◌, zeroed, decimal}
use kerberized_multimedia_in.CLib.BufferLaws.{length-zeroed}
use kerberized_multimedia_in.CLib.StrLaws.{
  NoNul, c_str-terminated, c_str-strncpy_short, c_str-strncpy_long, until_nul-NoNul,
}
use kerberized_multimedia_in.ConnInfo.{ClientConnInfo}
use kerberized_multimedia_in.ConnInfo.Tokens.{terminated}
use kerberized_multimedia_in.ConnInfo.RoundTrip.{
  IsField, filled_in, parse_conn_info-format_conn_info,
}
use kerberized_multimedia_in.Mikey.{MikeyLib, IsMikey, DeliversKey, new_config, initiator_message}
use kerberized_multimedia_in.Gcks1.{bufsiz}
use kerberized_multimedia_in.Gcks2.{
  kdc_uri, Network, Sending, not_sent, connecting, sent, connected, through_buffer,
  process_mikey_message, send_mikey_message, serve_kdc,
}
use kerberized_multimedia_in.Mikey.Wrapper.{bytes_at}
use kerberized_multimedia_in.Kdc.{GcksRequest, GcksLine, do_gcks_req}
use kerberized_multimedia_in.Kdc.Message.{Connects, kdc_config, do_gcks_req_lem}

-- A string with room for its NUL comes out of the buffer as it is.
pub through_buffer_short :
    (n : ℕ) (s : Bytes)
    → NoNul s
    → length s < n
    → through_buffer n (some (terminated s)) ≡ returns s
unfolding through_buffer
through_buffer_short n s clean short =
    let (b, copied, string) =
      c_str-strncpy_short (zeroed n) s n (omega (arith, length-zeroed n)) short clean in
    rw (c_str-terminated s [] clean, copied, string)

-- A string as long as the buffer has no end there.
through_buffer_long :
    (n : ℕ) (s : Bytes)
    → NoNul s
    → n ≤ length s
    → through_buffer n (some (terminated s)) ≡ faults out_of_bounds
unfolding through_buffer
through_buffer_long n s clean long =
    let (b, copied, string) =
      c_str-strncpy_long (zeroed n) s n (omega (arith, length-zeroed n)) long clean in
    rw (c_str-terminated s [] clean, copied, string)

abbrev no_client : ClientConnInfo
no_client = record {
  client_name = none;
  client_addr = none;
  group_name = none;
  client_port = pos 0;
}

-- The network lets the server through to the client.
abbrev pub Reaches : Network → Type 0
Reaches net = (net.socket ≡ true) × (net.host_known ≡ true) × (connected net.connects ≡ true)

-- What the KDC can hand on whole: both names are there, no field is empty or holds a bar, the name and
-- the address hold no NUL, the port fits an `int`, `connInfo` has room for the text, the address has less than 30 bytes, and the
-- KDC's message is below 8192 bytes.
pub record IsForwardable (lib : MikeyLib) (r : GcksRequest) (cname sname : Bytes) : Type 0 where
  pub has_cname : r.cname ≡ some cname
  pub has_sname : r.sname ≡ some sname
  pub cname_text : NoNul cname
  pub cname_field : IsField cname
  pub from_text : NoNul r.from_string
  pub from_field : IsField r.from_string
  pub sname_field : IsField sname
  pub port_int : r.from_port < 2 ^ 31
  pub conn_info_room :
      length cname + length r.from_string + length (decimal r.from_port) + length sname + 4 < 1024
  pub from_room : length r.from_string < 30
  pub message_room :
      length (initiator_message lib (kdc_config r cname sname) r.ssrc kdc_uri) < bufsiz

bytes_at_all : (s : Bytes) → bytes_at s (length s) ≡ returns s
bytes_at_all s =
    let fits : leb (length s) (length s) ≡ true = ground arith in
    rw fits (ap returns (take_all (length s) s (omega arith)))

module _ (lib : MikeyLib) where
  -- The configuration of the server for a client with a session key.
  abbrev pub to_client : Bytes → ℕ → Bytes → Bytes
  to_client session_key ssrc cname =
      initiator_message lib (record new_config { psk_string = session_key }) ssrc cname

  -- What the KDC sends, and the server takes from it.
  process_mikey_message-kdc :
      IsMikey lib
      → DeliversKey lib
      → (r : GcksRequest) (cname sname : Bytes) → IsField cname
      → IsField r.from_string
      → IsField sname
      → r.from_port < 2 ^ 31
      → length cname + length r.from_string + length (decimal r.from_port) + length sname + 4 < 1024
      → process_mikey_message lib
          (initiator_message lib (kdc_config r cname sname) r.ssrc kdc_uri)
          (some r.gcks_key)
          no_client
        ≡ returns (record {
          authenticated = true;
          session_key = r.session_key;
          conn_info = filled_in cname r.from_string r.from_port sname no_client;
        })
  unfolding process_mikey_message
  process_mikey_message-kdc mikey key r cname sname c f s p room =
      let sender = kdc_config r cname sname in
      let receiver = record new_config { psk_string = r.gcks_key } in
      rw (
        mikey.accepts sender receiver r.ssrc kdc_uri refl,
        key.delivers_conn_info sender receiver r.ssrc kdc_uri refl,
        key.delivers_tgk sender receiver r.ssrc kdc_uri r.session_key refl refl,
        key.delivers_tgk_length sender receiver r.ssrc kdc_uri r.session_key refl refl,
        bytes_at_all r.session_key,
        parse_conn_info-format_conn_info cname r.from_string r.from_port sname no_client c f s p
            room,
      )

  send_mikey_message-Reaches :
      IsMikey lib
      → (cname addr : Bytes) (port : ℤ) (session_key : Bytes) (net : Network) → NoNul cname
      → length cname < 2048
      → NoNul addr
      → length addr < 30
      → Reaches net
      → send_mikey_message lib
          (some (terminated cname))
          (some (terminated addr))
          port
          session_key
          net
        ≡ returns (sent addr 9999 (to_client session_key net.ssrc cname))
  unfolding send_mikey_message
  send_mikey_message-Reaches mikey cname addr port session_key net nc lc na la (s, h, c) =
      let text =
        until_nul-NoNul _
          (mikey.message_text (record new_config { psk_string = session_key }) net.ssrc cname) in
      rw (through_buffer_short 2048 cname nc lc, through_buffer_short 30 addr na la, s, h, c, text)

  -- A client that never accepts the connection keeps the server waiting.
  pub send_mikey_message_blocked :
      (cname addr : Bytes) (port : ℤ) (session_key : Bytes) (net : Network)
      → NoNul cname
      → length cname < 2048
      → NoNul addr
      → length addr < 30
      → net.socket ≡ true
      → net.host_known ≡ true
      → connected net.connects ≡ false
      → send_mikey_message lib
          (some (terminated cname))
          (some (terminated addr))
          port
          session_key
          net
        ≡ returns connecting
  unfolding send_mikey_message
  send_mikey_message_blocked cname addr port session_key net nc lc na la s h c =
      rw (through_buffer_short 2048 cname nc lc, through_buffer_short 30 addr na la, s, h, c)

  -- A round for the KDC's message is the sending to its client.
  pub serve_kdc-kdc :
      IsMikey lib
      → DeliversKey lib
      → (r : GcksRequest) (cname sname : Bytes) (net : Network) → IsForwardable lib r cname sname
      → serve_kdc lib
          (some r.gcks_key)
          (some (initiator_message lib (kdc_config r cname sname) r.ssrc kdc_uri))
          net
        ≡ send_mikey_message lib
            (some (terminated cname))
            (some (terminated r.from_string))
            (pos r.from_port)
            r.session_key
            net
  unfolding serve_kdc
  serve_kdc-kdc mikey key r cname sname net ok = rw (
    take_all (bufsiz - 1) (initiator_message lib (kdc_config r cname sname) r.ssrc kdc_uri)
        (omega (arith, ok.message_room)),
    until_nul-NoNul _ (mikey.message_text (kdc_config r cname sname) r.ssrc kdc_uri),
    process_mikey_message-kdc mikey key r cname sname ok.cname_field ok.from_field ok.sname_field
        ok.port_int ok.conn_info_room,
  )

  -- A round for the KDC's message, with a client that is there.
  pub serve_kdc-Reaches :
      IsMikey lib
      → DeliversKey lib
      → (r : GcksRequest) (cname sname : Bytes) (net : Network) → IsForwardable lib r cname sname
      → Reaches net
      → serve_kdc lib
          (some r.gcks_key)
          (some (initiator_message lib (kdc_config r cname sname) r.ssrc kdc_uri))
          net
        ≡ returns (sent r.from_string 9999 (to_client r.session_key net.ssrc cname))
  serve_kdc-Reaches mikey key r cname sname net ok reach =
      serve_kdc-kdc mikey key r cname sname net ok
      ∙ send_mikey_message-Reaches mikey cname r.from_string (pos r.from_port) r.session_key net
          ok.cname_text (omega (arith, ok.conn_info_room)) ok.from_text ok.from_room reach

  -- A round of a server with a key for what the KDC sends: nothing, if that returns -1.
  abbrev pub handed : Bytes → Network → Option Bytes → Outcome Sending
  handed gcks_key net none = returns not_sent
  handed gcks_key net (some message) = serve_kdc lib (some gcks_key) (some message) net

  abbrev pub forwarded : GcksRequest → GcksLine → Bytes → Network → Outcome Sending
  forwarded r line gcks_key net = do_gcks_req lib r line >>= handed gcks_key net

  -- The KDC's message for a client makes the server send that client, at the address that the KDC
  -- saw and always at port 9999, a message under the session key of its ticket, made for the name in
  -- the ticket: if libmikey keeps its promises, both names are there, no field is empty or holds a bar,
  -- the name and the address hold no NUL, the port fits an `int`, `connInfo` has room for the text and
  -- the address has less than 30 bytes, the KDC's message is below 8192 bytes, both hold the key of the
  -- server, and the calls of both programs succeed.
  pub forwarded-Reaches :
      IsMikey lib
      → DeliversKey lib
      → (r : GcksRequest) (line : GcksLine) (cname sname : Bytes) (net : Network)
      → IsForwardable lib r cname sname
      → Connects line
      → Reaches net
      → forwarded r line r.gcks_key net
        ≡ returns (sent r.from_string 9999 (to_client r.session_key net.ssrc cname))
  forwarded-Reaches mikey key r line cname sname net ok up reach = rw (
    do_gcks_req_lem lib mikey key r line cname sname ok.has_cname ok.has_sname ok.message_room up,
    serve_kdc-Reaches mikey key r cname sname net ok reach,
  )

  -- An address of 30 bytes or more, which an IPv6 address can have, makes the server read behind
  -- its buffer.
  pub send_mikey_message_long :
      (cname addr : Bytes) (port : ℤ) (session_key : Bytes) (net : Network)
      → NoNul cname
      → length cname < 2048
      → NoNul addr
      → 30 ≤ length addr
      → send_mikey_message lib
          (some (terminated cname))
          (some (terminated addr))
          port
          session_key
          net
        ≡ faults out_of_bounds
  unfolding send_mikey_message
  send_mikey_message_long cname addr port session_key net nc lc na la =
      rw (through_buffer_short 2048 cname nc lc, through_buffer_long 30 addr na la)
