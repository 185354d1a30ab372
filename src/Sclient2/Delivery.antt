-- ===== src/Sclient2/Delivery.antt =====
-- Model 2 from end to end: the KDC of krb5.patch, the GCKS of kmtools/gcks2.cxx and the
-- client of kmtools/sclient2.cxx.
use kerberized_multimedia_in.Base.{
  ℕ, ◌≤◌, ◌<◌, ◌≡◌, sym, ap, ◌∙◌, true, none, some, [], Bytes, length, arith, ◌⊎◌,
}
use kerberized_multimedia_in.CLib.{Outcome, returns, faults, out_of_bounds}
use kerberized_multimedia_in.Credentials.{Pointer, obtain_credentials}
use kerberized_multimedia_in.Mikey.{MikeyLib, IsMikey, DeliversKey, new_config}
use kerberized_multimedia_in.Gcks2.{Network, Sending, sent}
use kerberized_multimedia_in.Gcks2.Forwards.{
  IsForwardable, Reaches, to_client, forwarded, forwarded-Reaches,
}
use kerberized_multimedia_in.Kdc.{GcksRequest, GcksLine}
use kerberized_multimedia_in.Kdc.Message.{Connects}
use kerberized_multimedia_in.Sclient1.{joined}
use kerberized_multimedia_in.Sclient1.Delivery.{respond-key}
use kerberized_multimedia_in.Sclient2.{World, listening_port, take_message}
use kerberized_multimedia_in.Sclient2.Receive.{receive_short, receive_outside}

abbrev port_of : Outcome Sending → ℕ
port_of (returns (sent addr port text)) = port
port_of _ = 0

abbrev text_of : Outcome Sending → Bytes
text_of (returns (sent addr port text)) = text
text_of _ = []

module _ (lib : MikeyLib) where
  -- A message under the key that a client has, and made for its name.
  pub take_message_lem :
      IsMikey lib
      → DeliversKey lib
      → (session_key cname : Bytes) (ssrc : ℕ) (w : World) (creds : Pointer)
      → w.arrived ≡ some (to_client lib session_key ssrc cname)
      → length (to_client lib session_key ssrc cname) < 1024
      → length w.recv_data ≡ 1024
      → w.session_key ≡ session_key
      → w.client_name ≡ cname
      → (obtain_credentials w.krb5 true true).out_creds ≡ some creds
      → (m : lib.Mikey) × (take_message lib w ≡ returns (joined true m))
  unfolding take_message
  take_message_lem mikey key session_key cname ssrc w creds came short len k n made =
      let config = record new_config { psk_string = session_key } in
      let (closed, got, string) =
        receive_short w.recv_data (to_client lib session_key ssrc cname) (omega arith) (omega arith)
          (mikey.message_text config ssrc cname) in
      let (m, joins) = respond-key lib mikey config ssrc cname w.session_key w.client_name k n in
      (m, rw (came, got, string, made, joins))

  -- What the GCKS sends for a request that the KDC can hand on (`IsForwardable`) goes to the port
  -- that the client listens on, and the client authenticates it: if libmikey keeps its promises, the
  -- calls of the KDC and of the GCKS succeed, the client has the session key and the name of its
  -- ticket, the message is below the 1024 bytes of its array, and `obtain_credentials` gave
  -- credentials.
  pub take_message-authenticated :
      IsMikey lib
      → DeliversKey lib
      → (r : GcksRequest) (line : GcksLine) (cname sname : Bytes) (net : Network)
      → (addr : Bytes) (port : ℕ) (text : Bytes) (w : World) (creds : Pointer)
      → IsForwardable lib r cname sname
      → Connects line
      → Reaches net
      → forwarded lib r line r.gcks_key net ≡ returns (sent addr port text)
      → w.arrived ≡ some text
      → length text < 1024
      → length w.recv_data ≡ 1024
      → w.session_key ≡ r.session_key
      → w.client_name ≡ cname
      → (obtain_credentials w.krb5 true true).out_creds ≡ some creds
      → (port ≡ listening_port) × (m : lib.Mikey) × (take_message lib w ≡ returns (joined true m))
  take_message-authenticated mikey key r line cname sname net addr port text w creds ok up reach
        goes came short len k n made =
      let done = sym goes ∙ forwarded-Reaches lib mikey key r line cname sname net ok up reach in
      let it = ap text_of done in
      let (m, joins) =
        take_message_lem mikey key r.session_key cname net.ssrc w creds (came ∙ ap some it)
          (rw (← it) short) len k n made in
      (ap port_of done, m, joins)

  -- A message of 1024 bytes or more, and a failing `accept` or `recv`, make the client write outside
  -- of `recv_data`.
  pub take_message_outside :
      (w : World)
      → length w.recv_data ≡ 1024
      → ((w.arrived ≡ none) ⊎ ((text : Bytes) × (w.arrived ≡ some text) × (1024 ≤ length text)))
      → take_message lib w ≡ faults out_of_bounds
  unfolding take_message
  take_message_outside w len outside = rw (receive_outside w.recv_data w.arrived len outside)
