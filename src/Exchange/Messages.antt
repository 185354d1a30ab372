-- ===== src/Exchange/Messages.antt =====
-- Model 2 as a system: what the KDC and the GCKS send, whatever the network does.
use kerberized_multimedia_in.Base.{
  ℕ, ◌≡◌, sym, ◌∙◌, Bool, true, false, not, Option, none, some, Bytes, arith, if◌then◌else◌,
}
use kerberized_multimedia_in.CLib.{Outcome, returns, ◌>>◌, exit_if}
use kerberized_multimedia_in.CLib.StrLaws.{until_nul-NoNul}
use kerberized_multimedia_in.Mikey.{MikeyLib, IsMikey, DeliversKey, new_config, initiator_message}
use kerberized_multimedia_in.Gcks2.{
  Network, Sending, not_sent, connecting, sent, host_entry, connected, kdc_uri, send_mikey_message,
  serve_kdc,
}
use kerberized_multimedia_in.Gcks2.Forwards.{
  IsForwardable, to_client, serve_kdc-kdc, through_buffer_short,
}
use kerberized_multimedia_in.Kdc.{GcksLine, do_gcks_req}
use kerberized_multimedia_in.Kdc.Message.{kdc_config, gcks_message_lem}
use kerberized_multimedia_in.Exchange.{Asked, request_of, Packet}
use mathlib.Core.Path.{}

line_sent :
    (host socket option connects : Bool) (text message : Bytes)
    → ◌≡◌ {A = Outcome (Option Bytes)}
        (if socket
          then (host_entry host
              >> (exit_if (not option) 1 >> returns (if connects then some text else none)))
          else returns none)
        (returns (some message))
    → message ≡ text
line_sent host false option connects text message h = cc
line_sent false true option connects text message h = cc
line_sent true true false connects text message h = cc
line_sent true true true false text message h = cc
line_sent true true true true text message h = cc

module _ (lib : MikeyLib) where
  pub do_gcks_req-sent :
      IsMikey lib
      → DeliversKey lib
      → (a : Asked) (line : GcksLine) (message : Bytes)
      → IsForwardable lib (request_of a) a.cname a.sname
      → do_gcks_req lib (request_of a) line ≡ returns (some message)
      → message
        ≡ initiator_message lib (kdc_config (request_of a) a.cname a.sname) a.request.ssrc kdc_uri
  unfolding do_gcks_req
  do_gcks_req-sent mikey key a line message ok h =
      line_sent line.host_known line.socket line.setsockopt line.connects _ message (
        rw
          (gcks_message_lem lib mikey key (request_of a) a.cname a.sname ok.has_cname ok.has_sname
            ok.message_room)
          at h)

  -- Whatever the network does, what is sent for a request of the KDC goes to its client.
  abbrev pub IsAnswerTo : Asked → Packet → Type 0
  IsAnswerTo a p =
      (ssrc : ℕ) × (p.addr ≡ a.request.from_string)
      × (p.port ≡ 9999)
      × (p.text ≡ to_client lib a.request.session_key ssrc a.cname)

  packet_sent :
      (socket known up : Bool) (addr text : Bytes) (p : Packet)
      → ◌≡◌ {A = Outcome Sending}
          (if socket
            then (host_entry known >> returns (if up then sent addr 9999 text else connecting))
            else returns not_sent)
          (returns (sent p.addr p.port p.text))
      → (p.addr ≡ addr) × (p.port ≡ 9999) × (p.text ≡ text)
  packet_sent false known up addr text p h = cc
  packet_sent true false up addr text p h = cc
  packet_sent true true false addr text p h = cc
  packet_sent true true true addr text p h = (cc, cc, cc)

  pub serve_kdc-sent :
      IsMikey lib
      → DeliversKey lib
      → (a : Asked) (net : Network) (p : Packet) → IsForwardable lib (request_of a) a.cname a.sname
      → serve_kdc lib
          (some a.lookups.gcks_key)
          (some (
            initiator_message lib
              (kdc_config (request_of a) a.cname a.sname)
              a.request.ssrc
              kdc_uri))
          net
        ≡ returns (sent p.addr p.port p.text)
      → IsAnswerTo a p
  unfolding send_mikey_message
  serve_kdc-sent mikey key a net p ok h =
      let r = request_of a in
      let text =
        until_nul-NoNul _ (
          mikey.message_text (record new_config { psk_string = r.session_key }) net.ssrc a.cname) in
      let sending = sym (serve_kdc-kdc lib mikey key r a.cname a.sname net ok) ∙ h in
      let (to, port, same) =
        packet_sent net.socket net.host_known (connected net.connects) r.from_string
          (to_client lib r.session_key net.ssrc a.cname) p
          (rw
            (
              through_buffer_short 2048 a.cname ok.cname_text (omega (arith, ok.conn_info_room)),
              through_buffer_short 30 r.from_string ok.from_text ok.from_room,
              text,
            )
            at sending) in
      (net.ssrc, to, port, same)
