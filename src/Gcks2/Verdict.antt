-- ===== src/Gcks2/Verdict.antt =====
-- kmtools/gcks2.cxx does not act on the verdict of `responderAuthenticate`.
use kerberized_multimedia_in.Base.Ints.{ℤ, pos}
use kerberized_multimedia_in.ConnInfo.{ClientConnInfo, parse_conn_info}
use kerberized_multimedia_in.Gcks1.{bufsiz}
use kerberized_multimedia_in.Base.{take, ◌-◌, ◌≡◌, refl, Bool, Option, none, some, Bytes}
use kerberized_multimedia_in.CLib.{Outcome, returns, exits, faults, ◌>>=◌, deref, until_nul}
use kerberized_multimedia_in.Mikey.{MikeyLib, new_config, initiator_message}
use kerberized_multimedia_in.Mikey.Wrapper.{bytes_at}
use kerberized_multimedia_in.Gcks2.{
  kdc_uri, Network, Sending, Processed, process_mikey_message, send_mikey_message, serve_kdc,
}

-- A libmikey that differs in its verdicts only.
abbrev pub with_verdicts : MikeyLib → (Bytes → Bool) → MikeyLib
with_verdicts lib verdict = record lib {
  responder_authenticate =
      λ message peer mikey. (verdict message, (lib.responder_authenticate message peer mikey).1);
}

abbrev processed : Bool → Bytes → ClientConnInfo → Processed
processed a key p = record { authenticated = a; session_key = key; conn_info = p }

parsed_ignored :
    (parsed : Outcome ClientConnInfo) (a b : Bool) (key : Bytes)
    (k : Option Bytes → Option Bytes → ℤ → Bytes → Outcome Sending)
    → ((parsed >>= λ p. returns (processed a key p)) >>= λ d.
        k d.conn_info.client_name d.conn_info.client_addr d.conn_info.client_port d.session_key)
      ≡ ((parsed >>= λ p. returns (processed b key p)) >>= λ d.
          k d.conn_info.client_name d.conn_info.client_addr d.conn_info.client_port d.session_key)
parsed_ignored (returns p) a b key k = refl
parsed_ignored (exits n) a b key k = refl
parsed_ignored (faults e) a b key k = refl

-- A field that is not read does not matter.
ignored :
    (text : Option Bytes) (a b : Bool) (key : Bytes) (empty : ClientConnInfo)
    (k : Option Bytes → Option Bytes → ℤ → Bytes → Outcome Sending)
    → ((deref text >>= λ t. parse_conn_info t empty >>= λ p. returns (processed a key p)) >>= λ d.
        k d.conn_info.client_name d.conn_info.client_addr d.conn_info.client_port d.session_key)
      ≡ ((deref text >>= λ t. parse_conn_info t empty >>= λ p. returns (processed b key p)) >>= λ d.
          k d.conn_info.client_name d.conn_info.client_addr d.conn_info.client_port d.session_key)
ignored none a b key empty k = refl
ignored (some t) a b key empty k = parsed_ignored (parse_conn_info t empty) a b key k

-- The key that is copied first.
key_first :
    (copied : Outcome Bytes) (text : Option Bytes) (a b : Bool) (empty : ClientConnInfo)
    (k : Option Bytes → Option Bytes → ℤ → Bytes → Outcome Sending)
    → ((copied >>= λ key.
          deref text >>= λ t. parse_conn_info t empty >>= λ p. returns (processed a key p))
        >>= λ d.
            k d.conn_info.client_name d.conn_info.client_addr d.conn_info.client_port d.session_key)
      ≡ ((copied >>= λ key.
            deref text >>= λ t. parse_conn_info t empty >>= λ p. returns (processed b key p))
          >>= λ d.
              k d.conn_info.client_name d.conn_info.client_addr d.conn_info.client_port
                d.session_key)
key_first (returns key) text a b empty k = ignored text a b key empty k
key_first (exits n) text a b empty k = refl
key_first (faults e) text a b empty k = refl

-- Whatever the responder says of the KDC's messages, a round of the server ends in the same way: a
-- message that is not authenticated leads to the same host, port and message, or fault, as one that
-- is.
pub serve_kdc-with_verdicts :
    (lib : MikeyLib) (verdict : Bytes → Bool) (gcks_key received : Option Bytes) (net : Network)
    → serve_kdc (with_verdicts lib verdict) gcks_key received net
      ≡ serve_kdc lib gcks_key received net
unfolding serve_kdc process_mikey_message send_mikey_message initiator_message
serve_kdc-with_verdicts lib verdict none none net = refl
serve_kdc-with_verdicts lib verdict none (some message) net = refl
serve_kdc-with_verdicts lib verdict (some key) none net = refl
serve_kdc-with_verdicts lib verdict (some key) (some message) net =
    let config = record new_config { psk_string = key } in
    let said =
      lib.responder_authenticate (until_nul (take (bufsiz - 1) message)) kdc_uri
        (lib.construct config) in
    let offered = lib.set_mikey_offer said.1 in
    key_first (bytes_at (lib.get_tgk offered) (lib.get_tgk_length offered))
      (lib.get_conn_info offered) (verdict (until_nul (take (bufsiz - 1) message))) said.0
      (record { client_name = none; client_addr = none; group_name = none; client_port = pos 0 })
      (λ name addr port key. send_mikey_message lib name addr port key net)
