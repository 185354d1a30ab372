-- ===== src/Sclient1/Delivery.antt =====
-- From the GCKS of kmtools/gcks1.cxx to the client of kmtools/sclient.cxx: the reply is
-- read whole and authenticated.
use kerberized_multimedia_in.Base.{
  ℕ, ◌+◌, ◌-◌, ◌<◌, ◌≡◌, sym, ap, ◌∙◌, true, some, [], ◌++◌, Bytes, length, take_all, arith,
}
use kerberized_multimedia_in.CLib.{Outcome, returns}
use kerberized_multimedia_in.Net.Complete.{payload}
use kerberized_multimedia_in.Mikey.{
  MikeyLib, MikeyTestConfig, IsMikey, new_config, initiator_message,
}
use kerberized_multimedia_in.Gcks1.{Connection, bufsiz, frame, server_config, answer_text, serve}
use kerberized_multimedia_in.Gcks1.Answers.{
  IsServed, serve_lem, answer_text-NoNul, answer_text-named, answer_text-pos,
}
use kerberized_multimedia_in.Sclient1.{
  World, joined, accepted, take_reply, after_sendauth, open_reply, respond,
}
use kerberized_multimedia_in.Sclient1.Framing.{receive_reply-frame}
use kerberized_multimedia_in.Sclient1.Reply.{}

module _ (lib : MikeyLib) where
  abbrev sent_of : Outcome (Bytes × Bytes) → Bytes
  sent_of (returns (sent, repbuf)) = sent
  sent_of _ = []

  -- What the server writes for a client whose name it can print, if the message fits.
  serve-message :
      (c : Connection) (repbuf sent repbuf' : Bytes)
      → IsServed lib c
      → length repbuf ≡ bufsiz
      → length (answer_text lib c) < bufsiz
      → serve lib c repbuf ≡ returns (sent, repbuf')
      → sent ≡ frame (answer_text lib c)
  serve-message c repbuf sent repbuf' ok len fits served =
      let (b, e, _) = serve_lem lib c repbuf ok (answer_text-NoNul lib c) len in
      ap sent_of (sym served ∙ e)
      ∙ ap frame (take_all (bufsiz - 1) (answer_text lib c) (omega arith))

  -- A client accepts a message made under its session key for its name.
  pub respond-key :
      IsMikey lib
      → (sender : MikeyTestConfig) (ssrc : ℕ) (peer key name : Bytes) → key ≡ sender.psk_string
      → name ≡ peer
      → (m : lib.Mikey) × (respond lib key name (initiator_message lib sender ssrc peer)
          ≡ joined true m)
  unfolding respond
  respond-key mikey sender ssrc peer key name k n =
      let config = record new_config { psk_string = key } in
      let message = initiator_message lib sender ssrc peer in
      let result = lib.responder_authenticate message name (lib.construct config) in
      (
        lib.set_mikey_offer result.1,
        ap (λ a. joined a (lib.set_mikey_offer result.1))
            (rw n (mikey.accepts sender config ssrc peer (sym k))),
      )

  -- The reply that the GCKS sends to a client, on whatever pieces it arrives, is authenticated by
  -- that client: if libmikey keeps its promises, every call of the server's round succeeds, the server
  -- could print the client's name, `krb5_sendauth` gave a reply, both hold the same session key, the
  -- name that the server sees is the client's own, the message is below 8192 bytes, and the client can
  -- allocate the buffer.
  pub take_reply-authenticated :
      IsMikey lib
      → (c : Connection) (repbuf sent repbuf' : Bytes) (w : World) (more memory : Bytes)
      → IsServed lib c
      → length repbuf ≡ bufsiz
      → c.unparse_name ≡ 0
      → length (answer_text lib c) < bufsiz
      → serve lib c repbuf ≡ returns (sent, repbuf')
      → payload w.received ≡ sent ++ more
      → w.sendauth ≡ accepted true
      → w.session_key ≡ c.session_key
      → w.client_name ≡ c.cname
      → w.malloc (length (answer_text lib c) + 1) ≡ some memory
      → length memory ≡ length (answer_text lib c) + 1
      → (m : lib.Mikey) × (take_reply lib w ≡ returns (joined true m))
  unfolding take_reply open_reply
  take_reply-authenticated mikey c repbuf sent repbuf' w more memory ok buf named fits served
        arrives auth key name alloc len =
      let text = answer_text lib c in
      let written = serve-message c repbuf sent repbuf' ok buf fits served in
      let e = answer_text-named lib mikey c named in
      let (b, read, string) =
        receive_reply-frame w.malloc w.xmitlen text more memory w.received
          (arrives ∙ ap (λ s. s ++ more) written) (answer_text-pos lib mikey c named) (omega arith)
          (answer_text-NoNul lib c) alloc len in
      let (m, done) =
        respond-key mikey (server_config lib c) c.ssrc c.cname w.session_key w.client_name key
          name in
      (m, ap (after_sendauth lib w) auth ∙ rw (read, string, e, done))
