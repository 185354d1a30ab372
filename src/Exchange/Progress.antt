-- ===== src/Exchange/Progress.antt =====
-- Model 2 as a system: from every state on, the messages that wait at the GCKS can be answered.
use kerberized_multimedia_in.Base.{
  ℕ, suc, append_assoc, ◌≡◌, refl, sym, ap, ◌∙◌, true, some, List, [], ◌∷◌, ◌++◌, Bytes, All,
}
use kerberized_multimedia_in.CLib.{returns}
use kerberized_multimedia_in.Mikey.{MikeyLib, IsMikey, DeliversKey, initiator_message}
use kerberized_multimedia_in.Gcks2.{Network, sent, kdc_uri, serve_kdc}
use kerberized_multimedia_in.Gcks2.Forwards.{IsForwardable, Reaches, to_client, serve_kdc-Reaches}
use kerberized_multimedia_in.Kdc.{GcksLine}
use kerberized_multimedia_in.Kdc.Message.{Connects, kdc_config}
use kerberized_multimedia_in.Kdc.Tgs.{is_mikey_set}
use kerberized_multimedia_in.Kdc.Issues.{IsFound, issue_ticket_lem}
use kerberized_multimedia_in.Exchange.{
  Asked, request_of, Packet, System, ask, forward, Turns, stay, turn, Reach, next,
}
use kerberized_multimedia_in.Exchange.Messages.{IsAnswerTo, serve_kdc-sent}
use kerberized_multimedia_in.Exchange.Invariant.{IsWaiting, AreForwardable, Reach-HasOrigins}
use kerberized_multimedia_in.Exchange.Origin.{All-Memᴰ}
use mathlib.Core.List.{Memᴰ}
use mathlib.Core.Path.{subst}

Memᴰ-append_last : {A : Type 0} (x : A) (xs : List A) → Memᴰ x (xs ++ (x ∷ []))
Memᴰ-append_last x [] = Memᴰ.head refl
Memᴰ-append_last x (y ∷ xs) = Memᴰ.tail (Memᴰ-append_last x xs)

Memᴰ-append : {A : Type 0} {x : A} (xs ys : List A) → Memᴰ x xs → Memᴰ x (xs ++ ys)
Memᴰ-append [] ys m = elim m [ ]
Memᴰ-append (z ∷ xs) ys (Memᴰ.head e) = Memᴰ.head e
Memᴰ-append (z ∷ xs) ys (Memᴰ.tail m) = Memᴰ.tail (Memᴰ-append xs ys m)

All-map :
    {A : Type 0} (P Q : A → Type 0) (xs : List A) → ((x : A) → P x → Q x) → All P xs → All Q xs
All-map P Q [] f h = tt
All-map P Q (x ∷ xs) f (h, hs) = (f x h, All-map P Q xs f hs)

module _ (lib : MikeyLib) (mikey : IsMikey lib) (key : DeliversKey lib) (gcks_key : Bytes) where
  -- A packet that the GCKS makes of a message is there.
  abbrev IsAnswered : List Packet → Bytes → Type 0
  IsAnswered packets message =
      (p : Packet) × (net : Network) × Memᴰ p packets
      × (serve_kdc lib (some gcks_key) (some message) net ≡ returns (sent p.addr p.port p.text))

  -- The GCKS gets to the end of its backlog, with new packets behind its others.
  abbrev Drains : System → List Bytes → Type 0
  Drains s backlog =
      (t : System) × (new : List Packet) × Turns lib gcks_key s t
      × (t.asked ≡ s.asked)
      × (t.backlog ≡ [])
      × (t.packets ≡ new ++ s.packets)
      × All (IsAnswered new) backlog

  served :
      (message : Bytes) (a : Asked) (net : Network)
      → IsForwardable lib (request_of a) a.cname a.sname
      → Reaches net
      → a.lookups.gcks_key ≡ gcks_key
      → message
        ≡ initiator_message lib (kdc_config (request_of a) a.cname a.sname) a.request.ssrc kdc_uri
      → serve_kdc lib (some gcks_key) (some message) net
        ≡ returns
            (sent a.request.from_string 9999 (to_client lib a.request.session_key net.ssrc a.cname))
  served message a net ok reaches same_key same =
      ap (λ m. serve_kdc lib (some gcks_key) (some m) net) same
      ∙ ap
          (λ k.
            serve_kdc lib (some k)
              (some (
                initiator_message lib (kdc_config (request_of a) a.cname a.sname) a.request.ssrc
                  kdc_uri))
              net)
          (sym same_key)
      ∙ serve_kdc-Reaches lib mikey key (request_of a) a.cname a.sname net ok reaches

  -- The GCKS meets one network after another.
  drains :
      (backlog : List Bytes) (nets : ℕ → Network) (s : System)
      → ((i : ℕ) → Reaches (nets i))
      → Reach lib gcks_key s
      → AreForwardable lib gcks_key s.asked
      → s.backlog ≡ backlog
      → Drains s backlog
  drains [] nets s reaches r ok e = (s, [], stay s, refl, e, refl, tt)
  drains (message ∷ rest) nets s reaches r ok e =
      let net = nets 0 in
      let (waits, _) = Reach-HasOrigins lib gcks_key mikey key r ok in
      let ((a, handed, same), _) = subst (All (IsWaiting lib gcks_key s.asked)) e waits in
      let p : Packet = record {
        addr = a.request.from_string;
        port = 9999;
        text = to_client lib a.request.session_key net.ssrc a.cname;
      } in
      let goes = served message a net handed.1 (reaches 0) handed.2 same in
      let step = forward message rest net p e goes in
      let (t, new, turns, asked, empty, kept, answered) =
        drains rest (λ i. nets (suc i)) (record s { backlog = rest; packets = p ∷ s.packets })
          (λ i. reaches (suc i)) (next r step) ok refl in
      (
        t,
        new ++ (p ∷ []),
        turn step turns,
        asked,
        empty,
        kept ∙ sym (append_assoc new (p ∷ []) s.packets),
        (
          (p, net, Memᴰ-append_last p new, goes),
          All-map (IsAnswered new) (IsAnswered (new ++ (p ∷ []))) rest
              (λ m (q, n, there, h). (q, n, Memᴰ-append new (p ∷ []) there, h)) answered,
        ),
      )

AreForwardable-cons :
    (lib : MikeyLib) (gcks_key : Bytes) (a : Asked) (asked : List Asked)
    → IsForwardable lib (request_of a) a.cname a.sname
    → a.lookups.gcks_key ≡ gcks_key
    → AreForwardable lib gcks_key asked
    → AreForwardable lib gcks_key (a ∷ asked)
AreForwardable-cons lib gcks_key a asked room same ok b (Memᴰ.head e) =
    subst (λ c. IsForwardable lib (request_of c) c.cname c.sname × (c.lookups.gcks_key ≡ gcks_key))
      (sym e) (room, same)
AreForwardable-cons lib gcks_key a asked room same ok b (Memᴰ.tail m) = ok b m

-- Whatever the clients, the KDC and the GCKS have done before: a request with the option KDC_OPT_MIKEY, for
-- which the KDC finds the key of the GCKS and reaches it, can be issued, and from there the GCKS, that
-- reaches a client in each of its turns, comes to the end of its backlog. The packets from before are still
-- there then, and a new one answers the request. libmikey keeps its promises, and this request and all
-- before it can be handed on whole under the key of the GCKS.
pub request-IsAnswerTo :
    (lib : MikeyLib) (gcks_key : Bytes) (s : System) (a : Asked) (line : GcksLine)
    (nets : ℕ → Network)
    → IsMikey lib
    → DeliversKey lib
    → Reach lib gcks_key s
    → AreForwardable lib gcks_key s.asked
    → is_mikey_set a.kdc_options ≡ true
    → IsFound a.lookups s.keys
    → IsForwardable lib (request_of a) a.cname a.sname
    → a.lookups.gcks_key ≡ gcks_key
    → Connects line
    → ((i : ℕ) → Reaches (nets i))
    → (t : System) × (new : List Packet) × (p : Packet) × Turns lib gcks_key s t
      × (t.asked ≡ a ∷ s.asked)
      × (t.backlog ≡ [])
      × (t.packets ≡ new ++ s.packets)
      × Memᴰ p new
      × IsAnswerTo lib a p
request-IsAnswerTo lib gcks_key s a line nets mikey key reach ok set found room same up reaches =
    let r = request_of a in
    let message = initiator_message lib (kdc_config r a.cname a.sname) r.ssrc kdc_uri in
    let issued =
      issue_ticket_lem lib mikey key a.kdc_options a.enc_tkt_in_skey a.lookups s.keys a.request line
        a.cname a.sname set found room up in
    let step = ask a line _ issued in
    let (t, new, turns, asked, empty, kept, answered) =
      drains lib mikey key gcks_key (s.backlog ++ (message ∷ [])) nets _ reaches (next reach step)
        (AreForwardable-cons lib gcks_key a s.asked room same ok) refl in
    let (p, net, there, goes) =
      All-Memᴰ (IsAnswered lib mikey key gcks_key new) (s.backlog ++ (message ∷ [])) answered
        (Memᴰ-append_last message s.backlog) in
    (
      t,
      new,
      p,
      turn step turns,
      asked,
      empty,
      kept,
      there,
      serve_kdc-sent lib mikey key a net p room
          (ap (λ k. serve_kdc lib (some k) (some message) net) same ∙ goes),
    )
