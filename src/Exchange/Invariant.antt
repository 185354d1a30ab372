-- ===== src/Exchange/Invariant.antt =====
-- Model 2 as a system: the messages that wait and the packets come from requests that were handed on.
use kerberized_multimedia_in.Base.{
  ◌≡◌, refl, sym, ap, ◌∙◌, Option, none, some, List, [], ◌∷◌, ◌++◌, Bytes, All, inl, inr,
  Bool-cases,
}
use kerberized_multimedia_in.CLib.{returns}
use kerberized_multimedia_in.Mikey.{MikeyLib, IsMikey, DeliversKey, initiator_message}
use kerberized_multimedia_in.Gcks2.{kdc_uri, serve_kdc}
use kerberized_multimedia_in.Gcks2.Forwards.{IsForwardable}
use kerberized_multimedia_in.Kdc.{GcksLine, do_gcks_req}
use kerberized_multimedia_in.Kdc.Tgs.{KeyList, Issued, is_mikey_set, issue_ticket}
use kerberized_multimedia_in.Kdc.Issues.{issue_ticket-IsIssued, issue_ticket_unset}
use kerberized_multimedia_in.Kdc.Message.{kdc_config}
use kerberized_multimedia_in.Exchange.{
  Asked, request_of, waiting, Packet, System, Step, ask, forward, drop, Reach, start, next,
}
use mathlib.Core.List.{Memᴰ}
use mathlib.Core.Path.{subst}
use kerberized_multimedia_in.Exchange.Messages.{do_gcks_req-sent, IsAnswerTo, serve_kdc-sent}

module _ (lib : MikeyLib) (gcks_key : Bytes) where
  -- A request that the KDC has handed on.
  abbrev pub IsHanded : List Asked → Asked → Type 0
  IsHanded asked a =
      Memᴰ a asked
      × IsForwardable lib (request_of a) a.cname a.sname
      × (a.lookups.gcks_key ≡ gcks_key)

  abbrev pub IsWaiting : List Asked → Bytes → Type 0
  IsWaiting asked message =
      (a : Asked) × IsHanded asked a
      × (message
          ≡ initiator_message lib (kdc_config (request_of a) a.cname a.sname) a.request.ssrc
              kdc_uri)

  abbrev pub IsAnswer : List Asked → Packet → Type 0
  IsAnswer asked p = (a : Asked) × IsHanded asked a × IsAnswerTo lib a p

  abbrev pub HasOrigins : System → Type 0
  HasOrigins s = All (IsWaiting s.asked) s.backlog × All (IsAnswer s.asked) s.packets

  IsWaiting-more :
      (a : Asked) (asked : List Asked) (backlog : List Bytes)
      → All (IsWaiting asked) backlog
      → All (IsWaiting (a ∷ asked)) backlog
  IsWaiting-more a asked [] h = tt
  IsWaiting-more a asked (m ∷ backlog) ((b, handed, same), rest) =
      ((b, (Memᴰ.tail handed.0, handed.1, handed.2), same), IsWaiting-more a asked backlog rest)

  IsAnswer-more :
      (a : Asked) (asked : List Asked) (packets : List Packet)
      → All (IsAnswer asked) packets
      → All (IsAnswer (a ∷ asked)) packets
  IsAnswer-more a asked [] h = tt
  IsAnswer-more a asked (p ∷ packets) ((b, handed, same), rest) =
      ((b, (Memᴰ.tail handed.0, handed.1, handed.2), same), IsAnswer-more a asked packets rest)

  ++-IsWaiting :
      (asked : List Asked) (backlog messages : List Bytes)
      → All (IsWaiting asked) backlog
      → All (IsWaiting asked) messages
      → All (IsWaiting asked) (backlog ++ messages)
  ++-IsWaiting asked [] messages h w = w
  ++-IsWaiting asked (m ∷ backlog) messages h w = (h.0, ++-IsWaiting asked backlog messages h.1 w)

  sent-IsWaiting :
      IsMikey lib
      → DeliversKey lib
      → (asked : List Asked) (a : Asked) (line : GcksLine) (sent : Option Bytes)
      → IsForwardable lib (request_of a) a.cname a.sname × (a.lookups.gcks_key ≡ gcks_key)
      → do_gcks_req lib (request_of a) line ≡ returns sent
      → All (IsWaiting (a ∷ asked)) (waiting sent)
  sent-IsWaiting mikey key asked a line none ok made = tt
  sent-IsWaiting mikey key asked a line (some message) (room, same) made = (
    (a, (Memᴰ.head refl, room, same), do_gcks_req-sent lib mikey key a line message room made),
    tt,
  )

  -- What a ticket makes wait at the GCKS is the message for its request.
  issue_ticket-IsWaiting :
      IsMikey lib
      → DeliversKey lib
      → (asked : List Asked) (keys : KeyList) (a : Asked) (line : GcksLine) (o : Issued)
      → IsForwardable lib (request_of a) a.cname a.sname × (a.lookups.gcks_key ≡ gcks_key)
      → issue_ticket lib a.kdc_options a.enc_tkt_in_skey a.lookups keys a.request line ≡ returns o
      → All (IsWaiting (a ∷ asked)) (waiting o.sent)
  issue_ticket-IsWaiting mikey key asked keys a line o ok issued =
      elim (Bool-cases (is_mikey_set a.kdc_options)) [
        | inl set ↦
            elim (issue_ticket-IsIssued lib a.kdc_options a.enc_tkt_in_skey a.lookups keys a.request
              line o set issued) [
                | inl (ends, made) ↦ sent-IsWaiting mikey key asked a line o.sent ok made
                | inr (status, errcode, ends, wrong, nothing, freed) ↦ rw nothing tt
              ]
        | inr unset ↦
            rw
              (issue_ticket_unset lib a.kdc_options a.enc_tkt_in_skey a.lookups keys a.request line
                o unset issued)
              tt
      ]

  -- Every request is one that the KDC can hand on whole, to the one GCKS.
  abbrev pub AreForwardable : List Asked → Type 0
  AreForwardable asked =
      (a : Asked)
      → Memᴰ a asked
      → IsForwardable lib (request_of a) a.cname a.sname × (a.lookups.gcks_key ≡ gcks_key)

  pub Step-AreForwardable :
      {s t : System} → Step lib gcks_key s t → AreForwardable t.asked → AreForwardable s.asked
  Step-AreForwardable (ask a line o issued) ok = λ b m. ok b (Memᴰ.tail m)
  Step-AreForwardable (forward message rest net p first goes) ok = ok
  Step-AreForwardable (drop message rest net first lost) ok = ok

  Step-HasOrigins :
      IsMikey lib
      → DeliversKey lib
      → {s t : System} → Step lib gcks_key s t
      → AreForwardable t.asked
      → HasOrigins s
      → HasOrigins t
  Step-HasOrigins mikey key {s} (ask a line o issued) ok (w, p) = (
    ++-IsWaiting (a ∷ s.asked) s.backlog (waiting o.sent) (IsWaiting-more a s.asked s.backlog w)
        (issue_ticket-IsWaiting mikey key s.asked s.keys a line o (ok a (Memᴰ.head refl)) issued),
    IsAnswer-more a s.asked s.packets p,
  )
  Step-HasOrigins mikey key {s} (forward message rest net p first goes) ok (w, ps) =
      let ((a, handed, same), others) = subst (All (IsWaiting s.asked)) first w in
      let K = a.lookups.gcks_key in
      let served =
        ap (λ m. serve_kdc lib (some K) (some m) net) (sym same)
        ∙ ap (λ k. serve_kdc lib (some k) (some message) net) handed.2
        ∙ goes in
      (others, ((a, handed, serve_kdc-sent lib mikey key a net p handed.1 served), ps))
  Step-HasOrigins mikey key {s} (drop message rest net first lost) ok (w, ps) =
      ((subst (All (IsWaiting s.asked)) first w).1, ps)

  pub Reach-HasOrigins :
      IsMikey lib
      → DeliversKey lib
      → {s : System} → Reach lib gcks_key s
      → AreForwardable s.asked
      → HasOrigins s
  Reach-HasOrigins mikey key (start keys) ok = (tt, tt)
  Reach-HasOrigins mikey key (next r st) ok =
      Step-HasOrigins mikey key st ok (Reach-HasOrigins mikey key r (Step-AreForwardable st ok))
