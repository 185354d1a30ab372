-- ===== src/Exchange/Origin.antt =====
-- Model 2 as a system: which clients authenticate the packets of the GCKS.
use kerberized_multimedia_in.Base.{
  ◌<◌, ◌≡◌, refl, sym, ap, ◌∙◌, true, some, List, [], ◌∷◌, Bytes, length, All,
}
use kerberized_multimedia_in.CLib.{returns}
use kerberized_multimedia_in.Mikey.{MikeyLib, IsMikey, DeliversKey}
use kerberized_multimedia_in.Credentials.{Pointer, obtain_credentials}
use kerberized_multimedia_in.Sclient1.{joined}
use kerberized_multimedia_in.Sclient2.{World, listening_port, take_message}
use kerberized_multimedia_in.Sclient2.Delivery.{take_message_lem}
use kerberized_multimedia_in.Exchange.{Asked, Packet, System, Reach}
use mathlib.Core.List.{Memᴰ}
use mathlib.Core.Path.{subst}
use kerberized_multimedia_in.Exchange.Invariant.{IsAnswer, AreForwardable, Reach-HasOrigins}

pub All-Memᴰ : {A : Type 0} (P : A → Type 0) {x : A} (xs : List A) → All P xs → Memᴰ x xs → P x
All-Memᴰ P [] h m = elim m [ ]
All-Memᴰ P (y ∷ xs) h (Memᴰ.head e) = subst P (sym e) h.0
All-Memᴰ P (y ∷ xs) h (Memᴰ.tail m) = All-Memᴰ P xs h.1 m

-- A client of model 2 to which a packet has come: it has room in its array, and credentials.
pub record Takes (w : World) (p : Packet) (creds : Pointer) : Type 0 where
  pub arrived : w.arrived ≡ some p.text
  pub short : length p.text < 1024
  pub room : length w.recv_data ≡ 1024
  pub has_creds : (obtain_credentials w.krb5 true true).out_creds ≡ some creds

-- The client of a request: it has the session key and the name of its ticket.
abbrev pub client_of : Asked → World → World
client_of a w = record w { session_key = a.request.session_key; client_name = a.cname }

-- In whatever order the KDC and the GCKS take turns, also where the GCKS gets no socket for a message:
-- every packet of the GCKS is for a request that a client has made. It goes to the host of that request
-- and to the port that a client listens on, and the client that takes it with the session key and the
-- name of that request authenticates it. libmikey keeps its promises, and every request can be handed
-- on whole under the key of the GCKS.
pub packets-authenticated :
    (lib : MikeyLib) (gcks_key : Bytes) (s : System) (p : Packet) (w : World) (creds : Pointer)
    → IsMikey lib
    → DeliversKey lib
    → Reach lib gcks_key s
    → AreForwardable lib gcks_key s.asked
    → Memᴰ p s.packets
    → Takes w p creds
    → (a : Asked) × Memᴰ a s.asked
      × (p.addr ≡ a.request.from_string)
      × (p.port ≡ listening_port)
      × (m : lib.Mikey) × (take_message lib (client_of a w) ≡ returns (joined true m))
packets-authenticated lib gcks_key s p w creds mikey key reach ok is_sent takes =
    let (_, answers) = Reach-HasOrigins lib gcks_key mikey key reach ok in
    let (a, handed, (ssrc, to, port, text)) =
      All-Memᴰ (IsAnswer lib gcks_key s.asked) s.packets answers is_sent in
    let (m, joins) =
      take_message_lem lib mikey key a.request.session_key a.cname ssrc (client_of a w) creds
        (takes.arrived ∙ ap some text) (rw (← text) takes.short) takes.room refl refl
        takes.has_creds in
    (a, handed.0, to, port, m, joins)
