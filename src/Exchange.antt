-- ===== src/Exchange.antt =====
-- Model 2 as a system: the KDC of krb5.patch with its issue of tickets, the GCKS of kmtools/gcks2.cxx
-- and any number of clients of kmtools/sclient2.cxx, which take turns in any order.
pub mod Messages
pub mod Invariant
pub mod Origin
pub mod Progress
pub mod InOrder
pub mod Blocking
use kerberized_multimedia_in.Base.{ℕ, ◌≡◌, Bool, Option, none, some, List, [], ◌∷◌, ◌++◌, Bytes}
use kerberized_multimedia_in.CLib.{returns}
use kerberized_multimedia_in.Mikey.{MikeyLib}
use kerberized_multimedia_in.Gcks2.{Network, not_sent, sent, serve_kdc}
use kerberized_multimedia_in.Kdc.Tgs.{KeyList, Lookups, Issued, issue_ticket}
use kerberized_multimedia_in.Kdc.{GcksRequest, GcksLine}

-- A request of a client to the KDC: its options, whether it has KDC_OPT_ENC_TKT_IN_SKEY, what the
-- look-ups of the KDC give, and the arguments for the GCKS, with the two names in them.
pub record Asked : Type 0 where
  pub kdc_options : ℕ
  pub enc_tkt_in_skey : Bool
  pub lookups : Lookups
  pub request : GcksRequest
  pub cname : Bytes
  pub sname : Bytes

-- What the GCKS has sent: the host, the port and the text.
pub record Packet : Type 0 where
  pub addr : Bytes
  pub port : ℕ
  pub text : Bytes

-- The arguments, with the key of the GCKS.
abbrev pub request_of : Asked → GcksRequest
request_of a = record a.request { gcks_key = a.lookups.gcks_key }

-- The requests so far, the master keys of the KDC, its messages that wait at the GCKS, in order, and
-- the packets of the GCKS.
pub record System : Type 0 where
  pub keys : KeyList
  pub asked : List Asked
  pub backlog : List Bytes
  pub packets : List Packet

abbrev pub idle : KeyList → System
idle keys = record { asked = []; keys = keys; backlog = []; packets = [] }

abbrev pub waiting : Option Bytes → List Bytes
waiting none = []
waiting (some message) = message ∷ []

module _ (lib : MikeyLib) (gcks_key : Bytes) where
  -- A turn of one of the programs: the KDC issues a ticket, or fails to, and may hand the request on;
  -- the GCKS takes the first message and sends a packet, or finds no socket.
  pub data Step (s : System) : System → Type 0 where
    ask :
        (a : Asked) (line : GcksLine) (o : Issued)
        → issue_ticket lib a.kdc_options a.enc_tkt_in_skey a.lookups s.keys a.request line
          ≡ returns o
        → Step s
            (record s { asked = a ∷ s.asked; keys = o.keys; backlog = s.backlog ++ waiting o.sent })
    forward :
        (message : Bytes) (rest : List Bytes) (net : Network) (p : Packet)
        → s.backlog ≡ message ∷ rest
        → serve_kdc lib (some gcks_key) (some message) net ≡ returns (sent p.addr p.port p.text)
        → Step s (record s { backlog = rest; packets = p ∷ s.packets })
    drop :
        (message : Bytes) (rest : List Bytes) (net : Network)
        → s.backlog ≡ message ∷ rest
        → serve_kdc lib (some gcks_key) (some message) net ≡ returns not_sent
        → Step s (record s { backlog = rest })

  -- Some turns, one after another.
  pub data Turns : System → System → Type 0 where
    stay : (s : System) → Turns s s
    turn : {s t u : System} → Step s t → Turns t u → Turns s u

  pub data Reach : System → Type 0 where
    start : (keys : KeyList) → Reach (idle keys)
    next : {s t : System} → Reach s → Step s t → Reach t
