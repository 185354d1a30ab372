-- ===== src/Tests/SimpleMikey.antt =====
-- A library with the interface of libmikey for the runs at concrete inputs: its messages hold their
-- fields in the clear.
use kerberized_multimedia_in.Base.{
  ℕ, ◌+◌, ◌-◌, ◌≡◌, ◌≢◌, refl, ap, ◌∙◌, Bool, true, false, ◌&&◌, Option, none, some, List, [], ◌∷◌,
  ◌++◌, Bytes, length, ◌==◌, if◌then◌else◌, arith,
}
use kerberized_multimedia_in.CLib.StrLaws.{NoNul}
use kerberized_multimedia_in.Mikey.{
  MikeyTestConfig, MikeyLib, IsMikey, DeliversKey, initiator_message,
}

-- The bytes of a field, shifted past the byte 1 that ends it, and past 0.
unfoldable pub shifted : Bytes → Bytes
shifted [] = []
shifted (b ∷ bs) = (b + 2) ∷ shifted bs

unfoldable pub field_of : Option Bytes → Bytes → Bytes
unfolding shifted
field_of none rest = 1 ∷ rest
field_of (some bs) rest = 2 ∷ (shifted bs ++ (1 ∷ rest))

unfoldable pub read_shifted : Bytes → Bytes × Bytes
read_shifted [] = ([], [])
read_shifted (b ∷ bs) =
    let (front, rest) = read_shifted bs in if b == 1 then ([], bs) else ((b - 2) ∷ front, rest)

unfoldable pub read_field : Bytes → Option Bytes × Bytes
unfolding read_shifted
read_field [] = (none, [])
read_field (b ∷ bs) =
    let (front, rest) = read_shifted bs in if b == 1 then (none, bs) else (some front, rest)

read_shifted-shifted : (s rest : Bytes) → read_shifted (shifted s ++ (1 ∷ rest)) ≡ (s, rest)
unfolding shifted read_shifted
read_shifted-shifted [] rest = refl
read_shifted-shifted (b ∷ s) rest =
    let other : (b + 2 == 1) ≡ false = ground arith in
    let back : b + 2 - 2 ≡ b = omega arith in rw (other, back, read_shifted-shifted s rest)

read_field-field_of : (f : Option Bytes) (rest : Bytes) → read_field (field_of f rest) ≡ (f, rest)
unfolding field_of read_field
read_field-field_of none rest = refl
read_field-field_of (some s) rest = rw (read_shifted-shifted s rest)

unfoldable pub equal : Bytes → Bytes → Bool
equal [] [] = true
equal [] (c ∷ cs) = false
equal (b ∷ bs) [] = false
equal (b ∷ bs) (c ∷ cs) = b == c && equal bs cs

equal_self : (s : Bytes) → equal s s ≡ true
unfolding equal
equal_self [] = refl
equal_self (b ∷ s) = ground (arith, equal_self s)

-- The state: the configuration, the number set as state, the senders, the offer that was read, and
-- the key and the connection information taken from it.
pub record SimpleMikey : Type 0 where
  config : MikeyTestConfig
  state : ℕ
  senders : List ℕ
  offer : Bytes
  tgk : Bytes
  conn_info : Option Bytes

unfoldable pub created : MikeyTestConfig → SimpleMikey
created config = record {
  config = config;
  state = 0;
  senders = [];
  offer = [];
  tgk = [];
  conn_info = none;
}

unfoldable pub message_of : MikeyTestConfig → Bytes → Bytes
message_of config peer =
    field_of (some config.psk_string)
      (field_of (some peer) (field_of config.tgk_ptr (field_of config.conn_info [])))

unfoldable pub same : Option Bytes → Bytes → Bool
same none s = false
same (some t) s = equal t s

-- The message names the receiver and holds its key.
unfoldable pub verified : Bytes → Bytes → MikeyTestConfig → Bool
verified message peer config =
    let (key, rest) = read_field message in
    let (name, offer) = read_field rest in same key config.psk_string && same name peer

-- The offer, behind the key and the name.
unfoldable pub offered : Bytes → Option Bytes × Option Bytes
offered message =
    let (tgk, rest) = read_field (read_field (read_field message).1).1 in (tgk, (read_field rest).0)

unfoldable pub or_nil : Option Bytes → Bytes
or_nil none = []
or_nil (some s) = s

unfoldable pub simple_mikey : MikeyLib
unfolding created message_of verified offered or_nil
simple_mikey = record {
  Mikey = SimpleMikey;
  construct = created;
  set_config = λ config mikey. record mikey { config = config };
  set_state_by_int = λ n mikey. record mikey { state = n };
  add_sender = λ ssrc mikey. record mikey { senders = ssrc ∷ mikey.senders };
  initiator_create = λ type peer mikey. (message_of mikey.config peer, mikey);
  responder_authenticate =
      λ message peer mikey. (verified message peer mikey.config, record mikey { offer = message });
  set_mikey_offer = λ mikey. record mikey {
    tgk = or_nil (offered mikey.offer).0;
    conn_info = (offered mikey.offer).1;
  };
  get_tgk = λ mikey. mikey.tgk;
  get_tgk_length = λ mikey. length mikey.tgk;
  get_conn_info = λ mikey. mikey.conn_info;
}

text_shifted : (s rest : Bytes) → NoNul rest → NoNul (shifted s ++ (1 ∷ rest))
unfolding shifted
text_shifted [] rest h = (ground arith, h)
text_shifted (b ∷ s) rest h = (ground arith, text_shifted s rest h)

text_field : (f : Option Bytes) (rest : Bytes) → NoNul rest → NoNul (field_of f rest)
unfolding field_of
text_field none rest h = (ground arith, h)
text_field (some s) rest h = (ground arith, text_shifted s rest h)

field_of-ne_nil : (f : Option Bytes) (rest : Bytes) → field_of f rest ≢ []
unfolding field_of
field_of-ne_nil none rest = λ e. cc
field_of-ne_nil (some s) rest = λ e. cc

verified-message_of :
    (sender receiver : MikeyTestConfig) (peer : Bytes)
    → sender.psk_string ≡ receiver.psk_string
    → verified (message_of sender peer) peer receiver ≡ true
unfolding verified same message_of
verified-message_of sender receiver peer key = simp (read_field-field_of, key, equal_self)

offered-message_of :
    (sender : MikeyTestConfig) (peer : Bytes)
    → offered (message_of sender peer) ≡ (sender.tgk_ptr, sender.conn_info)
unfolding offered message_of
offered-message_of sender peer = simp read_field-field_of

pub simple_mikey-IsMikey : IsMikey simple_mikey
unfolding initiator_message simple_mikey created message_of
simple_mikey-IsMikey = record {
  message_ne_nil = λ config ssrc peer. field_of-ne_nil (some config.psk_string) _;
  message_text = λ config ssrc peer.
      text_field (some config.psk_string) _ (
        text_field (some peer) _ (text_field config.tgk_ptr _ (text_field config.conn_info [] tt)));
  accepts = λ sender receiver ssrc peer key. verified-message_of sender receiver peer key;
}

pub simple_mikey-DeliversKey : DeliversKey simple_mikey
unfolding initiator_message simple_mikey created or_nil
simple_mikey-DeliversKey = record {
  starts = λ config ssrc peer. refl;
  delivers_tgk = λ sender receiver ssrc peer tgk key has_tgk.
      ap or_nil (ap (λ o. o.0) (offered-message_of sender peer) ∙ has_tgk);
  delivers_tgk_length = λ sender receiver ssrc peer tgk key has_tgk.
      ap (λ o. length (or_nil o)) (ap (λ o. o.0) (offered-message_of sender peer) ∙ has_tgk);
  delivers_conn_info =
      λ sender receiver ssrc peer key. ap (λ o. o.1) (offered-message_of sender peer);
}
