-- ===== src/Mikey.antt =====
-- kmtools/MikeyTestConfig.h and .cxx: the configuration that every tool hands to libmikey; and
-- libmikey itself, which is not part of the repository, as an interface.
pub mod Wrapper
pub mod Demonstration
use kerberized_multimedia_in.Base.{
  ℕ, ◌≡◌, ◌≢◌, Bool, true, false, Option, none, some, [], ◌∷◌, Bytes, length,
}
use kerberized_multimedia_in.CLib.{c_str}
use kerberized_multimedia_in.CLib.StrLaws.{NoNul}

-- The key agreement types of libmikey; `other` is any other number.
pub data KaType : Type 0 where
  dh pk rsa_r psk dhhmac : KaType
  other : ℕ → KaType

-- `class MikeyTestConfig`. `tgk_ptr`, `tgk_length` and `conn_info` are fields of its base class; a
-- pointer is what it points to. The member `identity` is never set.
pub record MikeyTestConfig : Type 0 where
  pub psk_string : Bytes
  pub tgk_ptr : Option Bytes
  pub tgk_length : ℕ
  pub conn_info : Option Bytes

-- The constructor; a `std::string` starts empty.
unfoldable pub new_config : MikeyTestConfig
new_config = record { psk_string = []; tgk_ptr = none; tgk_length = 0; conn_info = none }

-- "jeffrey/admin@LOCALHOST"
abbrev pub get_uri : MikeyTestConfig → Bytes
get_uri config =
    b'j' ∷ b'e' ∷ b'f' ∷ b'f' ∷ b'r' ∷ b'e' ∷ b'y' ∷ b'/' ∷ b'a' ∷ b'd' ∷ b'm' ∷ b'i' ∷ b'n' ∷ b'@'
    ∷ b'L' ∷ b'O' ∷ b'C' ∷ b'A' ∷ b'L' ∷ b'H' ∷ b'O' ∷ b'S' ∷ b'T' ∷ []

abbrev pub get_psk_length : MikeyTestConfig → ℕ
get_psk_length config = length config.psk_string

-- `psk.c_str()`: the bytes of the key; the NUL that follows them is not part of it.
abbrev pub get_psk : MikeyTestConfig → Bytes
get_psk config = config.psk_string

unfoldable pub is_method_enabled : KaType → Bool
is_method_enabled dh = false
is_method_enabled pk = false
is_method_enabled rsa_r = false
is_method_enabled psk = true
is_method_enabled dhhmac = false
is_method_enabled (other n) = false

abbrev pub is_cert_check_enabled : MikeyTestConfig → Bool
is_cert_check_enabled config = false

-- What the tools call of `class Mikey` and of its key agreement.
pub record MikeyLib : Type 1 where
  pub Mikey : Type 0
  pub construct : MikeyTestConfig → Mikey
  pub set_config : MikeyTestConfig → Mikey → Mikey
  pub set_state_by_int : ℕ → Mikey → Mikey
  pub add_sender : ℕ → Mikey → Mikey
  pub initiator_create : KaType → Bytes → Mikey → Bytes × Mikey
  pub responder_authenticate : Bytes → Bytes → Mikey → Bool × Mikey
  pub set_mikey_offer : Mikey → Mikey
  pub get_tgk : Mikey → Bytes
  pub get_tgk_length : Mikey → ℕ
  pub get_conn_info : Mikey → Option Bytes

-- The message that an initiator with a configuration makes for a peer, as all tools ask for it.
unfoldable pub initiator_message : (lib : MikeyLib) → MikeyTestConfig → ℕ → Bytes → Bytes
initiator_message lib config ssrc peer_uri =
    (lib.initiator_create psk peer_uri (lib.add_sender ssrc (lib.construct config))).0

-- What MIKEY promises of a pre-shared key: a message is text, not empty, and a responder with the
-- key of the initiator accepts the message made for the peer that it names.
pub record IsMikey (lib : MikeyLib) : Type 0 where
  pub message_ne_nil :
      (config : MikeyTestConfig) (ssrc : ℕ) (peer : Bytes)
      → initiator_message lib config ssrc peer ≢ []
  pub message_text :
      (config : MikeyTestConfig) (ssrc : ℕ) (peer : Bytes)
      → NoNul (initiator_message lib config ssrc peer)
  pub accepts :
      (sender receiver : MikeyTestConfig) (ssrc : ℕ) (peer : Bytes)
      → sender.psk_string ≡ receiver.psk_string
      → (lib.responder_authenticate
          (initiator_message lib sender ssrc peer)
          peer
          (lib.construct receiver)).0
        ≡ true

-- What MIKEY promises of the key that it transports: an initiator sets its state itself, whatever the
-- wrapper has set, and a responder with the initiator's key that has authenticated the message and taken
-- the offer holds the key, with its length, and the connection information of the initiator.
pub record DeliversKey (lib : MikeyLib) : Type 0 where
  pub starts :
      (config : MikeyTestConfig) (ssrc : ℕ) (peer : Bytes)
      → (lib.initiator_create psk peer (
          lib.add_sender ssrc
            (lib.set_state_by_int 0 (lib.set_config config (lib.construct config))))).0
        ≡ initiator_message lib config ssrc peer
  pub delivers_tgk :
      (sender receiver : MikeyTestConfig) (ssrc : ℕ) (peer tgk : Bytes)
      → sender.psk_string ≡ receiver.psk_string
      → sender.tgk_ptr ≡ some tgk
      → lib.get_tgk (
          lib.set_mikey_offer
            (lib.responder_authenticate
              (initiator_message lib sender ssrc peer)
              peer
              (lib.construct receiver)).1)
        ≡ tgk
  pub delivers_tgk_length :
      (sender receiver : MikeyTestConfig) (ssrc : ℕ) (peer tgk : Bytes)
      → sender.psk_string ≡ receiver.psk_string
      → sender.tgk_ptr ≡ some tgk
      → lib.get_tgk_length (
          lib.set_mikey_offer
            (lib.responder_authenticate
              (initiator_message lib sender ssrc peer)
              peer
              (lib.construct receiver)).1)
        ≡ length tgk
  pub delivers_conn_info :
      (sender receiver : MikeyTestConfig) (ssrc : ℕ) (peer : Bytes)
      → sender.psk_string ≡ receiver.psk_string
      → lib.get_conn_info (
          lib.set_mikey_offer
            (lib.responder_authenticate
              (initiator_message lib sender ssrc peer)
              peer
              (lib.construct receiver)).1)
        ≡ sender.conn_info
