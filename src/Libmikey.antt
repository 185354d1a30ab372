-- ===== src/Libmikey.antt =====
-- minisip.patch: what the patch adds to libmikey for Kerberos: the general extension with the connection
-- information (MikeyPayloadGeneralExtension.cxx, MikeyMessagePSK.cxx), the choice of the key
-- (`createKeyAgreement` in Mikey.cxx) and `setStateByInt`.
pub mod Extension
pub mod State
pub mod Agreement
pub mod DummyMap
use kerberized_multimedia_in.Base.{
  ℕ, zero, suc, ◌+◌, ◌-◌, ◌*◌, ◌%◌, Option, none, some, [], ◌∷◌, Bytes, length, drop, ◌==◌,
  if◌then◌else◌,
}
use kerberized_multimedia_in.CLib.{
  Outcome, returns, faults, out_of_bounds, ◌>>=◌, in_bounds, strncpy, until_nul, zeroed,
}
use kerberized_multimedia_in.Mikey.{MikeyTestConfig}
use kerberized_multimedia_in.Mikey.Wrapper.{bytes_at}
use mathlib.Core.Option

-- `MikeyPayloadGeneralExtensions`, as far as the patch uses it; `data` is the array.
pub record GeneralExtension : Type 0 where
  pub type : ℕ
  pub leng : ℕ
  pub contents : Bytes

-- `MIKEY_EXT_TYPE_KRB5_ID`
abbrev pub krb5_id : ℕ
krb5_id = 2

-- `for(i = 0; i < n; i++) dst[i] = src[i];`, over what is left of both arrays: a fault where one of them
-- ends before.
unfoldable pub copy_bytes : ℕ → Bytes → Bytes → Outcome Bytes
copy_bytes zero src dst = returns dst
copy_bytes (suc n) [] dst = faults out_of_bounds
copy_bytes (suc n) (b ∷ src) [] = faults out_of_bounds
copy_bytes (suc n) (b ∷ src) (d ∷ dst) = do copied ← copy_bytes n src dst; returns (b ∷ copied)

-- The constructor of a sender. The length in the payload has 16 bits.
unfoldable pub new_extension : ℕ → ℕ → Bytes → Outcome GeneralExtension
new_extension type len memory = do
  copied ← copy_bytes len memory (zeroed len)
  returns (record { type = type; leng = len % 65536; contents = copied })

abbrev byte_at : Bytes → ℕ → Outcome ℕ
byte_at [] i = faults out_of_bounds
byte_at (b ∷ bs) zero = returns b
byte_at (b ∷ bs) (suc i) = byte_at bs i

-- The constructor of a receiver, for the bytes from `start` to the end of the message, of which the base
-- class has taken the first. The length is what the message says.
unfoldable pub read_extension : Bytes → ℕ → Outcome GeneralExtension
read_extension start length_limit = do
  type ← byte_at start 1
  hi ← byte_at start 2
  lo ← byte_at start 3
  let leng = hi * 256 + lo
  copied ← copy_bytes leng (drop 4 start) (zeroed (length_limit - 4))
  returns (record { type = type; leng = leng; contents = copied })

-- The payload that the constructor of `MikeyMessagePSK` adds where there is connection information: the
-- string without its NUL.
unfoldable pub conn_info_payload : Option Bytes → Outcome (Option GeneralExtension)
conn_info_payload none = returns none
conn_info_payload (some conn_info) = do
  let text = until_nul conn_info
  payload ← new_extension krb5_id (length text) text
  returns (some payload)

-- What `strncpy` reads of an array, `n` bytes at most; `none` where the array ends before.
unfoldable pub at_most : ℕ → Bytes → Option Bytes
at_most zero bs = some []
at_most (suc n) [] = none
at_most (suc n) (b ∷ bs) = if b == 0 then some [] else Option.map (◌∷◌ b) (at_most n bs)

-- What `setOffer` does with a payload of this class: the connection information of the key agreement
-- is an array of `leng` bytes.
unfoldable pub set_offer_conn_info : Option GeneralExtension → Option Bytes → Outcome (Option Bytes)
set_offer_conn_info none conn_info = returns conn_info
set_offer_conn_info (some e) conn_info =
    if e.type == krb5_id
    then (do
      text ← in_bounds (at_most e.leng e.contents)
      buf ← in_bounds (strncpy (zeroed e.leng) text e.leng)
      returns (some buf))
    else returns conn_info

-- A key agreement with a pre-shared key, as far as `createKeyAgreement` sets it.
pub record KeyAgreementPsk : Type 0 where
  pub tgk : Bytes
  pub conn_info : Option Bytes

-- The key of the configuration, or the one that `generateTgk` gives.
unfoldable pub chosen_tgk : MikeyTestConfig → Bytes → Outcome Bytes
chosen_tgk config generated = elim config.tgk_ptr [
  | none ↦ returns generated
  | some memory ↦ bytes_at memory config.tgk_length
]

unfoldable pub create_key_agreement : MikeyTestConfig → Bytes → Outcome KeyAgreementPsk
unfolding chosen_tgk
create_key_agreement config generated = do
  tgk ← chosen_tgk config generated
  returns (record { tgk = tgk; conn_info = config.conn_info })

-- The states of `class Mikey`.
pub data MikeyState : Type 0 where
  start initiator responder authenticated error : MikeyState

module _ (number : MikeyState → ℕ) where
  -- The cases of the `switch`, each with those that it falls through to.
  abbrev case_error : MikeyState → MikeyState
  case_error state = error

  abbrev case_authenticated : MikeyState → MikeyState
  case_authenticated state = case_error authenticated

  abbrev case_responder : MikeyState → MikeyState
  case_responder state = case_authenticated responder

  abbrev case_initiator : MikeyState → MikeyState
  case_initiator state = case_responder initiator

  abbrev case_start : MikeyState → MikeyState
  case_start state = case_initiator start

  -- `setStateByInt`, for the numbers that the enumeration gives to the states.
  unfoldable pub set_state_by_int : ℕ → MikeyState → MikeyState
  set_state_by_int new_state state =
      if new_state == number start
      then case_start state
      else if new_state == number initiator
      then case_initiator state
      else if new_state == number responder
      then case_responder state
      else if new_state == number authenticated
      then case_authenticated state
      else if new_state == number error
      then case_error state
      else state
