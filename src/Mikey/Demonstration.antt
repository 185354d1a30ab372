-- ===== src/Mikey/Demonstration.antt =====
-- kmtools/main.c: a run of the C interface to libmikey, which prints what it gets.
use kerberized_multimedia_in.Base.{
  ℕ, ◌≡◌, refl, ap, sym, ◌∙◌, Bool, true, [], ◌∷◌, ◌++◌, Bytes, length, ltb,
}
use kerberized_multimedia_in.CLib.{Outcome, returns, ◌>>=◌, until_nul}
use kerberized_multimedia_in.CLib.StrLaws.{until_nul-NoNul}
use kerberized_multimedia_in.Mikey.{
  MikeyLib, MikeyTestConfig, IsMikey, DeliversKey, psk, new_config, get_uri,
}
use kerberized_multimedia_in.Mikey.Wrapper.{
  call_config_construct, call_config_set_psk, call_config_get_psk, call_mikey_construct,
  call_mikey_add_sender, call_mikey_initiator_create, call_mikey_responder_authenticate,
}

-- "MIKEY_PSK"
abbrev mikey_psk : Bytes
mikey_psk = b'M' ∷ b'I' ∷ b'K' ∷ b'E' ∷ b'Y' ∷ b'_' ∷ b'P' ∷ b'S' ∷ b'K' ∷ []

-- The array of the literal, of which `sizeof` counts the NUL too.
abbrev psk_array : Bytes
psk_array = mikey_psk ++ (0 ∷ [])

-- The peer, "jeffrey/admin@LOCALHOST".
abbrev demo_peer : Bytes
demo_peer = get_uri new_config

-- What is printed: the key, the message, and whether it is authenticated.
record Printed : Type 0 where
  config_psk : Bytes
  sender_message : Bytes
  success : Bool

module _ (lib : MikeyLib) where
  -- `main`, for the number that `rand` gives.
  demonstration : ℕ → Outcome Printed
  unfolding call_config_set_psk call_mikey_construct call_mikey_initiator_create
      call_mikey_responder_authenticate
  demonstration ssrc = do
    config ← call_config_set_psk call_config_construct psk_array (length psk_array)
    let mikey = call_mikey_add_sender lib (call_mikey_construct lib config) ssrc
    let (message, mikey') = call_mikey_initiator_create lib mikey psk demo_peer
    let (errcode, mikey'') = call_mikey_responder_authenticate lib mikey' message demo_peer
    returns (record {
      config_psk = call_config_get_psk config;
      sender_message = message;
      success = ltb 0 errcode;
    })

  -- The key is printed without the NUL that belongs to it, and the message that is printed is one that
  -- a receiver accepts whose key has the NUL too.
  demonstration_lem :
      IsMikey lib
      → DeliversKey lib
      → (ssrc : ℕ) (receiver : MikeyTestConfig) → receiver.psk_string ≡ psk_array
      → (printed : Printed) × (demonstration ssrc ≡ returns printed)
        × (printed.config_psk ≡ mikey_psk)
        × ((lib.responder_authenticate printed.sender_message demo_peer (lib.construct receiver)).0
            ≡ true)
  unfolding demonstration call_mikey_construct call_mikey_initiator_create until_nul
  demonstration_lem promised delivers ssrc receiver key =
      let config = record new_config { psk_string = psk_array } in
      let whole =
        ap until_nul (delivers.starts config ssrc demo_peer)
        ∙ until_nul-NoNul _ (promised.message_text config ssrc demo_peer) in
      (
        _,
        refl,
        refl,
        ap (λ m. (lib.responder_authenticate m demo_peer (lib.construct receiver)).0) whole
            ∙ promised.accepts config receiver ssrc demo_peer (sym key),
      )
