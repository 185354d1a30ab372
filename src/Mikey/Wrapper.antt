-- ===== src/Mikey/Wrapper.antt =====
-- kmtools/libmikey_wrapper.cxx: the C interface to libmikey, which the KDC calls. A C string that the
-- wrapper is given or gives back is its bytes without the NUL.
use kerberized_multimedia_in.Base.{ℕ, Option, some, Bytes, length, take, leb, if◌then◌else◌}
use kerberized_multimedia_in.CLib.{Outcome, returns, faults, out_of_bounds, ◌>>=◌, until_nul}
use kerberized_multimedia_in.Mikey.{MikeyLib, MikeyTestConfig, KaType, new_config}

-- The first `n` bytes behind a pointer, where it has as many.
abbrev pub bytes_at : Bytes → ℕ → Outcome Bytes
bytes_at memory n = if leb n (length memory) then returns (take n memory) else faults out_of_bounds

-- `call_MikeyTestConfig_Construct`
abbrev pub call_config_construct : MikeyTestConfig
call_config_construct = new_config

-- `call_MikeyTestConfig_getPSK`, as a C string.
abbrev pub call_config_get_psk : MikeyTestConfig → Bytes
call_config_get_psk config = until_nul config.psk_string

-- `call_MikeyTestConfig_setPSK`
unfoldable pub call_config_set_psk : MikeyTestConfig → Bytes → ℕ → Outcome MikeyTestConfig
call_config_set_psk config new_psk len = do
  key ← bytes_at new_psk len
  returns (record config { psk_string = key })

-- `call_MikeyTestConfig_getTGK`: the pointer itself, `none` where it is null.
abbrev call_config_get_tgk : MikeyTestConfig → Option Bytes
call_config_get_tgk config = config.tgk_ptr

-- `call_MikeyTestConfig_setTGK`: a copy, in a new array.
unfoldable pub call_config_set_tgk : MikeyTestConfig → Bytes → ℕ → Outcome MikeyTestConfig
call_config_set_tgk config new_tgk len = do
  key ← bytes_at new_tgk len
  returns (record config { tgk_ptr = some key; tgk_length = len })

-- `call_MikeyTestConfig_setConnInfo`: the pointer itself.
unfoldable pub call_config_set_conn_info : MikeyTestConfig → Bytes → MikeyTestConfig
call_config_set_conn_info config info = record config { conn_info = some info }

module _ (lib : MikeyLib) where
  open lib use {
    Mikey, construct, add_sender, get_tgk, get_tgk_length, set_config, set_state_by_int,
    initiator_create, responder_authenticate,
  }

  -- `call_Mikey_Construct`; the state 0 is STATE_START.
  unfoldable pub call_mikey_construct : MikeyTestConfig → Mikey
  call_mikey_construct config = set_state_by_int 0 (set_config config (construct config))

  -- `call_Mikey_getTGK`
  abbrev call_mikey_get_tgk : Mikey → Bytes
  call_mikey_get_tgk mikey = get_tgk mikey

  -- `call_Mikey_getTgkLength`
  abbrev call_mikey_get_tgk_length : Mikey → ℕ
  call_mikey_get_tgk_length mikey = get_tgk_length mikey

  -- `call_Mikey_addSender`
  abbrev pub call_mikey_add_sender : Mikey → ℕ → Mikey
  call_mikey_add_sender mikey ssrc = add_sender ssrc mikey

  -- `call_Mikey_initiatorCreate`: the text of the message up to its first NUL, in a new array.
  unfoldable pub call_mikey_initiator_create : Mikey → KaType → Bytes → Bytes × Mikey
  call_mikey_initiator_create mikey ka_type peer_uri =
      let (msg, mikey') = initiator_create ka_type peer_uri mikey in (until_nul msg, mikey')

  -- `call_Mikey_responderAuthenticate`: C has no `bool`.
  unfoldable pub call_mikey_responder_authenticate : Mikey → Bytes → Bytes → ℕ × Mikey
  call_mikey_responder_authenticate mikey message peer_uri =
      let (accepted, mikey') = responder_authenticate message peer_uri mikey in
      (if accepted then 1 else 0, mikey')
