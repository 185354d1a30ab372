-- ===== src/Kdc/Tgs.antt =====
-- krb5.patch: what the patch adds to `process_tgs_req` of the KDC (do_tgs_req.c): a request with the option
-- KDC_OPT_MIKEY makes the KDC look up the key of the GCKS and call `do_gcks_req`; and the option on its way
-- from the client (get_creds.c).
use kerberized_multimedia_in.Base.{
  ℕ, ◌+◌, ◌/◌, ◌%◌, ◌^◌, Bool, false, not, Option, none, Bytes, ◌==◌, if◌then◌else◌,
}
use kerberized_multimedia_in.CLib.{Outcome, returns, faults, uninitialised, ◌>>=◌, ◌>>◌}
use kerberized_multimedia_in.Mikey.{MikeyLib}
use kerberized_multimedia_in.Kdc.{GcksRequest, GcksLine, do_gcks_req}

-- KDC_OPT_MIKEY is 0x00400000, the bit 22: `isflagset(options, KDC_OPT_MIKEY)`, and
-- `options |= KDC_OPT_MIKEY`.
unfoldable pub is_mikey_set : ℕ → Bool
is_mikey_set options = options / 2 ^ 22 % 2 == 1

unfoldable pub set_mikey : ℕ → ℕ
unfolding is_mikey_set
set_mikey options = if is_mikey_set options then options else options + 2 ^ 22

-- The options that `krb5_get_credentials` asks the KDC for, from its own and those of the program.
unfoldable pub credentials_options : ℕ → ℕ → ℕ
unfolding set_mikey
credentials_options options kdcopt = if is_mikey_set options then set_mikey kdcopt else kdcopt

-- `status`, where the code sets it.
pub data Status : Type 0 where
  looking_up_gcks_principal_sname looking_up_gcks_principal looking_up_gcks : Status
  finding_gcks_key finding_master_key decrypt_gcks_key tkt_encrypt : Status

-- The name of a list of master keys.
abbrev pub KeyList : Type 0
KeyList = ℕ

-- What the calls give: their return values, and with them the number of entries that
-- `krb5_db_get_principal_ext` finds, the list that `krb5_db_fetch_mkey_list` fetches and the key that
-- `krb5_dbekd_decrypt_key_data` decrypts. `krb5_dbe_find_mkey` looks into the list it is given.
pub record Lookups : Type 0 where
  pub encrypt_tkt_part : ℕ
  pub sname_to_principal : ℕ
  pub get_principal : ℕ
  pub entries : ℕ
  pub find_enctype : ℕ
  pub find_mkey : KeyList → ℕ
  pub fetch_mkey_list : ℕ
  pub fetched : KeyList
  pub decrypt_key_data : ℕ
  pub gcks_key : Bytes

-- The error code of the search for the master key, and `master_keylist` after it: the list is fetched
-- anew if the key is not in it.
unfoldable pub find_master_key : Lookups → KeyList → ℕ × KeyList
find_master_key c keys =
    if c.find_mkey keys == 0
    then (0, keys)
    else if c.fetch_mkey_list == 0
    then (c.find_mkey c.fetched, c.fetched)
    else (c.find_mkey keys, keys)

-- The key of the GCKS, or the status and the error code with which the code goes to `cleanup`.
pub data KeyLookup : Type 0 where
  found : Bytes → KeyLookup
  failed : Status → ℕ → KeyLookup

unfoldable pub decrypt_key : Lookups → KeyLookup
decrypt_key c =
    if c.decrypt_key_data == 0 then found c.gcks_key else failed decrypt_gcks_key c.decrypt_key_data

-- With the entry of the GCKS, which is left uninitialised if none is found.
unfoldable pub key_of_entry : Lookups → KeyList → Outcome (KeyLookup × KeyList)
unfolding find_master_key decrypt_key
key_of_entry c keys =
    if c.entries == 0
    then faults uninitialised
    else if c.find_enctype == 0
    then (let (errcode, keys') = find_master_key c keys in
        returns
          ((if errcode == 0 then decrypt_key c else failed finding_master_key errcode), keys'))
    else returns (failed finding_gcks_key c.find_enctype, keys)

-- `krb5_unparse_name` of the principal, which is uninitialised where it has not been found.
abbrev pub principal_name : ℕ → Outcome (Unit {0})
principal_name retval = if retval == 0 then returns tt else faults uninitialised

-- The name of the principal is taken before the return value is tested.
unfoldable pub look_up_gcks : Lookups → KeyList → Outcome (KeyLookup × KeyList)
unfolding key_of_entry
look_up_gcks c keys =
    principal_name c.sname_to_principal
    >> (if not (c.sname_to_principal == 0)
        then returns (failed looking_up_gcks_principal_sname c.sname_to_principal, keys)
        else if not (c.sname_to_principal == 0)
        then returns (failed looking_up_gcks_principal c.sname_to_principal, keys)
        else if c.get_principal == 0
        then key_of_entry c keys
        else returns (failed looking_up_gcks c.get_principal, keys))

-- How the part ends: the KDC goes on with its reply, or to `cleanup`.
pub data Ended : Type 0 where
  replies : Ended
  cleans_up : Status → ℕ → Ended

-- What it has done: what went to the GCKS, `master_keylist`, and whether the key that the ticket was
-- encrypted with has been freed.
pub record Issued : Type 0 where
  pub sent : Option Bytes
  pub keys : KeyList
  pub freed : Bool
  pub ended : Ended

-- After the added part, with the error code that it leaves.
unfoldable pub after_gcks : Bool → ℕ → Option Bytes → KeyList → Issued
after_gcks enc_tkt_in_skey errcode sent keys = record {
  sent = sent;
  keys = keys;
  freed = not enc_tkt_in_skey;
  ended = if errcode == 0 then replies else cleans_up tkt_encrypt errcode;
}

module _ (lib : MikeyLib) where
  -- The arguments of `do_gcks_req`, but for the key of the GCKS. What it returns is dropped.
  unfoldable pub hand_on : Bool → GcksRequest → GcksLine → KeyLookup × KeyList → Outcome Issued
  unfolding after_gcks
  hand_on enc_tkt_in_skey request line (failed status errcode, keys) =
      returns (record { sent = none; keys = keys; freed = false; ended = cleans_up status errcode })
  hand_on enc_tkt_in_skey request line (found gcks_key, keys) = do
    sent ← do_gcks_req lib (record request { gcks_key = gcks_key }) line
    returns (after_gcks enc_tkt_in_skey 0 sent keys)

  -- From the encryption of the ticket to the test of its error code, for the options of the request.
  unfoldable pub issue_ticket :
      ℕ → Bool → Lookups → KeyList → GcksRequest → GcksLine → Outcome Issued
  unfolding is_mikey_set look_up_gcks hand_on after_gcks
  issue_ticket kdc_options enc_tkt_in_skey c keys request line =
      if is_mikey_set kdc_options
      then look_up_gcks c keys >>= hand_on enc_tkt_in_skey request line
      else returns (after_gcks enc_tkt_in_skey c.encrypt_tkt_part none keys)
