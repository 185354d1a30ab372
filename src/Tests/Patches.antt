-- ===== src/Tests/Patches.antt =====
-- Runs of what the patches add to the KDC, to libkrb5 and to libmikey at concrete inputs.
use kerberized_multimedia_in.Base.{
  ℕ, ◌-◌, ◌≡◌, refl, true, false, none, some, Bytes, [], ◌∷◌, length, arith,
}
use kerberized_multimedia_in.CLib.{returns, faults, out_of_bounds, ◌>>=◌, in_bounds, c_str}
use kerberized_multimedia_in.Gcks2.{sent, serve_kdc}
use kerberized_multimedia_in.Gcks2.Forwards.{to_client}
use kerberized_multimedia_in.Kdc.Tgs.{
  Lookups, Issued, is_mikey_set, find_master_key, replies, cleans_up, looking_up_gcks, tkt_encrypt,
  issue_ticket, credentials_options,
}
use kerberized_multimedia_in.Kdc.Issues.{
  IsFound, issue_ticket_encrypt_failed, issue_ticket-forwarded,
}
use kerberized_multimedia_in.Libmikey.{
  GeneralExtension, MikeyState, start, initiator, responder, authenticated, error,
  conn_info_payload, read_extension, set_offer_conn_info, set_state_by_int,
}
use kerberized_multimedia_in.Libmikey.Extension.{
  laid_out, read_extension_branches, set_offer_conn_info-payload,
}
use kerberized_multimedia_in.Libmikey.State.{set_state_by_int-error}
use kerberized_multimedia_in.Recvauth.{multicast_group, krb5_recvauth_gcks}
use kerberized_multimedia_in.Recvauth.Group.{krb5_recvauth_gcks-group_authdata}
use kerberized_multimedia_in.Sclient1.CommandLine.{group_authdata}
use kerberized_multimedia_in.Tests.SimpleMikey.{
  simple_mikey, simple_mikey-IsMikey, simple_mikey-DeliversKey,
}
use kerberized_multimedia_in.Tests.Servers.{
  bob, request, line, network, network-Reaches, request-IsForwardable,
}

-- AP_OPTS_MUTUAL_REQUIRED | KDC_OPT_MIKEY, what the client of model 2 asks for, and what
-- `krb5_get_credentials` makes of it with KDC_OPT_CANONICALIZE.
abbrev pub options : ℕ
options = credentials_options 0x20400000 0x00010000

options_lem : options ≡ 0x00410000
unfolding credentials_options
options_lem = refl

pub options-is_mikey_set : is_mikey_set options ≡ true
unfolding is_mikey_set credentials_options
options-is_mikey_set = refl

-- A key of the GCKS under a master key that only the new list has.
abbrev pub lookups : Lookups
lookups = record {
  encrypt_tkt_part = 0;
  sname_to_principal = 0;
  get_principal = 0;
  entries = 1;
  find_enctype = 0;
  find_mkey = λ keys. 8 - keys;
  fetch_mkey_list = 0;
  fetched = 8;
  decrypt_key_data = 0;
  gcks_key = request.gcks_key;
}

pub lookups-IsFound : IsFound lookups 7
unfolding find_master_key
lookups-IsFound = record {
  principal = refl;
  entry = refl;
  not_empty = omega arith;
  enctype = refl;
  master_key = refl;
  decrypts = refl;
}

issue_ticket-forwarded_example :
    (message : Bytes) × (issue_ticket simple_mikey options false lookups 7 request line
      ≡ returns (record {
        sent = some message;
        keys = (find_master_key lookups 7).1;
        freed = true;
        ended = replies;
      }))
    × (serve_kdc simple_mikey (some request.gcks_key) (some message) network
        ≡ returns (
            sent request.from_string 9999
              (to_client simple_mikey request.session_key network.ssrc bob)))
issue_ticket-forwarded_example =
    issue_ticket-forwarded simple_mikey simple_mikey-IsMikey simple_mikey-DeliversKey options false
      lookups 7 request line bob (b'g' ∷ []) network options-is_mikey_set lookups-IsFound
      request-IsForwardable (refl, refl, refl, refl) network-Reaches

-- The database does not answer.
abbrev no_entry : Lookups
no_entry = record lookups { get_principal = 5 }

abbrev cleaned_up : Issued
cleaned_up = record { sent = none; keys = 7; freed = false; ended = cleans_up looking_up_gcks 5 }

issue_ticket_encrypt_failed_example :
    issue_ticket simple_mikey 0 false (record lookups { encrypt_tkt_part = 3 }) 7 request line
    ≡ returns (record { sent = none; keys = 7; freed = true; ended = cleans_up tkt_encrypt 3 })
unfolding is_mikey_set
issue_ticket_encrypt_failed_example =
    issue_ticket_encrypt_failed simple_mikey 0 false (record lookups { encrypt_tkt_part = 3 }) 7
      request line (omega arith)

-- A head that gives two bytes more than there are.
read_extension_branches_example :
    read_extension (1 ∷ 2 ∷ 0 ∷ 5 ∷ b'a' ∷ b'b' ∷ b'c' ∷ []) 7 ≡ faults out_of_bounds
read_extension_branches_example = read_extension_branches 1 2 0 5 (b'a' ∷ b'b' ∷ b'c' ∷ [])

set_offer_conn_info-payload_example :
    (sent received : GeneralExtension) × (conn_info_payload (some bob) ≡ returns (some sent))
    × (read_extension (laid_out 1 sent (9 ∷ [])) (length (laid_out 1 sent (9 ∷ [])))
        ≡ returns received)
    × (set_offer_conn_info (some received) none ≡ returns (some bob))
    × (c_str bob ≡ none)
set_offer_conn_info-payload_example =
    set_offer_conn_info-payload bob (9 ∷ []) 1 none (ground arith) (omega arith)

abbrev number : MikeyState → ℕ
number start = 0
number initiator = 1
number responder = 2
number authenticated = 3
number error = 4

set_state_by_int-error_example : set_state_by_int number 0 start ≡ error
set_state_by_int-error_example = set_state_by_int-error number start start

krb5_recvauth_gcks-group_authdata_example :
    (group_authdata (b'g' ∷ []) >>= λ contents.
    krb5_recvauth_gcks (some (record { ad_type = multicast_group; contents = contents } ∷ []))
    >>= λ group_data. in_bounds (c_str group_data))
    ≡ returns (b'g' ∷ [])
krb5_recvauth_gcks-group_authdata_example =
    krb5_recvauth_gcks-group_authdata (b'g' ∷ []) multicast_group [] (ground arith)
