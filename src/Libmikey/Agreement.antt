-- ===== src/Libmikey/Agreement.antt =====
-- minisip.patch: the key that a message carries, for the configurations of the KDC and of the group key
-- server of model 1.
use kerberized_multimedia_in.Base.{◌≡◌, refl, true, leb, some, none, Bytes, length, take_all, arith}
use kerberized_multimedia_in.CLib.{returns}
use kerberized_multimedia_in.ConnInfo.{format_conn_info}
use kerberized_multimedia_in.Gcks1.{Connection, server_config}
use kerberized_multimedia_in.Kdc.{GcksRequest}
use kerberized_multimedia_in.Kdc.Message.{kdc_config}
use kerberized_multimedia_in.Libmikey.{create_key_agreement}
use kerberized_multimedia_in.Mikey.{MikeyLib, new_config}

-- The KDC hands on the session key of the client and its connection information; the server of model 1
-- hands out a key that libmikey generates, and no connection information.
create_key_agreement_tgk :
    (r : GcksRequest) (cname sname : Bytes) (lib : MikeyLib) (c : Connection) (generated : Bytes)
    → (create_key_agreement (kdc_config r cname sname) generated
        ≡ returns (record {
          tgk = r.session_key;
          conn_info = some (format_conn_info cname r.from_string r.from_port sname);
        }))
      × (create_key_agreement (server_config lib c) generated
          ≡ returns (record { tgk = generated; conn_info = none }))
unfolding create_key_agreement new_config
create_key_agreement_tgk r cname sname lib c generated =
    let fits : leb (length r.session_key) (length r.session_key) ≡ true = ground arith in
    (rw (fits, take_all (length r.session_key) r.session_key (omega arith)), refl)
