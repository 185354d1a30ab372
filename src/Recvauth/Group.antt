-- ===== src/Recvauth/Group.antt =====
-- krb5.patch and kmtools/sclient.cxx: the name of the group on its way to the group key server of model 1.
use kerberized_multimedia_in.Base.{ℕ, ◌≡◌, refl, none, some, List, [], ◌∷◌, Option, Bytes}
use kerberized_multimedia_in.CLib.{returns, faults, null_pointer, ◌>>=◌, in_bounds, c_str}
use kerberized_multimedia_in.CLib.StrLaws.{NoNul}
use kerberized_multimedia_in.Sclient1.CommandLine.{group_authdata}
use kerberized_multimedia_in.Sclient1.Requests.{c_str-group_authdata}
use kerberized_multimedia_in.Recvauth.{
  Authdata, krb5_recvauth, krb5_recvauth_version, krb5_recvauth_gcks,
}

-- A client that names its group is understood: the server that takes the contents of the first
-- authorization data for a string reads the name, whatever their type is and whatever follows them.
pub krb5_recvauth_gcks-group_authdata :
    (group_name : Bytes) (ad_type : ℕ) (later : List Authdata)
    → NoNul group_name
    → (group_authdata group_name >>= λ contents.
        krb5_recvauth_gcks (some (record { ad_type = ad_type; contents = contents } ∷ later))
        >>= λ group_data. in_bounds (c_str group_data))
      ≡ returns group_name
unfolding krb5_recvauth_gcks
krb5_recvauth_gcks-group_authdata group_name ad_type later clean =
    let (authdata, made, string, len) = c_str-group_authdata group_name clean in rw (made, string)

-- A client without authorization data makes the group key server read a null pointer, and so does every
-- client for the programs that use the two functions of libkrb5 that were there before.
pub recvauth_null_pointer :
    (authorization_data : Option (List Authdata))
    → (krb5_recvauth_gcks none ≡ faults null_pointer)
      × (krb5_recvauth authorization_data ≡ faults null_pointer)
      × (krb5_recvauth_version authorization_data ≡ faults null_pointer)
unfolding krb5_recvauth_gcks krb5_recvauth krb5_recvauth_version
recvauth_null_pointer none = (refl, refl, refl)
recvauth_null_pointer (some []) = (refl, refl, refl)
recvauth_null_pointer (some (a ∷ authdata)) = (refl, refl, refl)
