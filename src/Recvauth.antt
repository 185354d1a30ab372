-- ===== src/Recvauth.antt =====
-- krb5.patch: what the patch adds to `recvauth_common` of libkrb5 (recvauth.c) and its three callers: the
-- group key server of model 1 gets the name of the group from the client's authorization data.
pub mod Group
use kerberized_multimedia_in.Base.{
  ℕ, Bool, true, false, Option, none, some, List, [], ◌∷◌, Bytes, if◌then◌else◌,
}
use kerberized_multimedia_in.CLib.{Outcome, returns, faults, null_pointer, ◌>>=◌, deref}

-- `krb5_authdata`
pub record Authdata : Type 0 where
  pub ad_type : ℕ
  pub contents : Bytes

-- `KRB5_AUTHDATA_MULTICAST_GROUP`
abbrev pub multicast_group : ℕ
multicast_group = 72

-- The first element of an array that a null pointer ends.
abbrev first_of : List Authdata → Option Authdata
first_of [] = none
first_of (a ∷ authdata) = some a

-- The end of `recvauth_common`, where the client has authenticated: what is written to
-- `multicast_group->data`, for whether that pointer is one, and for the authorization data of the
-- authenticator (`none` for a null pointer).
unfoldable pub recvauth_end : Bool → Option (List Authdata) → Outcome Bytes
recvauth_end wants_group authorization_data = do
  authdata ← deref authorization_data
  first ← deref (first_of authdata)
  if wants_group then returns first.contents else faults null_pointer

-- The callers, from there on.
unfoldable pub krb5_recvauth : Option (List Authdata) → Outcome Bytes
unfolding recvauth_end
krb5_recvauth authorization_data = recvauth_end false authorization_data

unfoldable pub krb5_recvauth_version : Option (List Authdata) → Outcome Bytes
unfolding recvauth_end
krb5_recvauth_version authorization_data = recvauth_end false authorization_data

unfoldable pub krb5_recvauth_gcks : Option (List Authdata) → Outcome Bytes
unfolding recvauth_end
krb5_recvauth_gcks authorization_data = recvauth_end true authorization_data
