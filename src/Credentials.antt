-- ===== src/Credentials.antt =====
-- kmtools/sclient.cxx (and sclient2.cxx): `obtain_credentials`. The functions of libkrb5 are not part
-- of the repository: their results are arguments, and the calls made are recorded.
pub mod Ownership
use kerberized_multimedia_in.Base.{
  ℕ, Bool, true, false, Option, none, some, List, [], ◌∷◌, ◌++◌, ◌==◌, if◌then◌else◌,
}

-- The name of an allocated object.
abbrev pub Pointer : Type 0
Pointer = ℕ

-- `krb5_creds`, as far as the function sets it.
pub record Creds : Type 0 where
  pub server : Option Pointer
  pub client : Option Pointer

-- A call of libkrb5. The first three return an error code (0 on success) and an object.
pub data Call : Type 0 where
  copy_principal cc_get_principal get_credentials : ℕ → Pointer → Call
  free_principal : Option Pointer → Call
  free_cred_contents : Creds → Call
  free_creds : Pointer → Call

-- What the calls give: the error code, and the object where that is 0.
pub record Krb5Results : Type 0 where
  pub copy_server : ℕ × Pointer
  pub copy_client : ℕ × Pointer
  pub default_client : ℕ × Pointer
  pub credentials : ℕ × Pointer

pub record Obtained : Type 0 where
  pub retval : ℕ
  -- `*out_creds`, where the function sets it
  pub out_creds : Option Pointer
  pub calls : List Call

-- From the label `error_return` on.
abbrev pub error_return : Creds → Option Pointer → ℕ → List Call → Obtained
error_return creds none retval calls = record {
  retval = retval;
  out_creds = none;
  calls = calls ++ (free_cred_contents creds ∷ []);
}
error_return creds (some credspout) retval calls = record {
  retval = retval;
  out_creds = none;
  calls = calls ++ (free_cred_contents creds ∷ free_creds credspout ∷ []);
}

-- The client's name: a copy of the one given, or that of the credentials cache.
abbrev pub client_call : Bool → ℕ × Pointer → Call
client_call true (r, p) = copy_principal r p
client_call false (r, p) = cc_get_principal r p

abbrev pub client_result : Krb5Results → Bool → ℕ × Pointer
client_result krb5 true = krb5.copy_client
client_result krb5 false = krb5.default_client

-- With both names in `creds`; `wants_creds` says whether `out_creds` is not null.
pub get_creds : ℕ × Pointer → Bool → Creds → List Call → Obtained
get_creds (r, credsp) wants_creds creds calls =
    let made = calls ++ (get_credentials r credsp ∷ []) in
    if r == 0
    then (if wants_creds
        then record { retval = 0; out_creds = some credsp; calls = made }
        else error_return creds (some credsp) 0 made)
    else error_return creds none r made

-- With the server's name in `creds`. A failing lookup of the client frees the server's name before
-- it goes to `error_return`, which frees what `creds` holds.
pub get_client : Krb5Results → Bool → Bool → Pointer → List Call → Obtained
unfolding get_creds
get_client krb5 has_client wants_creds server calls =
    let (r, client) = client_result krb5 has_client in
    let made = calls ++ (client_call has_client (r, client) ∷ []) in
    if r == 0
    then get_creds krb5.credentials wants_creds
        (record { server = some server; client = some client }) made
    else error_return (record { server = some server; client = none }) none r
        (made ++ (free_principal (some server) ∷ []))

-- `has_client` says whether the argument `client` is not null.
unfoldable pub obtain_credentials : Krb5Results → Bool → Bool → Obtained
unfolding get_client
obtain_credentials krb5 has_client wants_creds =
    let (r, server) = krb5.copy_server in
    let made = copy_principal r server ∷ [] in
    if r == 0
    then get_client krb5 has_client wants_creds server made
    else error_return (record { server = none; client = none }) none r made
