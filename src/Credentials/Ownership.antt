-- ===== src/Credentials/Ownership.antt =====
-- Which objects `obtain_credentials` (kmtools/sclient.cxx) acquires, releases and hands out.
use kerberized_multimedia_in.Base.{
  ℕ, ◌≡◌, ◌≢◌, ◌⊎◌, Bool, true, Option, none, some, List, [], ◌∷◌, ◌++◌, ◌==◌, if◌then◌else◌, arith,
}
use mathlib.Core.List.{reverse}
use kerberized_multimedia_in.Credentials.{
  Pointer, Call, copy_principal, cc_get_principal, get_credentials, free_principal,
  free_cred_contents, free_creds, Krb5Results, client_result, obtain_credentials,
}

abbrev given : Option Pointer → List Pointer
given none = []
given (some p) = p ∷ []

abbrev produced : ℕ → Pointer → List Pointer
produced r p = if r == 0 then p ∷ [] else []

-- The objects that calls allocate: those that return 0.
abbrev pub acquired : List Call → List Pointer
acquired [] = []
acquired (copy_principal r p ∷ calls) = produced r p ++ acquired calls
acquired (cc_get_principal r p ∷ calls) = produced r p ++ acquired calls
acquired (get_credentials r p ∷ calls) = produced r p ++ acquired calls
acquired (_ ∷ calls) = acquired calls

-- The objects that calls free, by the documentation of libkrb5: freeing the contents of `creds`
-- frees its client and its server, and a null pointer is not freed.
abbrev pub released : List Call → List Pointer
released [] = []
released (free_principal p ∷ calls) = given p ++ released calls
released (free_cred_contents creds ∷ calls) =
    given creds.client ++ (given creds.server ++ released calls)
released (free_creds p ∷ calls) = p ∷ released calls
released (_ ∷ calls) = released calls

module _ (krb5 : Krb5Results) (has_client : Bool) where
  -- When the server's name cannot be copied or the ticket cannot be got, the error code of the first of
  -- these calls that fails is returned, nothing is handed out, and each object acquired is released once,
  -- the last one first. The client's name can be found.
  pub obtain_credentials-fails :
      (wants_creds : Bool)
      → (client_result krb5 has_client).0 ≡ 0
      → (krb5.copy_server.0 ≢ 0) ⊎ (krb5.credentials.0 ≢ 0)
      → let got = obtain_credentials krb5 has_client wants_creds in
        (got.retval ≡ (if krb5.copy_server.0 == 0 then krb5.credentials.0 else krb5.copy_server.0))
        × (got.retval ≢ 0)
        × (got.out_creds ≡ none)
        × (released got.calls ≡ reverse (acquired got.calls))
  unfolding obtain_credentials
  obtain_credentials-fails wants_creds c f = ground arith

  -- When the server's name is copied and the client's cannot be found, the error code of that lookup
  -- is returned, nothing is handed out, and the one object acquired, the server's name, is released
  -- twice.
  pub obtain_credentials_double_free :
      (wants_creds : Bool)
      → krb5.copy_server.0 ≡ 0
      → (client_result krb5 has_client).0 ≢ 0
      → let got = obtain_credentials krb5 has_client wants_creds in
        (got.retval ≡ (client_result krb5 has_client).0)
        × (got.out_creds ≡ none)
        × (acquired got.calls ≡ krb5.copy_server.1 ∷ [])
        × (released got.calls ≡ krb5.copy_server.1 ∷ krb5.copy_server.1 ∷ [])
  unfolding obtain_credentials
  obtain_credentials_double_free wants_creds s c = ground arith

  -- When all succeeds and the caller takes the credentials, they are handed out with return value 0,
  -- and none of the three objects acquired is released: neither are the copies of the two names,
  -- which nothing refers to any more.
  pub obtain_credentials-succeeds :
      krb5.copy_server.0 ≡ 0
      → (client_result krb5 has_client).0 ≡ 0
      → krb5.credentials.0 ≡ 0
      → let got = obtain_credentials krb5 has_client true in
        (got.retval ≡ 0)
        × (got.out_creds ≡ some krb5.credentials.1)
        × (acquired got.calls
            ≡ krb5.copy_server.1 ∷ (client_result krb5 has_client).1 ∷ krb5.credentials.1 ∷ [])
        × (released got.calls ≡ [])
  unfolding obtain_credentials
  obtain_credentials-succeeds s c g = ground arith
