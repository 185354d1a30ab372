-- ===== src/Sclient1/Requests.antt =====
-- What the client of kmtools/sclient.cxx sends, and where it stops before.
use kerberized_multimedia_in.Base.{
  ℕ, zero, suc, ◌+◌, ◌≤◌, ◌≡◌, refl, Bool, true, none, some, List, [], ◌∷◌, Bytes, length,
  replicate, arith, ap, ◌∙◌, ◌==◌, take_all, length-replicate, inl, inr, Option-cases,
}
use kerberized_multimedia_in.CLib.{returns, faults, null_pointer, uninitialised, c_str}
use kerberized_multimedia_in.CLib.StrLaws.{NoNul, c_str-strncpy, length-strncpy}
use kerberized_multimedia_in.ConnInfo.Tokens.{drop-replicate}
use kerberized_multimedia_in.Credentials.{obtain_credentials}
use kerberized_multimedia_in.Mikey.{MikeyLib}
use kerberized_multimedia_in.Sclient1.{World, set_up, request, run_client}
use kerberized_multimedia_in.Sclient1.CommandLine.{arg, Arguments, checksum_data, group_authdata}
use kerberized_multimedia_in.Sclient1.Connect.{Address, find_socket}
use kerberized_multimedia_in.Timing.{Timespec}

-- The authorization data are the group's name and a NUL, which the server reads as a string.
pub c_str-group_authdata :
    (group_name : Bytes)
    → NoNul group_name
    → (authdata : Bytes) × (group_authdata group_name ≡ returns authdata)
      × (c_str authdata ≡ some group_name)
      × (length authdata ≡ length group_name + 1)
unfolding group_authdata
c_str-group_authdata group_name clean =
    let n = length group_name in
    let (b, copied, string) =
      c_str-strncpy (replicate (n + 1) 0) group_name n
        (omega (arith, length-replicate {A = ℕ} (n + 1) 0)) (drop-replicate n (n + 1) refl) clean in
    (
      b,
      rw copied,
      string ∙ ap some (take_all n group_name (omega arith)),
      length-strncpy (replicate (n + 1) 0) group_name n copied ∙ length-replicate {A = ℕ} (n + 1) 0,
    )

-- The addresses with other results of `connect`.
abbrev pub with_connects : (Address → Bool) → List Address → List Address
with_connects f [] = []
with_connects f (ap ∷ aps) = record ap { connects = f ap } ∷ with_connects f aps

-- The client goes on with the same socket whether `connect` succeeds on it or not.
pub find_socket-with_connects :
    (f : Address → Bool) (aps : List Address) → find_socket (with_connects f aps) ≡ find_socket aps
unfolding find_socket
find_socket-with_connects f [] = refl
find_socket-with_connects f (ap ∷ aps) = elim (Option-cases ap.socket) [
  | inl failed ↦ simp (failed, find_socket-with_connects f aps)
  | inr (sock, made) ↦ simp made
]

arg_end : (argv : List Bytes) (i : ℕ) → length argv ≤ i → arg argv i ≡ none
arg_end [] i h = refl
arg_end (a ∷ argv) zero h = absurd (omega arith)
arg_end (a ∷ argv) (suc i) h = arg_end argv i (omega arith)

module _ (lib : MikeyLib) where
  -- A client without a service argument, which its usage text calls optional, reads a null pointer
  -- once its socket is there.
  pub run_client_no_service :
      (w : World) (argv : List Bytes) (arguments : Arguments) (sock : ℕ) (start_ts : Timespec)
      → set_up w argv ≡ returns (arguments, sock, start_ts)
      → length argv ≤ 3
      → run_client lib w argv ≡ faults null_pointer
  unfolding run_client request checksum_data
  run_client_no_service w argv arguments sock start_ts ready few = rw (ready, arg_end argv 3 few)

  -- A client that gets no ticket does not stop at the return value of `obtain_credentials`, and reads
  -- the pointer that this has not set.
  pub run_client_no_ticket :
      (w : World) (argv : List Bytes) (arguments : Arguments) (sock : ℕ) (start_ts : Timespec)
      (service : Bytes)
      → set_up w argv ≡ returns (arguments, sock, start_ts)
      → arg argv 3 ≡ some service
      → w.cc_resolve ≡ 0
      → w.cc_get_principal ≡ 0
      → w.unparse_name ≡ 0
      → (obtain_credentials w.krb5 true true).out_creds ≡ none
      → run_client lib w argv ≡ faults uninitialised
  unfolding run_client request checksum_data
  run_client_no_ticket w argv arguments sock start_ts service ready given c p n lost =
      let c' : (w.cc_resolve == 0) ≡ true = ground (arith, c) in
      let p' : (w.cc_get_principal == 0) ≡ true = ground (arith, p) in
      let n' : (w.unparse_name == 0) ≡ true = ground (arith, n) in
      rw (ready, given, c', p', n', lost)
