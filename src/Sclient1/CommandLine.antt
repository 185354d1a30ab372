-- ===== src/Sclient1/CommandLine.antt =====
-- kmtools/sclient.cxx: the command line and its defaults (kmtools/sample.h), and the two texts that
-- go into the authentication request.
use kerberized_multimedia_in.Base.{
  ℕ, zero, suc, ◌+◌, Option, none, some, List, [], ◌∷◌, Bytes, length, replicate, ltb,
}
use kerberized_multimedia_in.CLib.{Outcome, returns, ◌>>◌, exit_if, deref, in_bounds, strncpy}

-- SAMPLE_PORT, "8888"
unfoldable pub sample_port : Bytes
sample_port = b'8' ∷ b'8' ∷ b'8' ∷ b'8' ∷ []

-- SAMPLE_SERVICE, "sample"
unfoldable pub sample_service : Bytes
sample_service = b's' ∷ b'a' ∷ b'm' ∷ b'p' ∷ b'l' ∷ b'e' ∷ []

-- "group1"
abbrev pub default_group : Bytes
default_group = b'g' ∷ b'r' ∷ b'o' ∷ b'u' ∷ b'p' ∷ b'1' ∷ []

-- `argv[i]`; `none` is the null pointer behind the last argument.
abbrev pub arg : List Bytes → ℕ → Option Bytes
arg [] i = none
arg (a ∷ argv) zero = some a
arg (a ∷ argv) (suc i) = arg argv i

abbrev pub or_default : Option Bytes → Bytes → Bytes
or_default none d = d
or_default (some a) d = a

-- What `main` takes from the command line.
pub record Arguments : Type 0 where
  pub hostname : Option Bytes
  pub port : Bytes
  pub service : Bytes
  pub group_name : Bytes
  pub cache_name : Option Bytes
  pub time_log : Option Bytes

-- More than six arguments end the client; each `if (argc > i)` takes `argv[i]` or leaves the default.
unfoldable pub parse_arguments : List Bytes → Outcome Arguments
unfolding sample_port sample_service
parse_arguments argv = do
  exit_if (ltb 7 (length argv)) 1
  returns (record {
    hostname = arg argv 1;
    port = or_default (arg argv 2) sample_port;
    service = or_default (arg argv 3) sample_service;
    group_name = or_default (arg argv 4) default_group;
    cache_name = arg argv 5;
    time_log = arg argv 6;
  })

-- `cksum_data`: `argv[3]` itself, which is a null pointer (or lies behind the arguments) where the
-- service was left to its default.
unfoldable pub checksum_data : List Bytes → Outcome Bytes
checksum_data argv = deref (arg argv 3)

-- The contents of the authorization data that carry the group's name to the GCKS: `strlen + 1`
-- bytes, zeroed, and the name.
unfoldable pub group_authdata : Bytes → Outcome Bytes
group_authdata group_name =
    in_bounds (strncpy (replicate (length group_name + 1) 0) group_name (length group_name))
