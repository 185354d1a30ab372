-- ===== src/Gcks1/Setup.antt =====
-- kmtools/gcks1.cxx: `main` before its loop, and the whole run.
use kerberized_multimedia_in.Base.{
  ℕ, ◌-◌, ◌%◌, ◌^◌, Bool, false, not, Option, none, some, List, [], ◌∷◌, Bytes, ◌==◌, ltb,
  if◌then◌else◌,
}
use kerberized_multimedia_in.Base.Ints.{ℤ, pos, negsuc, sub_ℕ}
use kerberized_multimedia_in.CLib.{
  Outcome, returns, exits, faults, overflow, ◌>>=◌, ◌>>◌, exit_if, atoi,
}
use kerberized_multimedia_in.Mikey.{MikeyLib}
use kerberized_multimedia_in.Gcks1.{Connection, serve_all}
use kerberized_multimedia_in.Sclient1.CommandLine.{sample_service}

-- What `getopt(argc, argv, "p:S:s:")` gives, one by one: an option with its argument, or '?'. A keytab
-- comes with the return value of `krb5_kt_resolve` for it.
pub data Opt : Type 0 where
  port_option : Bytes → Opt
  service_option : Bytes → Opt
  keytab_option : Bytes → ℕ → Opt
  unknown_option : Opt

-- `port` is a `short`.
pub record Settings : Type 0 where
  pub port : ℤ
  pub service : Bytes
  pub keytab : Option Bytes

-- The value of an `int` in a `short` of 16 bits.
unfoldable pub to_short : ℤ → ℤ
to_short (pos n) = let r = n % 2 ^ 16 in if ltb r (2 ^ 15) then pos r else sub_ℕ r (2 ^ 16)
to_short (negsuc n) =
    let r = 2 ^ 16 - 1 - n % 2 ^ 16 in if ltb r (2 ^ 15) then pos r else sub_ℕ r (2 ^ 16)

-- `port = atoi(s)`
unfoldable pub short_port : Bytes → Outcome ℤ
unfolding to_short
short_port s = elim (atoi s) [ none ↦ faults overflow | some n ↦ returns (to_short n) ]

-- The loop over the options.
unfoldable pub take_options : List Opt → Settings → Outcome Settings
take_options [] settings = returns settings
take_options (port_option arg ∷ opts) settings = do
  port ← short_port arg
  take_options opts (record settings { port = port })
take_options (service_option arg ∷ opts) settings =
    take_options opts (record settings { service = arg })
take_options (keytab_option arg retval ∷ opts) settings =
    exit_if (not (retval == 0)) 2 >> take_options opts (record settings { keytab = some arg })
take_options (unknown_option ∷ opts) settings = exits 1

-- `argc` and `argv` stand at the arguments behind the options: with two of them or more, the second
-- one is a port.
unfoldable pub port_at_end : List Bytes → Settings → Outcome Settings
port_at_end [] settings = returns settings
port_at_end (first ∷ []) settings = returns settings
port_at_end (first ∷ second ∷ _) settings = do
  port ← short_port second
  returns (record settings { port = port })

-- What the calls before the loop give: `getpeername` is called on the standard input where no port is
-- given.
pub record Start : Type 0 where
  pub clock_getres : Bool
  pub clock_prev : Bool
  pub init_context : ℕ
  pub options : List Opt
  pub operands : List Bytes
  pub sname_to_principal : ℕ
  pub socket : Option ℕ
  pub binds : Bool
  pub peername : Bool

abbrev opened : Option ℕ → Outcome (Option ℕ)
opened none = exits 3
opened (some sock) = returns (some sock)

abbrev pub is_zero : ℤ → Bool
is_zero (pos n) = n == 0
is_zero (negsuc n) = false

-- The listening socket; `none` is the -1 that `sock` holds where no port is given.
unfoldable pub open_socket : Start → ℤ → Outcome (Option ℕ)
open_socket s port =
    if is_zero port
    then exit_if (not s.peername) 1 >> returns none
    else (opened s.socket >>= λ sock. exit_if (not s.binds) 3 >> returns sock)

unfoldable pub set_up : Start → Outcome (Option ℕ)
unfolding take_options port_at_end open_socket
set_up s = do
  exit_if (not s.clock_getres) 0
  exit_if (not s.clock_prev) 0
  exit_if (not (s.init_context == 0)) 1
  parsed ← take_options s.options (record { port = pos 0; service = sample_service; keytab = none })
  settings ← port_at_end s.operands parsed
  exit_if (not (s.sname_to_principal == 0)) 1
  open_socket s settings.port

module _ (lib : MikeyLib) where
  -- The loop on a socket: `listen(-1, 2)` fails at once.
  abbrev pub serve_on : Option ℕ → List Connection → Bytes → List Bytes × Outcome Bytes
  serve_on none cs repbuf = ([], exits 3)
  serve_on (some sock) cs repbuf = serve_all lib cs repbuf

  abbrev pub started : Outcome (Option ℕ) → List Connection → Bytes → List Bytes × Outcome Bytes
  started (returns sock) cs repbuf = serve_on sock cs repbuf
  started (exits n) cs repbuf = ([], exits n)
  started (faults e) cs repbuf = ([], faults e)

  -- `main`, for the clients that come: the answers sent, and how it ended.
  unfoldable pub run_server : Start → List Connection → Bytes → List Bytes × Outcome Bytes
  unfolding set_up
  run_server s cs repbuf = started (set_up s) cs repbuf
