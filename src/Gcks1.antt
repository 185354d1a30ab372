-- ===== src/Gcks1.antt =====
-- kmtools/gcks1.cxx: the group key server of model 1, which answers each Kerberos client with a
-- MIKEY message under the session key of its ticket.
pub mod Setup
pub mod Runs
pub mod Answers
use kerberized_multimedia_in.Base.{
  ℕ, ◌+◌, ◌-◌, Bool, true, false, not, Option, none, some, List, [], ◌∷◌, ◌++◌, Bytes, length, ◌==◌,
  if◌then◌else◌,
}
use kerberized_multimedia_in.CLib.{
  Outcome, returns, exits, faults, ◌>>=◌, ◌>>◌, exit_if, in_bounds, c_str, strncpy, store, htons,
  until_nul,
}
use kerberized_multimedia_in.Mikey.{MikeyLib, MikeyTestConfig, new_config, initiator_message}

-- `BUFSIZ` of the platform's stdio.h.
abbrev pub bufsiz : ℕ
bufsiz = 8192

-- What the calls of one round of the server's loop give: whether `listen`, `accept` and
-- `clock_gettime` succeed, the return value of `krb5_recvauth_gcks` with the ticket's session key
-- and the group name, that of `krb5_unparse_name` with the client's name, the number that `rand`
-- gives, and whether the two calls of `krb5_net_write` succeed.
pub record Connection : Type 0 where
  pub listens : Bool
  pub accepted : Bool
  pub clock_reads : Bool
  pub recvauth : ℕ
  pub session_key : Bytes
  pub group_name : Bytes
  pub unparse_name : ℕ
  pub cname : Bytes
  pub ssrc : ℕ
  pub length_written : Bool
  pub text_written : Bool

-- "You are <unparse error>\n"
abbrev pub unparse_error : Bytes
unparse_error =
    b'Y' ∷ b'o' ∷ b'u' ∷ b' ' ∷ b'a' ∷ b'r' ∷ b'e' ∷ b' ' ∷ b'<' ∷ b'u' ∷ b'n' ∷ b'p' ∷ b'a' ∷ b'r'
    ∷ b's' ∷ b'e' ∷ b' ' ∷ b'e' ∷ b'r' ∷ b'r' ∷ b'o' ∷ b'r' ∷ b'>' ∷ b'\n' ∷ []

-- `htons(strlen(repbuf))` in two bytes, and the text: what goes out on the connection.
unfoldable pub frame : Bytes → Bytes
frame text = htons (length text) ++ text

-- `repbuf[sizeof(repbuf) - 1] = '\0'` and `strncpy(repbuf, text, sizeof(repbuf) - 1)`.
unfoldable pub fill_repbuf : Bytes → Bytes → Outcome Bytes
fill_repbuf repbuf text = do
  closed ← in_bounds (store repbuf (bufsiz - 1) 0)
  in_bounds (strncpy closed text (bufsiz - 1))

module _ (lib : MikeyLib) where
  -- The configuration whose pre-shared key is the session key.
  abbrev pub server_config : Connection → MikeyTestConfig
  server_config c = record new_config { psk_string = c.session_key }

  -- The text that is copied to `repbuf`.
  unfoldable pub answer_text : Connection → Bytes
  answer_text c =
      if c.unparse_name == 0
      then until_nul (initiator_message lib (server_config c) c.ssrc c.cname)
      else unparse_error

  -- One round of `while(1)`: the bytes sent to the client, and `repbuf` for the next round.
  pub serve : Connection → Bytes → Outcome (Bytes × Bytes)
  serve c repbuf = do
    exit_if (not c.listens) 3
    exit_if (not c.accepted) 3
    exit_if (not c.clock_reads) 0
    exit_if (not (c.recvauth == 0)) 1
    filled ← fill_repbuf repbuf (answer_text c)
    text ← in_bounds (c_str filled)
    exit_if (not c.length_written) 1
    exit_if (not c.text_written) 1
    returns (frame text, filled)

  -- The loop, over the rounds that come: the answers sent, and how it ended; `returns` is the wait
  -- for a round that has not come.
  pub serve_all : List Connection → Bytes → List Bytes × Outcome Bytes
  serve_all [] repbuf = ([], returns repbuf)
  serve_all (c ∷ cs) repbuf = elim (serve c repbuf) [
    | returns (sent, filled) ↦ let (answers, end) = serve_all cs filled in (sent ∷ answers, end)
    | exits n ↦ ([], exits n)
    | faults e ↦ ([], faults e)
  ]
