-- ===== src/Gcks1/Runs.antt =====
-- Whole runs of kmtools/gcks1.cxx.
use kerberized_multimedia_in.Base.{
  ℕ, ◌≡◌, inl, inr, true, false, none, some, List, [], All, Bytes, length, arith, ◌==◌, Bool-cases,
  ap, if◌then◌else◌,
}
use kerberized_multimedia_in.Base.Ints.{pos}
use kerberized_multimedia_in.CLib.{Outcome, returns, exits, faults, ◌>>=◌}
use kerberized_multimedia_in.Mikey.{MikeyLib}
use kerberized_multimedia_in.Gcks1.{Connection, bufsiz}
use kerberized_multimedia_in.Gcks1.Answers.{IsServed, sent_frames, serve_all-served}
use kerberized_multimedia_in.Gcks1.Setup.{
  Settings, Start, is_zero, take_options, port_at_end, open_socket, set_up, run_server,
}
use kerberized_multimedia_in.Sclient1.CommandLine.{sample_service}

-- The calls before the options, and the look-up of the service, succeed.
pub record IsStarted (s : Start) : Type 0 where
  pub clock_getres : s.clock_getres ≡ true
  pub clock_prev : s.clock_prev ≡ true
  pub init_context : s.init_context ≡ 0
  pub sname_to_principal : s.sname_to_principal ≡ 0

-- The settings that the command line amounts to.
abbrev pub settings_of : Start → Outcome Settings
settings_of s =
    take_options s.options (record { port = pos 0; service = sample_service; keytab = none })
    >>= port_at_end s.operands

bind_assoc :
    {A B C : Type 0} (m : Outcome A) (f : A → Outcome B) (g : B → Outcome C) {b : B}
    → (m >>= f) ≡ returns b
    → (m >>= λ a. f a >>= g) ≡ g b
bind_assoc (returns a) f g e = ap (λ m. m >>= g) e
bind_assoc (exits n) f g e = cc
bind_assoc (faults x) f g e = cc

set_up_lem :
    (s : Start) (settings : Settings)
    → IsStarted s
    → settings_of s ≡ returns settings
    → set_up s ≡ open_socket s settings.port
unfolding set_up
set_up_lem s settings ok e =
    let i : (s.init_context == 0) ≡ true = ground (arith, ok.init_context) in
    let n : (s.sname_to_principal == 0) ≡ true = ground (arith, ok.sname_to_principal) in
    simp (ok.clock_getres, ok.clock_prev, i, n)
      (bind_assoc
        (take_options s.options (record { port = pos 0; service = sample_service; keytab = none }))
        (port_at_end s.operands) (λ t. open_socket s t.port) e)

module _ (lib : MikeyLib) where
  -- A server whose command line gives no port, or a port that is 0 as a `short`, answers no client,
  -- whoever comes: it exits with code 1 where its standard input is no connection, and with code 3,
  -- since it listens on no socket, where it is one.
  pub run_server_no_port :
      (s : Start) (settings : Settings) (cs : List Connection) (repbuf : Bytes)
      → IsStarted s
      → settings_of s ≡ returns settings
      → settings.port ≡ pos 0
      → run_server lib s cs repbuf ≡ ([], exits (if s.peername then 3 else 1))
  unfolding run_server open_socket
  run_server_no_port s settings cs repbuf ok e zero =
      let p : is_zero settings.port ≡ true = ap is_zero zero in
      rw (set_up_lem s settings ok e, p)
        (elim (Bool-cases s.peername) [ inl peer ↦ simp peer | inr no_peer ↦ simp no_peer ])

  -- A server with a port whose socket is opened and bound answers every client in order, while every
  -- call for a client succeeds.
  pub run_server-served :
      (s : Start) (settings : Settings) (sock : ℕ) (cs : List Connection) (repbuf : Bytes)
      → IsStarted s
      → settings_of s ≡ returns settings
      → is_zero settings.port ≡ false
      → s.socket ≡ some sock
      → s.binds ≡ true
      → All (IsServed lib) cs
      → length repbuf ≡ bufsiz
      → (b : Bytes) × (run_server lib s cs repbuf ≡ (sent_frames lib cs, returns b))
        × (length b ≡ bufsiz)
  unfolding run_server open_socket
  run_server-served s settings sock cs repbuf ok e p o b served len =
      let (b', answers, len') = serve_all-served lib cs repbuf served len in
      (b', rw (set_up_lem s settings ok e, p, o, b, answers), len')
