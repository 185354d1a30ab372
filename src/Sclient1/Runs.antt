-- ===== src/Sclient1/Runs.antt =====
-- A whole run of the client of kmtools/sclient.cxx against the GCKS of kmtools/gcks1.cxx.
use kerberized_multimedia_in.Base.{
  ℕ, ◌+◌, ◌-◌, ◌^◌, ◌≤◌, ◌<◌, ◌≡◌, refl, ◌∙◌, inl, inr, true, some, List, [], ◌∷◌, ◌++◌, Bytes,
  length, ltb, if◌then◌else◌, Bool-cases, arith, ap, ◌==◌,
}
use kerberized_multimedia_in.Base.Ints.{pos}
use kerberized_multimedia_in.CLib.{returns, faults, overflow, ◌>>=◌}
use kerberized_multimedia_in.CLib.StrLaws.{NoNul}
use kerberized_multimedia_in.Credentials.{Pointer, obtain_credentials}
use kerberized_multimedia_in.Mikey.{MikeyLib, IsMikey}
use kerberized_multimedia_in.Net.Complete.{payload}
use kerberized_multimedia_in.Gcks1.{Connection, bufsiz, answer_text, serve}
use kerberized_multimedia_in.Gcks1.Answers.{IsServed}
use kerberized_multimedia_in.Sclient1.{
  World, Session, joined, accepted, set_up, request, take_reply, run_client,
}
use kerberized_multimedia_in.Sclient1.Delivery.{take_reply-authenticated}
use kerberized_multimedia_in.Sclient1.CommandLine.{arg, Arguments, parse_arguments, checksum_data}
use kerberized_multimedia_in.Sclient1.Connect.{Address, find_socket}
use kerberized_multimedia_in.Sclient1.Requests.{c_str-group_authdata}
use kerberized_multimedia_in.Timing.{Timespec, log_time}
use kerberized_multimedia_in.Timing.Exact.{reading, ms_between, log_time_in_order}

-- Every call before the reply succeeds, from reading the clock to the ticket.
pub record IsReady (w : World) (start_ts : Timespec) (sock : ℕ) (creds : Pointer) : Type 0 where
  pub clock_getres : w.clock_getres ≡ true
  pub clock_prev : w.clock_prev ≡ true
  pub clock_start : w.start_ts ≡ some start_ts
  pub init_context : w.init_context ≡ 0
  pub getaddrinfo : w.getaddrinfo ≡ 0
  pub sname_to_principal : w.sname_to_principal ≡ 0
  pub socket : find_socket w.addresses ≡ some sock
  pub cc_resolve : w.cc_resolve ≡ 0
  pub cc_get_principal : w.cc_get_principal ≡ 0
  pub unparse_name : w.unparse_name ≡ 0
  pub ticket : (obtain_credentials w.krb5 true true).out_creds ≡ some creds

find_socket-cons :
    (aps : List Address) (sock : ℕ)
    → find_socket aps ≡ some sock
    → (ap : Address) × (rest : List Address) × (aps ≡ ap ∷ rest)
unfolding find_socket
find_socket-cons [] sock e = cc
find_socket-cons (ap ∷ aps) sock e = (ap, aps, refl)

zero_test : (n : ℕ) → n ≡ 0 → (n == 0) ≡ true
zero_test n e = ground arith

pub set_up_lem :
    (w : World) (argv : List Bytes) (arguments : Arguments) (start_ts : Timespec) (sock : ℕ)
    (creds : Pointer)
    → IsReady w start_ts sock creds
    → parse_arguments argv ≡ returns arguments
    → set_up w argv ≡ returns (arguments, sock, start_ts)
unfolding set_up
set_up_lem w argv arguments start_ts sock creds ok parsed =
    let (ap, aps, e) = find_socket-cons w.addresses sock ok.socket in
    let i = zero_test w.init_context ok.init_context in
    let g = zero_test w.getaddrinfo ok.getaddrinfo in
    let n = zero_test w.sname_to_principal ok.sname_to_principal in
    let found : find_socket (ap ∷ aps) ≡ some sock = rw (← e) ok.socket in
    simp (ok.clock_getres, ok.clock_prev, parsed, i, ok.clock_start, g, e, n, found)

request_lem :
    (w : World) (argv : List Bytes) (arguments : Arguments) (start_ts : Timespec) (sock : ℕ)
    (creds : Pointer) (service : Bytes)
    → IsReady w start_ts sock creds
    → arg argv 3 ≡ some service
    → NoNul arguments.group_name
    → (authdata : Bytes) × (request w argv arguments ≡ returns authdata)
unfolding request checksum_data
request_lem w argv arguments start_ts sock creds service ok given clean =
    let (b, e, _, _) = c_str-group_authdata arguments.group_name clean in
    let c = zero_test w.cc_resolve ok.cc_resolve in
    let p = zero_test w.cc_get_principal ok.cc_get_principal in
    let n = zero_test w.unparse_name ok.unparse_name in (b, simp (given, c, p, n, ok.ticket, e))

module _ (lib : MikeyLib) where
  -- A run up to the reply, and behind it.
  run_client_lem :
      (w : World) (argv : List Bytes) (arguments : Arguments) (start_ts end_ts : Timespec)
      (sock : ℕ) (creds : Pointer) (service : Bytes) (session : Session lib.Mikey)
      → IsReady w start_ts sock creds
      → parse_arguments argv ≡ returns arguments
      → arg argv 3 ≡ some service
      → NoNul arguments.group_name
      → take_reply lib w ≡ returns session
      → w.end_ts ≡ some end_ts
      → run_client lib w argv
        ≡ (log_time arguments.time_log w.log_opens start_ts end_ts >>= λ ms. returns (session, ms))
  unfolding run_client
  run_client_lem w argv arguments start_ts end_ts sock creds service session ok parsed given clean
        taken ends =
      let (authdata, sends) =
        request_lem w argv arguments start_ts sock creds service ok given clean in
      rw (set_up_lem w argv arguments start_ts sock creds ok parsed, sends, taken, ends)

  -- A whole run of the client of model 1 on the reply of the GCKS, on whatever pieces it arrives: it
  -- ends with the reply authenticated, and the milliseconds between its two readings of the clock in
  -- the log; or, three seconds and more behind its start, in the overflow of an `int`. libmikey keeps its
  -- promises, every call of the server's round and of the client succeeds, at most six arguments are
  -- given with a service and a log among them, the server could print the client's name, both hold the
  -- same session key and name, the message is below 8192 bytes, the client can allocate the buffer, and
  -- the nanoseconds of the readings are in order, less than 2^31 seconds apart.
  pub run_client-take_reply :
      IsMikey lib
      → (c : Connection) (repbuf sent repbuf' : Bytes) (w : World) (more memory : Bytes)
      → (argv : List Bytes) (arguments : Arguments) (s n s' n' sock : ℕ) (creds : Pointer)
      → (service file : Bytes) → IsServed lib c
      → length repbuf ≡ bufsiz
      → c.unparse_name ≡ 0
      → length (answer_text lib c) < bufsiz
      → serve lib c repbuf ≡ returns (sent, repbuf')
      → payload w.received ≡ sent ++ more
      → w.sendauth ≡ accepted true
      → w.session_key ≡ c.session_key
      → w.client_name ≡ c.cname
      → w.malloc (length (answer_text lib c) + 1) ≡ some memory
      → length memory ≡ length (answer_text lib c) + 1
      → IsReady w (reading s n) sock creds
      → parse_arguments argv ≡ returns arguments
      → arg argv 3 ≡ some service
      → NoNul arguments.group_name
      → arguments.time_log ≡ some file
      → w.log_opens ≡ true
      → w.end_ts ≡ some (reading s' n')
      → s ≤ s'
      → s' - s < 2 ^ 31
      → n ≤ n'
      → n' < 1000000000
      → (m : lib.Mikey) × (run_client lib w argv ≡ (
          if ltb s' (s + 3)
          then returns (joined true m, some (pos (ms_between s n s' n')))
          else faults overflow))
  run_client-take_reply mikey c repbuf sent repbuf' w more memory argv arguments s n s' n' sock
        creds service file ok buf named fits served arrives auth key name alloc len ready parsed
        given clean logs opens ends hs lim hn hn' =
      let (m, taken) =
        take_reply-authenticated lib mikey c repbuf sent repbuf' w more memory ok buf named fits
          served arrives auth key name alloc len in
      (
        m,
        run_client_lem w argv arguments (reading s n) (reading s' n') sock creds service
              (joined true m) ready parsed given clean taken ends
            ∙ rw (logs, opens, log_time_in_order file s n s' n' hs lim hn hn')
                (elim (Bool-cases (ltb s' (s + 3))) [
                  | inl near ↦ rw near refl
                  | inr far ↦ rw far refl
                ]),
      )
