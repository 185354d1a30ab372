-- ===== src/Sclient2/Runs.antt =====
-- Whole runs of the client of kmtools/sclient2.cxx.
use kerberized_multimedia_in.Base.{
  Bytes, List, Bool-cases, ltb→lt, inl, inr, refl, ◌∙◌, if◌then◌else◌, arith, false, length, ltb,
  none, some, true, ℕ, ◌&&◌, ◌+◌, ◌-◌, ◌<◌, ◌==◌, ◌^◌, ◌≡◌, ◌≤◌,
}
use kerberized_multimedia_in.Base.Ints.{pos}
use kerberized_multimedia_in.CLib.{c_str, faults, overflow, returns, uninitialised, ◌>>=◌}
use kerberized_multimedia_in.Credentials.{Pointer, obtain_credentials}
use kerberized_multimedia_in.Mikey.{MikeyLib, IsMikey, DeliversKey}
use kerberized_multimedia_in.Sclient1.{Session, joined}
use kerberized_multimedia_in.Sclient2.{
  World, Arguments, parse_arguments, set_up, open_port, take_message, run_client,
}
use kerberized_multimedia_in.Sclient1.CommandLine.{sample_service, arg, or_default}
use kerberized_multimedia_in.Sclient2.Receive.{receive}
use kerberized_multimedia_in.Timing.{Timespec, elapsed_ns, log_time}
use kerberized_multimedia_in.Timing.Exact.{
  reading, ms_between, log_time_in_order, elapsed_ns_small, elapsed_ns_overflow,
}
use kerberized_multimedia_in.Gcks2.Forwards.{to_client}
use kerberized_multimedia_in.Sclient2.Delivery.{take_message_lem}

-- Every call before the message succeeds.
pub record IsReady (w : World) (start : Timespec) : Type 0 where
  pub clock_getres : w.clock_getres ≡ true
  pub clock_start : w.start_ts ≡ some start
  pub clock_prev : w.clock_prev ≡ true
  pub init_context : w.init_context ≡ 0
  pub sname_to_principal : w.sname_to_principal ≡ 0
  pub cc_resolve : w.cc_resolve ≡ 0
  pub cc_get_principal : w.cc_get_principal ≡ 0
  pub unparse_name : w.unparse_name ≡ 0
  pub socket : w.socket ≡ true
  pub setsockopt : w.setsockopt ≡ true
  pub bind : w.bind ≡ true
  pub listen : w.listen ≡ true

-- What the client takes from its command line, of any length.
abbrev pub arguments_of : List Bytes → Arguments
arguments_of argv = record {
  hostname = arg argv 1;
  service = or_default (arg argv 2) sample_service;
  cache_name = arg argv 3;
  time_log = arg argv 4;
}

never_both : (n : ℕ) → (ltb n 2 && ltb 5 n) ≡ false
never_both n = ground arith

parse_arguments_lem : (argv : List Bytes) → parse_arguments argv ≡ returns (arguments_of argv)
unfolding parse_arguments
parse_arguments_lem argv = rw (never_both (length argv))

zero_test : (n : ℕ) → n ≡ 0 → (n == 0) ≡ true
zero_test n e = ground arith

set_up_lem :
    (w : World) (argv : List Bytes) (start : Timespec)
    → IsReady w start
    → set_up w argv ≡ returns (arguments_of argv, start)
unfolding set_up
set_up_lem w argv start ok = simp (
  ok.clock_getres,
  ok.clock_start,
  ok.clock_prev,
  parse_arguments_lem argv,
  zero_test w.init_context ok.init_context,
  zero_test w.sname_to_principal ok.sname_to_principal,
  zero_test w.cc_resolve ok.cc_resolve,
  zero_test w.cc_get_principal ok.cc_get_principal,
)

open_port_lem : (w : World) (start : Timespec) → IsReady w start → open_port w ≡ returns tt
unfolding open_port
open_port_lem w start ok =
    simp (zero_test w.unparse_name ok.unparse_name, ok.socket, ok.setsockopt, ok.bind, ok.listen)

ltb-false : (a b : ℕ) → ltb a b ≡ false → b ≤ a
ltb-false a b h = ground arith

module _ (lib : MikeyLib) where
  -- A run that ends three seconds or more after its start (and less than 2^31) overflows an `int`,
  -- also where no log is asked for, and whatever the session was.
  pub run_client_slow :
      (w : World) (argv : List Bytes) (arguments : Arguments) (session : Session lib.Mikey)
      (s n s' n' : ℕ)
      → set_up w argv ≡ returns (arguments, reading s n)
      → open_port w ≡ returns tt
      → take_message lib w ≡ returns session
      → w.end_ts ≡ some (reading s' n')
      → s + 3 ≤ s'
      → s' - s < 2 ^ 31
      → run_client lib w argv ≡ faults overflow
  unfolding run_client
  run_client_slow w argv arguments session s n s' n' ready opened taken ends slow lim =
      rw (ready, opened, taken, ends, elapsed_ns_overflow s n s' n' slow lim)

  -- A client that gets no ticket waits for the message all the same, and then reads the pointer that
  -- `obtain_credentials` has not set.
  pub take_message_no_ticket :
      (w : World) (recv_data text : Bytes)
      → receive w.recv_data w.arrived ≡ returns recv_data
      → c_str recv_data ≡ some text
      → (obtain_credentials w.krb5 true true).out_creds ≡ none
      → take_message lib w ≡ faults uninitialised
  unfolding take_message
  take_message_no_ticket w recv_data text got string lost = rw (got, string, lost)

  -- A run up to the message, and behind it.
  run_client_lem :
      (w : World) (argv : List Bytes) (start end : Timespec) (session : Session lib.Mikey)
      → IsReady w start
      → take_message lib w ≡ returns session
      → w.end_ts ≡ some end
      → run_client lib w argv ≡ (
          elapsed_ns start end >>= λ ns.
          log_time (arg argv 4) w.log_opens start end >>= λ ms. returns (session, ms))
  unfolding run_client
  run_client_lem w argv start end session ok taken ends =
      rw (set_up_lem w argv start ok, open_port_lem w start ok, taken, ends)

  -- A whole run of the client of model 2, with any number of arguments and a log among them, on what the
  -- GCKS sends under its session key and for its name: it ends with the message authenticated, and the
  -- milliseconds between its two readings of the clock in the log; or, three seconds and more behind its
  -- start, in the overflow of an `int`. libmikey keeps its promises, every call of the client succeeds,
  -- the message is below the 1024 bytes of its array, and the nanoseconds of the readings are in order,
  -- less than 2^31 seconds apart.
  pub run_client-take_message :
      IsMikey lib
      → DeliversKey lib
      → (session_key cname : Bytes) (ssrc : ℕ) (w : World) (creds : Pointer)
      → (argv : List Bytes) (s n s' n' : ℕ) (file : Bytes)
      → w.arrived ≡ some (to_client lib session_key ssrc cname)
      → length (to_client lib session_key ssrc cname) < 1024
      → length w.recv_data ≡ 1024
      → w.session_key ≡ session_key
      → w.client_name ≡ cname
      → (obtain_credentials w.krb5 true true).out_creds ≡ some creds
      → IsReady w (reading s n)
      → arg argv 4 ≡ some file
      → w.log_opens ≡ true
      → w.end_ts ≡ some (reading s' n')
      → s ≤ s'
      → s' - s < 2 ^ 31
      → n ≤ n'
      → n' < 1000000000
      → (m : lib.Mikey) × (run_client lib w argv ≡ (
          if ltb s' (s + 3)
          then returns (joined true m, some (pos (ms_between s n s' n')))
          else faults overflow))
  run_client-take_message mikey key session_key cname ssrc w creds argv s n s' n' file came short
        room k peer made ready given opens ends hs lim hn hn' =
      let (m, taken) =
        take_message_lem lib mikey key session_key cname ssrc w creds came short room k peer made in
      let run =
        run_client_lem w argv (reading s n) (reading s' n') (joined true m) ready taken ends in
      (
        m,
        run ∙ elim (Bool-cases (ltb s' (s + 3))) [
          | inl near ↦
              rw
                (
                  elapsed_ns_small s n s' n' hs (ltb→lt s' (s + 3) near) hn hn',
                  given,
                  opens,
                  log_time_in_order file s n s' n' hs lim hn hn',
                  near,
                )
                refl
          | inr far ↦ rw (elapsed_ns_overflow s n s' n' (ltb-false s' (s + 3) far) lim, far) refl
        ],
      )
