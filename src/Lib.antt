-- ===== src/Lib.antt =====
-- Kerberized Multimedia Internet Keying: two ways to give the key of a multicast group to a Kerberos
-- client in a MIKEY message. In model 1 the group key server (GCKS) is a Kerberos service: the client
-- authenticates to it, and the answer holds the message. In model 2 the KDC sends the session key of
-- the client's ticket to the GCKS, which connects to the client and sends it the message.
--
-- The files, and the code that they model:
-- - Gcks1: kmtools/gcks1.cxx, the server of model 1. `serve` is a round of the loop of `main`;
--   Gcks1.Setup has what comes before the loop, and `run_server`, the whole of `main`.
-- - Sclient1: kmtools/sclient.cxx, its client. `run_client` is `main`, composed of `set_up`, `request`
--   and `take_reply`; CommandLine, Connect and Reply hold the parts of it.
-- - Kdc: `do_gcks_req` in krb5.patch, the step of the KDC in model 2.
--   Kdc.Tgs: the part of `process_tgs_req` that calls it (krb5.patch), from the encryption of the ticket on.
-- - Recvauth: `recvauth_common` and its callers in krb5.patch, where they hand out the name of the group.
-- - Libmikey: what minisip.patch adds to libmikey: the general extension with the connection information,
--   the choice of the key, `setStateByInt`, and the map of dummy CS identifiers (Libmikey.DummyMap).
-- - Gcks2: kmtools/gcks2.cxx, the server of model 2. `serve_kdc` is a round of the loop of `main`;
--   Gcks2.Setup has what comes before the loop, the loop, and `run_server`, the whole of `main`.
-- - Sclient2: kmtools/sclient2.cxx, its client, with `run_client` for `main`; Sclient2.Receive has
--   the array that the message is read into.
-- - Exchange: the KDC, the GCKS and any number of clients of model 2, which take turns in any order
--   (`Step`, `Reach`); the messages of the KDC wait at the GCKS in a queue.
--   Exchange.Messages: what the KDC hands on and the GCKS makes of it. Exchange.Invariant: what every
--   reachable state keeps. Exchange.Origin is about the origin of the packets, Exchange.Progress about
--   the answers to requests, Exchange.InOrder and Exchange.Blocking about runs of the GCKS.
-- - ConnInfo: `client_conn_info_t` and `parse_conn_info` of kmtools/gcks2.cxx, with the `snprintf` of
--   krb5.patch that writes what is parsed.
-- - Mikey: kmtools/MikeyTestConfig.cxx and .h; Mikey.Wrapper: kmtools/libmikey_wrapper.cxx;
--   Mikey.Demonstration: kmtools/main.c, a run of it.
-- - Net, Credentials, Timing: `net_read`, `obtain_credentials`, `diff`, `print_time` and the time log
--   that the programs of kmtools repeat.
-- - TestSuite: test_suite. Names: test.h. Requests: test_util.c and the request of a client, which is the
--   same in test1.c to test4.c. Order, Measures, Statistics, Mains: the shuffles, `test1` to `test4`, the
--   running statistics with `run_test1` to `run_test4`, and `main` of each. ClientCommands: what the
--   clients of kmtools read of the commands. The other modules hold the proofs: Meets and Keeps reason
--   about parts of a test, Commands, Items and Busy about its commands, Runs and EachSize about whole
--   tests and their sizes.
-- - CLib: what the sources use of the C language and its library. Base: shared names.
-- - Tests: runs at concrete inputs, with a simple library in place of libmikey.
--
-- A run is an `Outcome`: it returns, exits with a code, or does what C leaves undefined (a `Fault`: a
-- null pointer, an access out of bounds, a signed overflow, an uninitialised value). A buffer is the
-- list of its bytes, and a C string is what stands before the first NUL. The results of the calls of
-- libkrb5 and of the system are fields of a record (`World`, `Connection`, `Network`, `GcksLine`) in
-- the order in which the code makes them; what arrives on a socket is a list of events. libmikey is
-- not part of the repository: it is the record `MikeyLib`, and what the programs rely on are the
-- hypotheses `IsMikey` and `DeliversKey`.
--
-- A part of a test of test_suite is a `Trial`, from a `Bench` (the runs of clients to come, the random
-- numbers, the log, the commands so far) to how it ends: `finished`, `pending` where no run is left,
-- `exited`, `faulty` or `out_of_fuel`. The arithmetic of double is the record `Doubles`.
--
-- Every loop is structural recursion, on the events of a socket, the results of `connect`, the
-- addresses, the rounds of a server or the runs of a test. `decimal` takes fuel, one more than the
-- number, and a number has no more digits than that; `take_reading` takes one more than the runs of
-- clients that are left, and a test that is repeated takes one of them at least. BUFSIZ is 8192, a `long` has 64 bits and an
-- `int` 32.
--
-- Not modelled: debug output (which prints keys with "%s"), syslog, the frees at the end of a run, the
-- rest of krb5.patch and minisip.patch, which change projects that are not in the repository, the
-- shell scripts, and of test_suite the text of the printed lines, the effective user ids
-- and the redirections of the shell.
pub mod Base
pub mod CLib
pub mod ConnInfo
pub mod Timing
pub mod Net
pub mod Mikey
pub mod Gcks1
pub mod Credentials
pub mod Sclient1
pub mod Exchange
pub mod Gcks2
pub mod Kdc
pub mod Libmikey
pub mod Recvauth
pub mod Sclient2
pub mod TestSuite
pub mod Tests
