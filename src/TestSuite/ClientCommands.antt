-- ===== src/TestSuite/ClientCommands.antt =====
-- test_suite/test_util.c, `client_exec`, and the command lines of kmtools/sclient.cxx and sclient2.cxx,
-- which read the words that it hands to them.
use kerberized_multimedia_in.Base.{◌≡◌, refl, some, List, Bytes, arith}
use kerberized_multimedia_in.Base.Ints.{pos}
use kerberized_multimedia_in.CLib.{returns, atoi}
use kerberized_multimedia_in.CLib.NumberLaws.{atoi-decimal}
use kerberized_multimedia_in.Sclient1.CommandLine
use kerberized_multimedia_in.Sclient2
use kerberized_multimedia_in.TestSuite.Names.{realm, ksm1_gcks_port, ksm1_gcks_sname}
use kerberized_multimedia_in.TestSuite.Bench.{sclient, sclient2}
use kerberized_multimedia_in.TestSuite.Requests.{client_command}

-- The client that a test starts takes each word for what the test means by it. A client of model 1 gets
-- the host, a port that reads as 7777, the service, the group, the cache and the log; a client of model
-- 2 gets the host, the group as its service, the cache and the log.
pub client_command-parse_arguments :
    (group_name cache time_log : Bytes)
    → ((argv : List Bytes) × (port : Bytes) × (client_command group_name cache time_log 1
          ≡ sclient argv)
        × (CommandLine.parse_arguments argv
            ≡ returns (record {
              hostname = some realm;
              port = port;
              service = ksm1_gcks_sname;
              group_name = group_name;
              cache_name = some cache;
              time_log = some time_log;
            }))
        × (atoi port ≡ some (pos ksm1_gcks_port)))
      × ((argv : List Bytes) × (client_command group_name cache time_log 2 ≡ sclient2 argv)
          × (Sclient2.parse_arguments argv
              ≡ returns (record {
                hostname = some realm;
                service = group_name;
                cache_name = some cache;
                time_log = some time_log;
              })))
unfolding client_command CommandLine.parse_arguments Sclient2.parse_arguments
client_command-parse_arguments group_name cache time_log =
    ((_, _, refl, refl, atoi-decimal ksm1_gcks_port (omega arith)), (_, refl, refl))
