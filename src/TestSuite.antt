-- ===== src/TestSuite.antt =====
-- test_suite: the four tests that measure the clients, and what they share. Names: test.h; Requests:
-- test_util.c and the request of a client; Order: the shuffle; Measures: test1 to test4; Statistics:
-- the running statistics and the repetition of a test; Mains: the four programs.
pub mod Names
pub mod Bench
pub mod Requests
pub mod Order
pub mod Measures
pub mod Statistics
pub mod Mains
pub mod ClientCommands
pub mod Meets
pub mod Shuffle
pub mod Keeps
pub mod Requested
pub mod Measured
pub mod Commands
pub mod Log
pub mod Sums
pub mod Ends
pub mod Items
pub mod Busy
pub mod CleanUp
pub mod Updates
pub mod Runs
pub mod Reports
pub mod Programs
pub mod Sizes
pub mod EachSize
pub mod Endings
