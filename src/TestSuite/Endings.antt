-- ===== src/TestSuite/Endings.antt =====
-- test_suite: main of test1.c to test4.c on all their endings, and what they delete.
use kerberized_multimedia_in.Base.{◌≡◌, Option, none, some, Bytes}
use kerberized_multimedia_in.Base.Ints.{ℤ}
use kerberized_multimedia_in.CLib.{returns}
use kerberized_multimedia_in.TestSuite.Bench.{Bench}
use kerberized_multimedia_in.TestSuite.Mains.{int_of}
use kerberized_multimedia_in.TestSuite.Meets.{Meets}

-- SUDO_UID is not set, or an int.
abbrev pub IsUser : Option Bytes → Type 0
IsUser none = Unit {0}
IsUser (some uid) = (v : ℤ) × (int_of uid ≡ returns v)
