-- ===== src/Timing.antt =====
-- The timing code that kmtools/sclient.cxx, sclient2.cxx, gcks1.cxx and gcks2.cxx share: `diff`,
-- `print_time`, and the two clients' computation of the value in the timing log.
pub mod Exact
pub mod Borrow
use kerberized_multimedia_in.Base.{
  ℕ, zero, suc, ◌+◌, ◌-◌, ◌*◌, ◌/◌, ◌%◌, ◌^◌, Bool, true, false, Option, none, some, List, [], ◌∷◌,
  if◌then◌else◌, ltb, Bytes,
}
use kerberized_multimedia_in.Base.Ints.{ℤ, pos, negsuc, ◌+ℤ◌, ◌-ℤ◌, ◌*ℤ◌, sub_ℕ, ltb_ℤ}
use kerberized_multimedia_in.CLib.{
  Outcome, returns, exits, faults, overflow, null_pointer, ◌>>=◌, checked_int,
}

pub record Timespec : Type 0 where
  pub tv_sec : ℤ
  pub tv_nsec : ℤ

-- `LONG_MAX`, of a 64-bit `long`.
abbrev pub long_max : ℕ
long_max = 2 ^ 63 - 1

-- The difference as the source computes it: where the nanoseconds need a borrow it adds
-- `LONG_MAX`, not the 1000000000 of a second.
pub diff : Timespec → Timespec → Timespec
diff start end =
    if ltb_ℤ end.tv_nsec start.tv_nsec
    then record {
      tv_sec = end.tv_sec -ℤ start.tv_sec -ℤ pos 1;
      tv_nsec = pos long_max +ℤ (end.tv_nsec -ℤ start.tv_nsec);
    }
    else record { tv_sec = end.tv_sec -ℤ start.tv_sec; tv_nsec = end.tv_nsec -ℤ start.tv_nsec }

-- What `print_time` prints: the line number and the difference (in seconds and nanoseconds;
-- the source formats the latter as milliseconds with `float`), or a `perror`.
pub data Printed : Type 0 where
  time_line : ℕ → Timespec → Printed
  clock_error : Printed

-- `print_time`, for the readings that its two calls of `clock_gettime` give (`none` is -1): the new
-- `prev_ts` and the output.
pub print_time : ℕ → Option Timespec → Option Timespec → Timespec → Timespec × List Printed
unfolding diff
print_time line_num none second prev_ts = (prev_ts, clock_error ∷ [])
print_time line_num (some tmp) none prev_ts =
    (prev_ts, time_line line_num (diff prev_ts tmp) ∷ clock_error ∷ [])
print_time line_num (some tmp) (some now) prev_ts =
    (now, time_line line_num (diff prev_ts tmp) ∷ [])

-- A 64-bit value as an `int`: modulo 2^32, as the compilers of the platform do it.
pub to_int : ℤ → ℤ
to_int (pos n) = let r = n % 2 ^ 32 in if ltb r (2 ^ 31) then pos r else sub_ℕ r (2 ^ 32)
to_int (negsuc n) =
    let r = 2 ^ 32 - 1 - n % 2 ^ 32 in if ltb r (2 ^ 31) then pos r else sub_ℕ r (2 ^ 32)

abbrev pub int_value : Option ℤ → Outcome ℤ
int_value none = faults overflow
int_value (some v) = returns v

abbrev fits_long : ℤ → Bool
fits_long (pos n) = ltb n (2 ^ 63)
fits_long (negsuc n) = ltb n (2 ^ 63)

-- The result of an operation on `long`.
abbrev pub long_value : ℤ → Outcome ℤ
long_value v = if fits_long v then returns v else faults overflow

-- C's division, which rounds towards 0.
abbrev pub divide : ℤ → ℕ → ℤ
divide (pos n) k = pos (n / k)
divide (negsuc n) k = sub_ℕ 0 ((n + 1) / k)

-- `time_elapsed = (int)(diff_ts.tv_sec) * 1000000000 + diff_ts.tv_nsec`, divided by 1000000: the
-- product is one of `int`s, the sum one of `long`s.
pub elapsed_ms : Timespec → Outcome ℤ
elapsed_ms diff_ts = do
  seconds ← int_value (checked_int (to_int diff_ts.tv_sec *ℤ 1000000000))
  time_elapsed ← long_value (seconds +ℤ diff_ts.tv_nsec)
  returns (divide time_elapsed 1000000)

-- The milliseconds that a client appends to its timing log.
pub logged_ms : Timespec → Timespec → Outcome ℤ
logged_ms start_ts end_ts = elapsed_ms (diff start_ts end_ts)

-- `time_elapsed` of kmtools/sclient2.cxx, which is computed whether or not it is logged, and logged
-- in neither case: nanoseconds, by a product of `int`.
pub elapsed_ns : Timespec → Timespec → Outcome ℤ
elapsed_ns start_ts end_ts = do
  seconds ← int_value (checked_int (to_int (end_ts.tv_sec -ℤ start_ts.tv_sec) *ℤ 1000000000))
  time_elapsed ← long_value (seconds +ℤ end_ts.tv_nsec)
  long_value (time_elapsed -ℤ start_ts.tv_nsec)

-- `if (clock_gettime(id, &ts) < 0) return 0;` in a `main`.
abbrev pub read_clock : Option Timespec → Outcome Timespec
read_clock none = exits 0
read_clock (some ts) = returns ts

-- `if (timeLog_filename)`: what is printed to the log. `opens` says whether `fopen` succeeds, which the
-- source does not ask.
unfoldable pub log_time : Option Bytes → Bool → Timespec → Timespec → Outcome (Option ℤ)
unfolding logged_ms
log_time none opens start_ts end_ts = returns none
log_time (some file) true start_ts end_ts = logged_ms start_ts end_ts >>= λ ms. returns (some ms)
log_time (some file) false start_ts end_ts = logged_ms start_ts end_ts >>= λ ms. faults null_pointer
