-- ===== src/Timing/Borrow.antt =====
-- Where a borrow is needed, `diff` (kmtools) adds `LONG_MAX` nanoseconds for the second that it
-- takes, and what the clients log is far off or undefined.
use kerberized_multimedia_in.Base.{
  ℕ, ◌+◌, ◌-◌, ◌*◌, ◌/◌, ◌^◌, ◌<◌, ◌≡◌, arith, ltb, ◌==◌, if◌then◌else◌, Bool-cases, inl, inr, true,
  false, ap,
}
use kerberized_multimedia_in.Base.Ints.{pos, ◌+ℤ◌, ◌-ℤ◌, ltb_ℤ, int_laws, ◌≤ℤ◌}
use kerberized_multimedia_in.CLib.{returns, faults, overflow}
use kerberized_multimedia_in.Timing.{Timespec, long_max, diff, elapsed_ms, logged_ms}
use kerberized_multimedia_in.Timing.Exact.{reading, nanos, elapsed_ms_small, elapsed_ms_large}

diff_borrow :
    (start end : Timespec)
    → ltb_ℤ end.tv_nsec start.tv_nsec ≡ true
    → diff start end ≡ record {
      tv_sec = end.tv_sec -ℤ start.tv_sec -ℤ pos 1;
      tv_nsec = pos long_max +ℤ (end.tv_nsec -ℤ start.tv_nsec);
    }
unfolding diff
diff_borrow start end h = rw h

-- Where the end's nanoseconds are below the start's, and both are below a second, the difference
-- stands for the time between the readings and `LONG_MAX` - 1000000000 nanoseconds more, and its
-- nanoseconds are more than a second, so that it is no `timespec` that the clock could give.
pub nanos-diff_borrow :
    (start end : Timespec)
    → ltb_ℤ end.tv_nsec start.tv_nsec ≡ true
    → pos 0 ≤ℤ end.tv_nsec
    → start.tv_nsec ≤ℤ pos 999999999
    → (nanos (diff start end) ≡ nanos end -ℤ nanos start +ℤ pos (long_max - 1000000000))
      × (pos 1000000000 ≤ℤ (diff start end).tv_nsec)
nanos-diff_borrow start end h z lim = rw (diff_borrow start end h) (omega int_laws, omega int_laws)

diff_out_of_order :
    (s n s' n' : ℕ)
    → s < s'
    → n' < n
    → n < 1000000000
    → diff (reading s n) (reading s' n') ≡ reading (s' - s - 1) (long_max - (n - n'))
unfolding diff ◌-ℤ◌ ◌+ℤ◌
diff_out_of_order s n s' n' hs hn lim = ground arith

elapsed_ms_overflow :
    (s n : ℕ)
    → 0 < s
    → s < 2 ^ 31
    → long_max - 1000000000 < n
    → elapsed_ms (reading s n) ≡ faults overflow
elapsed_ms_overflow s n p lim h = elim (Bool-cases (ltb s 3)) [
  | inl few ↦
      let over : ltb (s * 1000000000 + n) (2 ^ 63) ≡ false = ground arith in
      rw (elapsed_ms_small s n (ground arith), over)
  | inr many ↦ elapsed_ms_large s n (ground arith) lim
]

-- Two readings whose nanoseconds are out of order, less than 2^31 seconds apart: if the second one
-- is taken in the next second, the client logs some nine million million milliseconds, and else
-- its sum overflows.
pub logged_ms_out_of_order :
    (s n s' n' : ℕ)
    → s < s'
    → s' - s < 2 ^ 31
    → n' < n
    → n < 1000000000
    → logged_ms (reading s n) (reading s' n')
      ≡ (if s' == s + 1 then returns (pos ((long_max - (n - n')) / 1000000)) else faults overflow)
unfolding logged_ms
logged_ms_out_of_order s n s' n' hs lim hn hn' =
    rw (diff_out_of_order s n s' n' hs hn hn') (elim (Bool-cases (s' == s + 1)) [
      | inl next ↦
          let e : s' - s - 1 ≡ 0 = ground arith in
          let fits : ltb (0 * 1000000000 + (long_max - (n - n'))) (2 ^ 63) ≡ true = ground arith in
          rw (e, next, elapsed_ms_small 0 (long_max - (n - n')) (omega arith), fits)
            (ap (λ k. returns (pos (k / 1000000))) (omega arith))
      | inr later ↦ rw later (
          elapsed_ms_overflow (s' - s - 1) (long_max - (n - n')) (ground arith) (omega arith)
            (omega arith))
    ])
