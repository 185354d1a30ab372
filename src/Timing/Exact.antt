-- ===== src/Timing/Exact.antt =====
-- Where no borrow is needed, `diff` (kmtools) and the clients' log are right; and where seconds
-- exceed an `int` of nanoseconds the log is undefined.
use kerberized_multimedia_in.Base.{
  ℕ, ◌+◌, ◌-◌, ◌*◌, ◌/◌, ◌^◌, ◌≤◌, ◌<◌, ◌≡◌, arith, ltb, if◌then◌else◌, Bool-cases, inl, inr, true,
  ap, false, some, none, refl, Bytes,
}
use kerberized_multimedia_in.Base.Ints.{ℤ, pos, ◌+ℤ◌, ◌-ℤ◌, ◌*ℤ◌, ◌≤ℤ◌, ltb_ℤ, int_laws}
use kerberized_multimedia_in.CLib.{returns, faults, overflow, checked_int}
use kerberized_multimedia_in.Timing.{
  Timespec, diff, elapsed_ms, elapsed_ns, to_int, logged_ms, log_time,
}

-- A reading of the clock: seconds and nanoseconds.
abbrev pub reading : ℕ → ℕ → Timespec
reading s n = record { tv_sec = pos s; tv_nsec = pos n }

-- The nanoseconds that a `timespec` stands for.
abbrev pub nanos : Timespec → ℤ
nanos t = t.tv_sec *ℤ 1000000000 +ℤ t.tv_nsec

diff_no_borrow :
    (start end : Timespec)
    → start.tv_nsec ≤ℤ end.tv_nsec
    → diff start end
      ≡ record { tv_sec = end.tv_sec -ℤ start.tv_sec; tv_nsec = end.tv_nsec -ℤ start.tv_nsec }
unfolding diff
diff_no_borrow start end h = let e : ltb_ℤ end.tv_nsec start.tv_nsec ≡ false = ground arith in rw e

-- Where the end's nanoseconds are not below the start's, the difference that `diff` returns stands
-- for exactly the time between the two readings.
pub nanos-diff :
    (start end : Timespec)
    → start.tv_nsec ≤ℤ end.tv_nsec
    → nanos (diff start end) ≡ nanos end -ℤ nanos start
nanos-diff start end h = rw (diff_no_borrow start end h) (omega int_laws)

diff_in_order :
    (s n s' n' : ℕ)
    → s ≤ s'
    → n ≤ n'
    → diff (reading s n) (reading s' n') ≡ reading (s' - s) (n' - n)
unfolding diff ◌-ℤ◌
diff_in_order s n s' n' hs hn = ground arith

pub to_int_small : (s : ℕ) → s < 2 ^ 31 → to_int (pos s) ≡ pos s
unfolding to_int
to_int_small s h = ground arith

pub checked_int_seconds :
    (s : ℕ) → s < 3 → checked_int (pos s *ℤ 1000000000) ≡ some (pos (s * 1000000000))
unfolding checked_int ◌*ℤ◌
checked_int_seconds s h = ground arith

pub checked_int_overflow : (s : ℕ) → 3 ≤ s → checked_int (pos s *ℤ 1000000000) ≡ none
unfolding checked_int ◌*ℤ◌
checked_int_overflow s h = ground arith

pub pos-add : (a b : ℕ) → pos a +ℤ pos b ≡ pos (a + b)
unfolding ◌+ℤ◌
pos-add a b = ground arith

-- Up to three seconds the product fits an `int`, and the sum may still not fit a `long`.
pub elapsed_ms_small :
    (s n : ℕ)
    → s < 3
    → elapsed_ms (reading s n) ≡ (
        if ltb (s * 1000000000 + n) (2 ^ 63)
        then returns (pos ((s * 1000000000 + n) / 1000000))
        else faults overflow)
unfolding elapsed_ms
elapsed_ms_small s n h =
    rw (to_int_small s (omega arith), checked_int_seconds s h, pos-add (s * 1000000000) n)
      (elim (Bool-cases (ltb (s * 1000000000 + n) (2 ^ 63))) [ inl e ↦ rw e | inr e ↦ rw e ])

pub elapsed_ms_large : (s n : ℕ) → 3 ≤ s → s < 2 ^ 31 → elapsed_ms (reading s n) ≡ faults overflow
unfolding elapsed_ms
elapsed_ms_large s n h lim = rw (to_int_small s lim, checked_int_overflow s h)

sub_pos : (s s' : ℕ) → s ≤ s' → pos s' -ℤ pos s ≡ pos (s' - s)
unfolding ◌-ℤ◌
sub_pos s s' h = ground arith

pub elapsed_ns_overflow :
    (s n s' n' : ℕ)
    → s + 3 ≤ s'
    → s' - s < 2 ^ 31
    → elapsed_ns (reading s n) (reading s' n') ≡ faults overflow
unfolding elapsed_ns
elapsed_ns_overflow s n s' n' h lim = rw (
  sub_pos s s' (omega arith),
  to_int_small (s' - s) lim,
  checked_int_overflow (s' - s) (omega arith),
)

-- The milliseconds between two readings, rounded down.
abbrev pub ms_between : (s n s' n' : ℕ) → ℕ
ms_between s n s' n' = ((s' * 1000000000 + n') - (s * 1000000000 + n)) / 1000000

-- Two readings whose nanoseconds are in order: if they are less than three seconds apart the
-- client logs the milliseconds between them, rounded down; from three seconds on (and below the
-- 2^31 that the cast keeps) the product of the seconds overflows an `int`.
logged_ms_in_order :
    (s n s' n' : ℕ)
    → s ≤ s'
    → s' - s < 2 ^ 31
    → n ≤ n'
    → n' < 1000000000
    → logged_ms (reading s n) (reading s' n')
      ≡ (if ltb s' (s + 3) then returns (pos (ms_between s n s' n')) else faults overflow)
unfolding logged_ms
logged_ms_in_order s n s' n' hs lim hn hn' =
    rw (diff_in_order s n s' n' hs hn) (elim (Bool-cases (ltb s' (s + 3))) [
      | inl near ↦
          let small : s' - s < 3 = ground arith in
          let fits : ltb ((s' - s) * 1000000000 + (n' - n)) (2 ^ 63) ≡ true = ground arith in
          rw (near, elapsed_ms_small (s' - s) (n' - n) small, fits)
            (ap (λ k. returns (pos (k / 1000000))) (omega arith))
      | inr far ↦ rw far (elapsed_ms_large (s' - s) (n' - n) (ground arith) lim)
    ])

-- The same, written to a log that can be opened.
pub log_time_in_order :
    (file : Bytes) (s n s' n' : ℕ)
    → s ≤ s'
    → s' - s < 2 ^ 31
    → n ≤ n'
    → n' < 1000000000
    → log_time (some file) true (reading s n) (reading s' n')
      ≡ (if ltb s' (s + 3) then returns (some (pos (ms_between s n s' n'))) else faults overflow)
unfolding log_time
log_time_in_order file s n s' n' hs lim hn hn' =
    rw (logged_ms_in_order s n s' n' hs lim hn hn')
      (elim (Bool-cases (ltb s' (s + 3))) [ inl near ↦ rw near refl | inr far ↦ rw far refl ])

pos-sub : (a b : ℕ) → b ≤ a → pos a -ℤ pos b ≡ pos (a - b)
unfolding ◌-ℤ◌
pos-sub a b h = ground arith

-- The nanoseconds that kmtools/sclient2.cxx computes, below three seconds.
pub elapsed_ns_small :
    (s n s' n' : ℕ)
    → s ≤ s'
    → s' < s + 3
    → n ≤ n'
    → n' < 1000000000
    → elapsed_ns (reading s n) (reading s' n') ≡ returns (pos ((s' - s) * 1000000000 + n' - n))
unfolding elapsed_ns
elapsed_ns_small s n s' n' hs near hn hn' =
    let d = s' - s in
    let few : d < 3 = omega arith in
    let fits : ltb (d * 1000000000 + n') (2 ^ 63) ≡ true = ground arith in
    let fits' : ltb (d * 1000000000 + n' - n) (2 ^ 63) ≡ true = ground arith in
    rw (
      sub_pos s s' hs,
      to_int_small d (omega arith),
      checked_int_seconds d few,
      pos-add (d * 1000000000) n',
      fits,
      pos-sub (d * 1000000000 + n') n (omega arith),
      fits',
    )
