-- ===== src/CLib/StrLaws.antt =====
-- Strings in buffers: what a reader finds behind `strncpy`.
use kerberized_multimedia_in.Base.{
  ℕ, zero, suc, ◌-◌, ◌≤◌, ◌<◌, ◌≡◌, ◌≢◌, refl, none, some, [], ◌∷◌, ◌++◌, Bytes, All, length, take,
  drop, replicate, arith, append-nil, take_all, drop_all, Option-cases, Bool-cases, ◌==◌, inl, inr,
}
use kerberized_multimedia_in.CLib.Str.{c_str, strncpy, store, until_nul}

abbrev pub NoNul : Bytes → Type 0
NoNul = All (λ b. b ≢ 0)

pub c_str-terminated : (s rest : Bytes) → NoNul s → c_str (s ++ (0 ∷ rest)) ≡ some s
unfolding c_str
c_str-terminated [] rest h = refl
c_str-terminated (b ∷ s) rest h = ground (arith, c_str-terminated s rest h.1)

pub c_str-unterminated : (s : Bytes) → NoNul s → c_str s ≡ none
unfolding c_str
c_str-unterminated [] h = refl
c_str-unterminated (b ∷ s) h = ground (arith, c_str-unterminated s h.1)

pub NoNul-take : (n : ℕ) (s : Bytes) → NoNul s → NoNul (take n s)
NoNul-take zero s h = tt
NoNul-take (suc n) [] h = tt
NoNul-take (suc n) (b ∷ s) h = (h.0, NoNul-take n s h.1)

pub NoNul-append : (s t : Bytes) → NoNul s → NoNul t → NoNul (s ++ t)
NoNul-append [] t h k = k
NoNul-append (b ∷ s) t h k = (h.0, NoNul-append s t h.1 k)

-- What a reader finds is a string.
pub c_str-NoNul : (b : Bytes) {s : Bytes} → c_str b ≡ some s → NoNul s
unfolding c_str
c_str-NoNul [] e = cc
c_str-NoNul (b ∷ bs) e = elim (Option-cases (c_str bs)) [
  | inl open_end ↦ ground arith
  | inr (t, found) ↦ ground (arith, c_str-NoNul bs found)
]

pub strncpy_lem :
    (dst src : Bytes) (n : ℕ)
    → n ≤ length dst
    → strncpy dst src n ≡ some (take n src ++ (replicate (n - length src) 0 ++ drop n dst))
unfolding strncpy
strncpy_lem dst src zero h = let e : 0 - length src ≡ 0 = omega arith in rw e
strncpy_lem [] src (suc n) h = absurd (omega arith)
strncpy_lem (d ∷ dst) [] (suc n) h =
    let e : n - 0 ≡ n = omega arith in
    let e' : suc n - 0 ≡ suc n = omega arith in
    rw (strncpy_lem dst [] n (omega arith), take_all {A = ℕ} n [] (omega arith), e, e')
strncpy_lem (d ∷ dst) (s ∷ src) (suc n) h =
    let e : suc n - suc (length src) ≡ n - length src = omega arith in
    rw (e, strncpy_lem dst src n (omega arith))

-- Zeros in front of a NUL are a NUL and a rest.
pub c_str-padded :
    (s : Bytes) (k : ℕ) (rest : Bytes)
    → NoNul s
    → c_str (s ++ (replicate k 0 ++ (0 ∷ rest))) ≡ some s
c_str-padded s zero rest h = c_str-terminated s rest h
c_str-padded s (suc k) rest h = c_str-terminated s (replicate k 0 ++ (0 ∷ rest)) h

-- A copy of `n` bytes in front of a NUL is cut to `n` bytes, and is a string.
pub c_str-strncpy :
    (dst src : Bytes) (n : ℕ)
    → n ≤ length dst
    → drop n dst ≡ 0 ∷ []
    → NoNul src
    → (b : Bytes) × (strncpy dst src n ≡ some b) × (c_str b ≡ some (take n src))
c_str-strncpy dst src n h e k = (
  take n src ++ (replicate (n - length src) 0 ++ drop n dst),
  strncpy_lem dst src n h,
  rw e (c_str-padded (take n src) (n - length src) [] (NoNul-take n src k)),
)

-- A string with room for its NUL is copied whole.
pub c_str-strncpy_short :
    (dst src : Bytes) (n : ℕ)
    → n ≤ length dst
    → length src < n
    → NoNul src
    → (b : Bytes) × (strncpy dst src n ≡ some b) × (c_str b ≡ some src)
c_str-strncpy_short dst src n h l k =
    let e : n - length src ≡ suc (n - length src - 1) = omega arith in
    (
      take n src ++ (replicate (n - length src) 0 ++ drop n dst),
      strncpy_lem dst src n h,
      rw (take_all n src (omega arith), e)
          (c_str-terminated src (replicate (n - length src - 1) 0 ++ drop n dst) k),
    )

-- A string as long as the buffer or longer leaves no NUL in it.
pub c_str-strncpy_long :
    (dst src : Bytes) (n : ℕ)
    → n ≡ length dst
    → n ≤ length src
    → NoNul src
    → (b : Bytes) × (strncpy dst src n ≡ some b) × (c_str b ≡ none)
c_str-strncpy_long dst src n h l k =
    let e : n - length src ≡ 0 = omega arith in
    (
      take n src ++ (replicate (n - length src) 0 ++ drop n dst),
      strncpy_lem dst src n (omega arith),
      rw (e, drop_all n dst (omega arith), append-nil)
          (c_str-unterminated (take n src) (NoNul-take n src k)),
    )

pub length-strncpy :
    (dst src : Bytes) (n : ℕ) {b : Bytes} → strncpy dst src n ≡ some b → length b ≡ length dst
unfolding strncpy
length-strncpy dst src zero e = ground arith
length-strncpy [] src (suc n) e = cc
length-strncpy (d ∷ dst) [] (suc n) e = elim (Option-cases (strncpy dst [] n)) [
  | inl failed ↦ ground arith
  | inr (t, copied) ↦ ground (arith, length-strncpy dst [] n copied)
]
length-strncpy (d ∷ dst) (s ∷ src) (suc n) e = elim (Option-cases (strncpy dst src n)) [
  | inl failed ↦ ground arith
  | inr (t, copied) ↦ ground (arith, length-strncpy dst src n copied)
]

-- A NUL stored in the last byte of a buffer.
pub store_last :
    (buf : Bytes) (n : ℕ)
    → length buf ≡ suc n
    → (b : Bytes) × (store buf n 0 ≡ some b) × (drop n b ≡ 0 ∷ []) × (length b ≡ suc n)
unfolding store
store_last [] n e = absurd (omega arith)
store_last (x ∷ []) zero e = (0 ∷ [], refl, refl, refl)
store_last (x ∷ y ∷ buf) zero e = absurd (omega arith)
store_last (x ∷ buf) (suc n) e =
    let (b, stored, last, len) = store_last buf n (omega arith) in
    (x ∷ b, rw stored, last, omega arith)

pub until_nul-NoNul : (s : Bytes) → NoNul s → until_nul s ≡ s
unfolding until_nul
until_nul-NoNul [] h = refl
until_nul-NoNul (b ∷ s) h = ground (arith, until_nul-NoNul s h.1)

pub NoNul-until_nul : (s : Bytes) → NoNul (until_nul s)
unfolding until_nul
NoNul-until_nul [] = tt
NoNul-until_nul (b ∷ s) = elim (Bool-cases (b == 0)) [
  | inl nul ↦ rw nul tt
  | inr other ↦ rw other (ground arith, NoNul-until_nul s)
]
