-- ===== src/CLib/BufferLaws.antt =====
-- Buffers with a NUL put in their last byte.
use kerberized_multimedia_in.Base.{
  ℕ, zero, suc, ◌+◌, ◌-◌, ◌≤◌, ◌≡◌, refl, ap, ◌∙◌, some, [], ◌∷◌, ◌++◌, Bytes, length, take,
  replicate, arith, append-nil, append_assoc, take_all, drop_all, take-append, length-append,
  length-replicate,
}
use kerberized_multimedia_in.CLib.Str.{c_str, strncpy, store, zeroed}
use kerberized_multimedia_in.CLib.StrLaws.{NoNul, strncpy_lem, c_str-padded}

-- A NUL behind the first `n` bytes of a buffer of one byte more.
pub store_end :
    (buf : Bytes) (n : ℕ) → length buf ≡ n + 1 → store buf n 0 ≡ some (take n buf ++ (0 ∷ []))
unfolding store
store_end [] n e = absurd (omega arith)
store_end (b ∷ []) zero e = refl
store_end (b ∷ c ∷ buf) zero e = absurd (omega arith)
store_end (b ∷ buf) (suc n) e = rw (store_end buf n (omega arith))

pub length-zeroed : (n : ℕ) → length (zeroed n) ≡ n
unfolding zeroed
length-zeroed n = length-replicate {A = ℕ} n 0

take-replicate : (m k : ℕ) → m ≤ k → take {A = ℕ} m (replicate k 0) ≡ replicate m 0
take-replicate zero k h = refl
take-replicate (suc m) zero h = absurd (omega arith)
take-replicate (suc m) (suc k) h = ap (◌∷◌ 0) (take-replicate m k (omega arith))

-- A string that leaves room in a buffer is read back from it, also with a NUL put in the last byte.
pub c_str-closed :
    (memory s : Bytes) (n : ℕ)
    → length memory ≡ n + 1
    → length s ≤ n
    → NoNul s
    → (copied closed : Bytes) × (strncpy memory s (n + 1) ≡ some copied)
      × (store copied n 0 ≡ some closed)
      × (c_str closed ≡ some s)
c_str-closed memory s n len short clean =
    let k = n + 1 - length s in
    let buf = s ++ replicate k 0 in
    let copied : strncpy memory s (n + 1) ≡ some buf =
      strncpy_lem memory s (n + 1) (omega arith)
      ∙ rw (take_all (n + 1) s (omega arith), drop_all (n + 1) memory (omega arith), append-nil) in
    let full : length buf ≡ n + 1 =
      omega (arith, length-append s (replicate k 0), length-replicate {A = ℕ} k 0) in
    (
      buf,
      take n buf ++ (0 ∷ []),
      copied,
      store_end buf n full,
      rw
          (
            take-append s (replicate k 0) n (n - length s) (omega arith),
            take-replicate (n - length s) k (omega arith),
            append_assoc s (replicate (n - length s) 0) (0 ∷ []),
          )
          (c_str-padded s (n - length s) [] clean),
    )
