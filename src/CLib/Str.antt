-- ===== src/CLib/Str.antt =====
-- C strings. A buffer is the list of its bytes; a string is what stands before the first NUL.
use kerberized_multimedia_in.Base.{
  ℕ, zero, suc, ◌+◌, ◌*◌, ◌%◌, ◌/◌, Option, none, some, [], ◌∷◌, Bytes, ◌==◌, if◌then◌else◌,
  replicate,
}
use mathlib.Core.Option

-- The string in a buffer; `none` where a reader finds no NUL and leaves the buffer.
unfoldable pub c_str : Bytes → Option Bytes
c_str [] = none
c_str (b ∷ bs) = if b == 0 then some [] else Option.map (◌∷◌ b) (c_str bs)

-- `strncpy(dst, src, n)`, for a string `src`: the rest of the `n` bytes becomes NUL, and `none`
-- is a write behind the end of `dst`.
unfoldable pub strncpy : Bytes → Bytes → ℕ → Option Bytes
strncpy dst src zero = some dst
strncpy [] src (suc n) = none
strncpy (d ∷ dst) [] (suc n) = Option.map (◌∷◌ 0) (strncpy dst [] n)
strncpy (d ∷ dst) (s ∷ src) (suc n) = Option.map (◌∷◌ s) (strncpy dst src n)

-- `buf[i] = b`
unfoldable pub store : Bytes → ℕ → ℕ → Option Bytes
store [] i b = none
store (x ∷ xs) zero b = some (b ∷ xs)
store (x ∷ xs) (suc i) b = Option.map (◌∷◌ x) (store xs i b)

-- The bytes of `htons(n)` in memory, and the number that `ntohs` reads from two bytes.
unfoldable pub htons : ℕ → Bytes
htons n = (n / 256 % 256) ∷ (n % 256) ∷ []

unfoldable pub ntohs : ℕ → ℕ → ℕ
ntohs hi lo = hi * 256 + lo

-- A buffer of `n` bytes after `memset(buf, 0, n)`.
unfoldable pub zeroed : ℕ → Bytes
zeroed n = replicate n 0

-- The string at a pointer to these bytes, a NUL behind them: what `c_str()` is to C.
unfoldable pub until_nul : Bytes → Bytes
until_nul [] = []
until_nul (b ∷ bs) = if b == 0 then [] else b ∷ until_nul bs
