-- ===== src/TestSuite/Order.antt =====
-- test_suite/test1.c and test3.c: an array of numbers, shuffled with `rand`.
use kerberized_multimedia_in.Base.{
  ℕ, zero, suc, ◌+◌, ◌-◌, ◌/◌, ◌^◌, Option, none, some, List, [], ◌∷◌,
}
use kerberized_multimedia_in.CLib.{Outcome, returns, in_bounds, ◌>>=◌}
use mathlib.Core.Option

-- RAND_MAX of the platform's stdlib.h.
abbrev pub rand_max : ℕ
rand_max = 2 ^ 31 - 1

-- `rand() / (RAND_MAX/(nvalues-l) + 1)`, where `left` is `nvalues-l`.
unfoldable pub offset : ℕ → ℕ → ℕ
offset rand left = rand / (rand_max / left + 1)

-- `x` put at an index of an array, and what stood there.
unfoldable pub exchange : ℕ → ℕ → List ℕ → Option (ℕ × List ℕ)
exchange x c [] = none
exchange x zero (y ∷ ys) = some (y, x ∷ ys)
exchange x (suc c) (y ∷ ys) = Option.map (λ (z, zs). (z, y ∷ zs)) (exchange x c ys)

-- `t = a[l]; a[l] = a[l+c]; a[l+c] = t`, on the array from `l` on: what is in `a[l]` then, and behind it.
unfoldable pub swap : ℕ → ℕ → List ℕ → Option (ℕ × List ℕ)
unfolding exchange
swap x zero xs = some (x, xs)
swap x (suc c) xs = exchange x c xs

-- The loop over `l`, with `n` rounds to go, on the array from `l` on; `rands n` is what `rand` gives
-- then.
unfoldable pub shuffle : (ℕ → ℕ) → ℕ → List ℕ → Outcome (List ℕ)
unfolding offset swap
shuffle rands zero a = returns a
shuffle rands (suc n) [] = in_bounds none
shuffle rands (suc n) (x ∷ xs) = do
  (first, rest) ← in_bounds (swap x (offset (rands n) (n + 2)) xs)
  shuffled ← shuffle rands n rest
  returns (first ∷ shuffled)

-- An array of `n` numbers that count from `first`: `a[l] = l + 1` or `a[k] = k`.
unfoldable pub count_from : ℕ → ℕ → List ℕ
count_from first zero = []
count_from first (suc n) = first ∷ count_from (first + 1) n

-- `a[i]`
abbrev pub entry : List ℕ → ℕ → Option ℕ
entry [] i = none
entry (x ∷ a) zero = some x
entry (x ∷ a) (suc i) = entry a i
