-- ===== src/TestSuite/Shuffle.antt =====
-- The shuffle of the groups (test_suite/test1.c) and clients (test3.c) stays inside
-- its array and keeps its elements.
use kerberized_multimedia_in.Base.{
  ℕ, zero, suc, ◌+◌, ◌-◌, ◌*◌, ◌/◌, ◌≤◌, ◌<◌, ◌≡◌, refl, true, some, List, [], ◌∷◌, length,
  length-take, take, ◌==◌, leb, ltb, ◌&&◌, if◌then◌else◌, arith,
}
use kerberized_multimedia_in.Base.Ints.{pos, ltb_ℤ}
use kerberized_multimedia_in.CLib.{returns}
use kerberized_multimedia_in.TestSuite.Order.{rand_max, offset, exchange, swap, shuffle, count_from}
use kerberized_multimedia_in.TestSuite.Measures.{group_order, client_order}
use native.Mathlib.Nat.{div-lt_iff_lt-mul, lt-mul-div-succ}

-- How often a number stands in a list.
abbrev pub occurrences : ℕ → List ℕ → ℕ
occurrences x [] = 0
occurrences x (y ∷ ys) = (if x == y then 1 else 0) + occurrences x ys

-- `rand() / (RAND_MAX/k + 1)` is below `k`.
offset_lt : (r k : ℕ) → r ≤ rand_max → 0 < k → offset r k < k
unfolding offset
offset_lt r k h p =
    let d = rand_max / k + 1 in
    let below : rand_max < k * d = lt-mul-div-succ rand_max p in
    let pos_d : 0 < d = omega arith in
    (div-lt_iff_lt-mul {k = d} {x = r} {y = k} pos_d).1 (omega arith)

exchange_lem :
    (x c : ℕ) (xs : List ℕ)
    → c < length xs
    → (y : ℕ) × (ys : List ℕ) × (exchange x c xs ≡ some (y, ys))
      × (length ys ≡ length xs)
      × ((z : ℕ) → occurrences z (y ∷ ys) ≡ occurrences z (x ∷ xs))
unfolding exchange
exchange_lem x c [] h = absurd (omega arith)
exchange_lem x zero (y ∷ ys) h = (y, x ∷ ys, refl, refl, λ z. omega arith)
exchange_lem x (suc c) (w ∷ xs) h =
    let (y, ys, e, len, same) = exchange_lem x c xs (omega arith) in
    (y, w ∷ ys, rw e, omega arith, λ z. omega (arith, same z))

swap_lem :
    (x c : ℕ) (xs : List ℕ)
    → c < length xs + 1
    → (y : ℕ) × (ys : List ℕ) × (swap x c xs ≡ some (y, ys))
      × (length ys ≡ length xs)
      × ((z : ℕ) → occurrences z (y ∷ ys) ≡ occurrences z (x ∷ xs))
unfolding swap
swap_lem x zero xs h = (x, xs, refl, refl, λ z. refl)
swap_lem x (suc c) xs h = exchange_lem x c xs (omega arith)

-- Whatever `rand` gives, up to RAND_MAX, the shuffle of an array with one element more than it has
-- rounds reads and writes inside the array, and ends with the same elements, each as often as before.
pub shuffle_lem :
    (rands : ℕ → ℕ) (n : ℕ) (a : List ℕ)
    → ((i : ℕ) → rands i ≤ rand_max)
    → length a ≡ n + 1
    → (b : List ℕ) × (shuffle rands n a ≡ returns b)
      × (length b ≡ length a)
      × ((z : ℕ) → occurrences z b ≡ occurrences z a)
unfolding shuffle
shuffle_lem rands zero a h len = (a, refl, refl, λ z. refl)
shuffle_lem rands (suc n) [] h len = absurd (omega arith)
shuffle_lem rands (suc n) (x ∷ xs) h len =
    let small = offset_lt (rands n) (n + 2) (h n) (omega arith) in
    let (first, rest, e, len1, same) = swap_lem x (offset (rands n) (n + 2)) xs (omega arith) in
    let (b, e', len2, same') = shuffle_lem rands n rest h (omega arith) in
    (first ∷ b, rw (e, e'), omega arith, λ z. omega (arith, same z, same' z))

pub occurrences-take : (n z : ℕ) (gs : List ℕ) → occurrences z (take n gs) ≤ occurrences z gs
occurrences-take zero z gs = omega arith
occurrences-take (suc n) z [] = omega arith
occurrences-take (suc n) z (g ∷ gs) = omega (arith, occurrences-take n z gs)

-- `k` different ones of the `n` numbers from `first` on.
abbrev pub IsSelection : (first n k : ℕ) → List ℕ → Type 0
IsSelection first n k cs =
    (length cs ≡ k)
    × ((z : ℕ) → occurrences z cs ≤ (if leb first z && ltb z (first + n) then 1 else 0))

length-count_from : (first n : ℕ) → length (count_from first n) ≡ n
unfolding count_from
length-count_from first zero = refl
length-count_from first (suc n) = omega (arith, length-count_from (first + 1) n)

occurrences-count_from :
    (z first n : ℕ)
    → occurrences z (count_from first n) ≡ (if leb first z && ltb z (first + n) then 1 else 0)
unfolding count_from
occurrences-count_from z first zero = ground arith
occurrences-count_from z first (suc n) = ground (arith, occurrences-count_from z (first + 1) n)

-- Whatever `rand` gives, the array of the `n` numbers from `first` on is shuffled inside its bounds,
-- and every part in front of it is of different ones of them.
order_lem :
    (rands : ℕ → ℕ) (first n : ℕ)
    → ((i : ℕ) → rands i ≤ rand_max)
    → 1 ≤ n
    → (b : List ℕ) × (shuffle rands (n - 1) (count_from first n) ≡ returns b)
      × (length b ≡ n)
      × ((k : ℕ) → k ≤ n → IsSelection first n k (take k b))
order_lem rands first n h some_element =
    let all = count_from first n in
    let (b, e, len, same) =
      shuffle_lem rands (n - 1) all h (omega (arith, length-count_from first n)) in
    let full : length b ≡ n = omega (arith, length-count_from first n) in
    (
      b,
      e,
      full,
      λ k few. (
        omega (arith, length-take k b),
        λ z. omega (arith, occurrences-take k z b, same z, occurrences-count_from z first n),
      ),
    )

-- Whatever `rand` gives, a client of test1 gets an array of all groups, and the first `k` of it, for
-- any `k` up to the number of groups, are different groups.
pub group_order-IsSelection :
    (rands : ℕ → ℕ) (group_count : ℕ)
    → ((i : ℕ) → rands i ≤ rand_max)
    → 1 ≤ group_count
    → (a : List ℕ) × (group_order rands group_count ≡ returns a)
      × (length a ≡ group_count)
      × ((k : ℕ) → k ≤ group_count → IsSelection 1 group_count k (take k a))
unfolding group_order
group_order-IsSelection rands group_count h some_group = order_lem rands 1 group_count h some_group

-- Whatever `rand` gives, a group of test3 gets an array of all clients, and the first `k` of it, for
-- any `k` up to the number of clients, are different clients.
pub client_order-IsSelection :
    (rands : ℕ → ℕ) (num_of_clients : ℕ)
    → ((i : ℕ) → rands i ≤ rand_max)
    → 1 ≤ num_of_clients
    → (a : List ℕ) × (client_order rands (pos num_of_clients) ≡ returns a)
      × (length a ≡ num_of_clients)
      × ((k : ℕ) → k ≤ num_of_clients → IsSelection 0 num_of_clients k (take k a))
unfolding client_order
client_order-IsSelection rands num_of_clients h some_client =
    let (a, e, len, r) = order_lem rands 0 num_of_clients h some_client in
    let some_size : ltb_ℤ (pos 0) (pos num_of_clients) ≡ true = ground arith in
    (a, rw some_size e, len, r)
