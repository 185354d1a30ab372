-- ===== src/Net/Complete.antt =====
-- `net_read` (kmtools/sclient.cxx) against the bytes that arrive, however they are cut.
use kerberized_multimedia_in.Base.{
  ℕ, ◌-◌, ◌+◌, ◌≤◌, ◌<◌, ◌≡◌, ◌≢◌, refl, sym, ◌∙◌, ap, ◌⊎◌, inl, inr, Option, none, some, List, [],
  ◌∷◌, ◌++◌, Bytes, length, take, drop, ltb, ◌==◌, Bool-cases, append-nil, append_assoc, take_all,
  drop_all, take-append, drop-append, take-append_long, drop-append_long, length-append, arith,
}
use kerberized_multimedia_in.Net.{
  Event, bytes, interrupted, failure, NetResult, count, negative, leftover, net_read_loop, net_read,
}

-- The bytes that arrive before the connection fails or is closed.
abbrev pub payload : List Event → Bytes
payload [] = []
payload (interrupted ∷ es) = payload es
payload (failure errno ∷ es) = []
payload (bytes b bs ∷ es) = (b ∷ bs) ++ payload es

abbrev pub first_failure : List Event → Option ℕ
first_failure [] = none
first_failure (interrupted ∷ es) = first_failure es
first_failure (failure errno ∷ es) = some errno
first_failure (bytes b bs ∷ es) = first_failure es

none-ne-some : {errno : ℕ} → ◌≢◌ {A = Option ℕ} none (some errno)
none-ne-some e = cc

-- What a read of `len` bytes behind `got` owes to the events.
abbrev pub Reads : List Event → ℕ → Bytes → NetResult → Type 0
Reads es len got (count bs rest) =
    (bs ≡ got ++ take len (payload es))
    × (payload rest ≡ drop len (payload es))
    × (first_failure rest ≡ first_failure es)
    × ((len ≤ length (payload es)) ⊎ (first_failure es ≡ none))
Reads es len got (negative bs errno rest) =
    (bs ≡ got ++ payload es) × (length (payload es) < len) × (first_failure es ≡ some errno)

payload-leftover : (bs : Bytes) (es : List Event) → payload (leftover bs es) ≡ bs ++ payload es
payload-leftover [] es = refl
payload-leftover (b ∷ bs) es = refl

first_failure-leftover :
    (bs : Bytes) (es : List Event) → first_failure (leftover bs es) ≡ first_failure es
first_failure-leftover [] es = refl
first_failure-leftover (b ∷ bs) es = refl

-- A whole chunk `c` in front of a longer read.
Reads-chunk :
    (b : ℕ) (bs : Bytes) (es : List Event) (len : ℕ) (got : Bytes) (r : NetResult)
    → length (b ∷ bs) < len
    → Reads es (len - length (b ∷ bs)) (got ++ (b ∷ bs)) r
    → Reads (bytes b bs ∷ es) len got r
Reads-chunk b bs es len got (count read rest) h (e, p, f, enough) =
    let k = len - length (b ∷ bs) in
    let split : len ≡ length (b ∷ bs) + k = omega arith in
    (
      e
          ∙ append_assoc got (b ∷ bs) (take k (payload es))
          ∙ ap (λ t. got ++ t) (sym (take-append (b ∷ bs) (payload es) len k split)),
      p ∙ sym (drop-append (b ∷ bs) (payload es) len k split),
      f,
      elim enough [
        | inl le ↦ inl (omega (arith, length-append bs (payload es)))
        | inr closed ↦ inr closed
      ],
    )
Reads-chunk b bs es len got (negative read errno rest) h (e, short, f) =
    (e ∙ append_assoc got (b ∷ bs) (payload es), omega (arith, length-append bs (payload es)), f)

-- A chunk that is as long as the read or longer.
Reads-cut :
    (b : ℕ) (bs : Bytes) (es : List Event) (len : ℕ) (got : Bytes)
    → len ≤ length (b ∷ bs)
    → Reads
        (bytes b bs ∷ es)
        len
        got
        (count (got ++ take len (b ∷ bs)) (leftover (drop len (b ∷ bs)) es))
Reads-cut b bs es len got h = (
  ap (λ t. got ++ t) (sym (take-append_long (b ∷ bs) (payload es) len h)),
  payload-leftover (drop len (b ∷ bs)) es ∙ sym (drop-append_long (b ∷ bs) (payload es) len h),
  first_failure-leftover (drop len (b ∷ bs)) es,
  inl (omega (arith, length-append bs (payload es))),
)

net_read_loop-Reads :
    (es : List Event) (len : ℕ) (got : Bytes)
    → 0 < len
    → Reads es len got (net_read_loop es len got)
unfolding net_read_loop
net_read_loop-Reads [] len got h = (
  sym (rw (take_all {A = ℕ} len [] (omega arith)) (append-nil got)),
  sym (drop_all {A = ℕ} len [] (omega arith)),
  refl,
  inr refl,
)
net_read_loop-Reads (interrupted ∷ es) len got h = net_read_loop-Reads es len got h
net_read_loop-Reads (failure errno ∷ es) len got h = (sym (append-nil got), h, refl)
net_read_loop-Reads (bytes b bs ∷ es) len got h = elim (Bool-cases (ltb (length (b ∷ bs)) len)) [
  | inl whole ↦ rw whole (
      Reads-chunk b bs es len got _ (ground arith)
        (net_read_loop-Reads es (len - length (b ∷ bs)) (got ++ (b ∷ bs)) (ground arith)))
  | inr cut ↦ rw cut (Reads-cut b bs es len got (ground arith))
]

-- Whatever the pieces and the signals in between, `net_read` of `len` bytes ends in one of two ways.
-- It returns the first `len` of the bytes that arrive, or all of them where the peer closes before,
-- and leaves the others for the next read; or it returns a negative count, with the `errno` of the
-- first failure, which has come before `len` bytes.
pub net_read-Reads : (es : List Event) (len : ℕ) → Reads es len [] (net_read es len)
unfolding net_read
net_read-Reads es len = elim (Bool-cases (len == 0)) [
  | inl nothing ↦
      let e : len ≡ 0 = ground arith in rw (nothing, e) (refl, refl, refl, inl (omega arith))
  | inr some_bytes ↦ rw some_bytes (net_read_loop-Reads es len [] (ground arith))
]

-- Where `len` bytes arrive, they are what is read.
pub net_read_enough :
    (es : List Event) (len : ℕ)
    → len ≤ length (payload es)
    → (rest : List Event) × (net_read es len ≡ count (take len (payload es)) rest)
      × (payload rest ≡ drop len (payload es))
      × (first_failure rest ≡ first_failure es)
net_read_enough es len h = go (net_read es len) refl (net_read-Reads es len)
  where
    go :
        (r : NetResult)
        → net_read es len ≡ r
        → Reads es len [] r
        → (rest : List Event) × (net_read es len ≡ count (take len (payload es)) rest)
          × (payload rest ≡ drop len (payload es))
          × (first_failure rest ≡ first_failure es)
    go (count bs rest) e (b, p, f, _) = (rest, e ∙ ap (λ t. count t rest) b, p, f)
    go (negative bs errno rest) e (b, short, f) = absurd (omega arith)

-- Where the peer closes before `len` bytes, what has arrived is read, with no error.
pub net_read_closed :
    (es : List Event) (len : ℕ)
    → length (payload es) ≤ len
    → first_failure es ≡ none
    → (rest : List Event) × (net_read es len ≡ count (payload es) rest)
net_read_closed es len h closed = go (net_read es len) refl (net_read-Reads es len)
  where
    go :
        (r : NetResult)
        → net_read es len ≡ r
        → Reads es len [] r
        → (rest : List Event) × (net_read es len ≡ count (payload es) rest)
    go (count bs rest) e (b, p, f, _) =
        (rest, e ∙ ap (λ t. count t rest) (b ∙ take_all len (payload es) h))
    go (negative bs errno rest) e (b, short, f) = absurd (none-ne-some (sym closed ∙ f))
