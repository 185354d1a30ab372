-- ===== src/CLib/NumberLaws.antt =====
-- `atoi` reads back what "%d" prints.
use kerberized_multimedia_in.Base.{
  ℕ, zero, suc, ◌+◌, ◌-◌, ◌*◌, ◌/◌, ◌%◌, ◌^◌, ◌≤◌, ◌<◌, ◌≡◌, refl, ap, ◌∙◌, inl, inr, true, false,
  some, [], ◌∷◌, Bytes, All, ◌==◌, ltb, Bool-cases, lt→ltb, arith,
}
use kerberized_multimedia_in.Base.Ints.{pos}
use kerberized_multimedia_in.CLib.Number.{
  is_digit, skip_spaces, digits_value, signed_value, checked_int, atoi, decimal_onto, decimal,
}

abbrev pub IsDigit : ℕ → Type 0
IsDigit c = (b'0' ≤ c) × (c ≤ b'9')

digits_value-digit :
    (acc d : ℕ) (rest : Bytes)
    → d < 10
    → digits_value acc ((b'0' + d) ∷ rest) ≡ digits_value (acc * 10 + d) rest
unfolding digits_value
digits_value-digit acc d rest h =
    let e : is_digit (b'0' + d) ≡ true = ground arith in
    let e' : b'0' + d - b'0' ≡ d = omega arith in rw (e, e')

digits_value-decimal_onto :
    (fuel n : ℕ) (rest : Bytes)
    → n < fuel
    → digits_value 0 (decimal_onto fuel n rest) ≡ digits_value n rest
unfolding decimal_onto
digits_value-decimal_onto zero n rest h = elim h [ ]
digits_value-decimal_onto (suc fuel) n rest h = elim (Bool-cases (ltb n 10)) [
  | inl last ↦
      rw last
        (digits_value-digit 0 n rest (ground arith) ∙ ap (λ v. digits_value v rest) (omega arith))
  | inr more ↦ rw more (
      digits_value-decimal_onto fuel (n / 10) ((b'0' + n % 10) ∷ rest) (ground arith)
      ∙ digits_value-digit (n / 10) (n % 10) rest (omega arith)
      ∙ ap (λ v. digits_value v rest) (omega arith))
]

-- The text starts with a digit, and holds digits only before `rest`.
decimal_onto-IsDigit :
    (fuel n : ℕ) (rest : Bytes)
    → n < fuel
    → All IsDigit rest
    → (c : ℕ) × (cs : Bytes) × (decimal_onto fuel n rest ≡ c ∷ cs) × All IsDigit (c ∷ cs)
unfolding decimal_onto
decimal_onto-IsDigit zero n rest lt h = elim lt [ ]
decimal_onto-IsDigit (suc fuel) n rest lt h = elim (Bool-cases (ltb n 10)) [
  | inl last ↦ (b'0' + n, rest, rw last, ((omega arith, ground arith), h))
  | inr more ↦ rw more (
      decimal_onto-IsDigit fuel (n / 10) ((b'0' + n % 10) ∷ rest) (ground arith)
        ((omega arith, omega arith), h))
]

pub decimal-IsDigit : (n : ℕ) → (c : ℕ) × (cs : Bytes) × (decimal n ≡ c ∷ cs) × All IsDigit (c ∷ cs)
unfolding decimal
decimal-IsDigit n = decimal_onto-IsDigit (n + 1) n [] (omega arith) tt

-- Text that starts with a digit has no spaces and no sign to skip.
skip_spaces-digit : (c : ℕ) (cs : Bytes) → IsDigit c → skip_spaces (c ∷ cs) ≡ c ∷ cs
unfolding skip_spaces
skip_spaces-digit c cs d = ground arith

signed_value-digit :
    (c : ℕ) (cs : Bytes) → IsDigit c → signed_value (c ∷ cs) ≡ pos (digits_value 0 (c ∷ cs))
unfolding signed_value
signed_value-digit c cs d =
    let minus : (c == b'-') ≡ false = ground arith in
    let plus : (c == b'+') ≡ false = ground arith in rw (minus, plus)

atoi-digits :
    (c : ℕ) (cs : Bytes) (n : ℕ)
    → IsDigit c
    → digits_value 0 (c ∷ cs) ≡ n
    → n < 2 ^ 31
    → atoi (c ∷ cs) ≡ some (pos n)
unfolding atoi
atoi-digits c cs n d e h =
    ap checked_int
      (ap signed_value (skip_spaces-digit c cs d) ∙ signed_value-digit c cs d ∙ ap pos e)
    ∙ rw (lt→ltb n (2 ^ 31) h)

pub atoi-decimal : (n : ℕ) → n < 2 ^ 31 → atoi (decimal n) ≡ some (pos n)
atoi-decimal n h =
    let (c, cs, e, d) = decimal-IsDigit n in
    rw e (
      atoi-digits c cs n d.0
        (rw (← e) (
          unfold decimal in
          digits_value-decimal_onto (n + 1) n [] (omega arith) ∙ (unfold digits_value in refl)))
        h)
