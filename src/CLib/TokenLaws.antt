-- ===== src/CLib/TokenLaws.antt =====
-- `strtok` against the non-empty words between the delimiters.
use kerberized_multimedia_in.Base.{
  ℕ, ◌≡◌, ◌≢◌, All, true, ◌++◌, arith, refl, sym, ◌∙◌, ◌⊎◌, inl, inr, false, none, some, List, [],
  ◌∷◌, Bytes, ◌==◌, if◌then◌else◌, Bool-cases,
}
use kerberized_multimedia_in.CLib.Token.{skip_delimiters, cut, strtok}

-- A byte in front of the first word.
abbrev glue : ℕ → List Bytes → List Bytes
glue b [] = (b ∷ []) ∷ []
glue b (w ∷ ws) = (b ∷ w) ∷ ws

-- The words between the delimiters, the empty ones too.
abbrev words : ℕ → Bytes → List Bytes
words d [] = [] ∷ []
words d (b ∷ bs) = if b == d then [] ∷ words d bs else glue b (words d bs)

abbrev filled : List Bytes → List Bytes
filled [] = []
filled ([] ∷ ws) = filled ws
filled ((b ∷ w) ∷ ws) = (b ∷ w) ∷ filled ws

-- The tokens of a string: its non-empty words.
abbrev pub tokens : ℕ → Bytes → List Bytes
tokens d s = filled (words d s)

tokens-skip_delimiters : (d : ℕ) (s : Bytes) → tokens d (skip_delimiters d s) ≡ tokens d s
unfolding skip_delimiters
tokens-skip_delimiters d [] = refl
tokens-skip_delimiters d (b ∷ bs) = elim (Bool-cases (b == d)) [
  | inl same ↦ rw same (tokens-skip_delimiters d bs)
  | inr other ↦ rw (other, other)
]

-- The words are the first one and those of the rest.
words-cut :
    (d : ℕ) (s : Bytes)
    → (ws : List Bytes) × (words d s ≡ (cut d s).0 ∷ ws) × (filled ws ≡ tokens d (cut d s).1)
unfolding cut
words-cut d [] = ([], refl, refl)
words-cut d (b ∷ bs) = elim (Bool-cases (b == d)) [
  | inl same ↦ (words d bs, rw same, rw same)
  | inr other ↦ let (ws, e, f) = words-cut d bs in (ws, rw (other, e), rw (other, f))
]

-- Where `skip_delimiters` stops there is no delimiter.
skip_delimiters-cases :
    (d : ℕ) (s : Bytes)
    → (skip_delimiters d s ≡ [])
      ⊎ ((b : ℕ) × (bs : Bytes) × (skip_delimiters d s ≡ b ∷ bs) × ((b == d) ≡ false))
unfolding skip_delimiters
skip_delimiters-cases d [] = inl refl
skip_delimiters-cases d (b ∷ bs) = elim (Bool-cases (b == d)) [
  | inl same ↦ rw same (skip_delimiters-cases d bs)
  | inr other ↦ inr (b, bs, rw other, other)
]

-- What one call of `strtok` does: the null pointer where no token is left, or the first token.
pub strtok-tokens :
    (d : ℕ) (s : Bytes)
    → ((strtok d s ≡ none) × (tokens d s ≡ []))
      ⊎ ((t : Bytes) × (rest : Bytes) × (strtok d s ≡ some (t, rest))
          × (tokens d s ≡ t ∷ tokens d rest))
unfolding strtok
strtok-tokens d s = elim (skip_delimiters-cases d s) [
  | inl empty ↦ inl (rw empty, sym (tokens-skip_delimiters d s) ∙ rw empty)
  | inr (b, bs, e, other) ↦
      let (ws, split, same) = words-cut d bs in
      inr (
        b ∷ (cut d bs).0,
        (cut d bs).1,
        rw e (unfold cut in rw other),
        sym (tokens-skip_delimiters d s) ∙ rw (e, other, split, same),
      )
]

-- The string holds no byte `d`.
abbrev pub Without : ℕ → Bytes → Type 0
Without d = All (λ b. b ≢ d)

words-append : (d : ℕ) (w rest : Bytes) → Without d w → words d (w ++ (d ∷ rest)) ≡ w ∷ words d rest
words-append d [] rest h = let e : (d == d) ≡ true = ground arith in rw e
words-append d (b ∷ w) rest h =
    let e : (b == d) ≡ false = ground (arith, h.0) in rw (e, words-append d w rest h.1)

words_whole : (d : ℕ) (w : Bytes) → Without d w → words d w ≡ w ∷ []
words_whole d [] h = refl
words_whole d (b ∷ w) h =
    let e : (b == d) ≡ false = ground (arith, h.0) in rw (e, words_whole d w h.1)

-- A word that is not empty, in front of a delimiter, is the first token.
pub tokens-append :
    (d : ℕ) (w rest : Bytes) → w ≢ [] → Without d w → tokens d (w ++ (d ∷ rest)) ≡ w ∷ tokens d rest
tokens-append d [] rest ne h = absurd (ne refl)
tokens-append d (b ∷ w) rest ne h = rw (words-append d (b ∷ w) rest h)

pub tokens_whole : (d : ℕ) (w : Bytes) → w ≢ [] → Without d w → tokens d w ≡ w ∷ []
tokens_whole d [] ne h = absurd (ne refl)
tokens_whole d (b ∷ w) ne h = rw (words_whole d (b ∷ w) h)
