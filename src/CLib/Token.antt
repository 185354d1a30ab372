-- ===== src/CLib/Token.antt =====
-- `strtok` with one delimiter, on the string that its static pointer stands at.
use kerberized_multimedia_in.Base.{ℕ, Option, none, some, [], ◌∷◌, Bytes, ◌==◌, if◌then◌else◌}

unfoldable pub skip_delimiters : ℕ → Bytes → Bytes
skip_delimiters d [] = []
skip_delimiters d (b ∷ bs) = if b == d then skip_delimiters d bs else b ∷ bs

-- The bytes up to a delimiter, and what stands behind it.
unfoldable pub cut : ℕ → Bytes → Bytes × Bytes
cut d [] = ([], [])
cut d (b ∷ bs) = let (word, rest) = cut d bs in if b == d then ([], bs) else (b ∷ word, rest)

abbrev pub token_of : Bytes → Bytes × Bytes → Option (Bytes × Bytes)
token_of [] c = none
token_of (b ∷ bs) c = some c

-- The token and the new place of the static pointer; `none` is the null pointer.
unfoldable pub strtok : ℕ → Bytes → Option (Bytes × Bytes)
unfolding skip_delimiters cut
strtok d s = let t = skip_delimiters d s in token_of t (cut d t)
