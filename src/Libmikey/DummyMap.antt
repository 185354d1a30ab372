-- ===== src/Libmikey/DummyMap.antt =====
-- minisip.patch: the map of dummy CS identifiers (`MikeyCsIdMapDummy` in MikeyCsIdMap.cxx, and its place
-- in MikeyPayloadHDR.cxx).
use kerberized_multimedia_in.Base.{
  ℕ, zero, suc, ◌+◌, ◌*◌, ◌%◌, ◌≤◌, ◌≡◌, refl, ap, sym, ◌∙◌, Option, none, some, List, [], ◌∷◌,
  ◌++◌, Bytes, length, take, drop, append_assoc, length-append, length-take, length-drop, ltb,
  if◌then◌else◌, arith, Bool-cases, inl, inr, false,
}
use kerberized_multimedia_in.CLib.{Outcome, returns, ◌>>=◌, in_bounds, store}

-- The numbers of the policies, one for each crypto session.
abbrev DummyMap : Type 0
DummyMap = List ℕ

-- The constructor that reads a message does nothing.
read_map : Bytes → DummyMap
read_map start = []

-- `length()`
map_length : DummyMap → ℕ
map_length cs = 13 * length cs

-- The loop of `writeData`, from session `j` on.
write_policies : ℕ → DummyMap → Bytes → Outcome Bytes
write_policies j [] start = returns start
write_policies j (policy_no ∷ cs) start = do
  written ← in_bounds (store start (13 * j) (policy_no % 256))
  write_policies (j + 1) cs written

-- `writeData`; `none` where it throws.
write_data : DummyMap → Bytes → ℕ → Outcome (Option Bytes)
unfolding map_length write_policies
write_data cs start expected_length =
    if ltb expected_length (map_length cs)
    then returns none
    else (do written ← write_policies 0 cs start; returns (some written))

-- The map of a header with a number of crypto sessions, and the offset of the end of the header.
read_header : ℕ → Bytes → DummyMap × ℕ
unfolding read_map
read_header n_cs start = (read_map (take (13 * n_cs) (drop 10 start)), 10 + 13 * n_cs)

-- The first of every 13 bytes is the policy; the others are as they were.
abbrev spread : DummyMap → Bytes → Bytes
spread [] bytes = bytes
spread (policy_no ∷ cs) [] = []
spread (policy_no ∷ cs) (b ∷ bytes) =
    (policy_no % 256) ∷ (take 12 bytes ++ spread cs (drop 12 bytes))

store-append :
    (front : Bytes) (n b x : ℕ) (bytes : Bytes)
    → n ≡ length front
    → store (front ++ (b ∷ bytes)) n x ≡ some (front ++ (x ∷ bytes))
unfolding store
store-append [] zero b x bytes e = refl
store-append [] (suc n) b x bytes e = absurd (omega arith)
store-append (f ∷ front) zero b x bytes e = absurd (omega arith)
store-append (f ∷ front) (suc n) b x bytes e = rw (store-append front n b x bytes (omega arith))

take-drop : (n : ℕ) (bytes : Bytes) → take n bytes ++ drop n bytes ≡ bytes
take-drop zero bytes = refl
take-drop (suc n) [] = refl
take-drop (suc n) (b ∷ bytes) = ap (◌∷◌ b) (take-drop n bytes)

write_policies-spread :
    (j : ℕ) (cs : DummyMap) (front bytes : Bytes)
    → length front ≡ 13 * j
    → 13 * length cs ≤ length bytes
    → write_policies j cs (front ++ bytes) ≡ returns (front ++ spread cs bytes)
unfolding write_policies
write_policies-spread j [] front bytes e h = refl
write_policies-spread j (policy_no ∷ cs) front [] e h = absurd (omega arith)
write_policies-spread j (policy_no ∷ cs) front (b ∷ bytes) e h =
    ap (λ w. in_bounds w >>= λ written. write_policies (j + 1) cs written)
      (store-append front (13 * j) b (policy_no % 256) bytes (sym e))
    ∙ ap (write_policies (j + 1) cs) (regroup bytes (take-drop 12 bytes))
    ∙ write_policies-spread (j + 1) cs (front ++ ((policy_no % 256) ∷ take 12 bytes))
        (drop 12 bytes)
        (omega
          (arith, length-append front ((policy_no % 256) ∷ take 12 bytes), length-take 12 bytes))
        (omega (arith, length-drop 12 bytes))
    ∙ ap returns
        (append_assoc front ((policy_no % 256) ∷ take 12 bytes) (spread cs (drop 12 bytes)))
  where
    regroup :
        (rest : Bytes)
        → take 12 bytes ++ drop 12 bytes ≡ rest
        → front ++ ((policy_no % 256) ∷ rest)
          ≡ (front ++ ((policy_no % 256) ∷ take 12 bytes)) ++ drop 12 bytes
    regroup rest same = sym (
        append_assoc front ((policy_no % 256) ∷ take 12 bytes) (drop 12 bytes)
        ∙ ap (λ r. front ++ ((policy_no % 256) ∷ r)) same)

write_data-spread :
    (cs : DummyMap) (start : Bytes) (expected_length : ℕ)
    → expected_length ≡ length start
    → write_data cs start expected_length ≡ (
        if ltb expected_length (map_length cs)
        then returns none
        else returns (some (spread cs start)))
unfolding write_data map_length
write_data-spread cs start expected_length e =
    elim (Bool-cases (ltb expected_length (13 * length cs))) [
      | inl less ↦ rw less
      | inr fits ↦
          rw (fits, write_policies-spread 0 cs [] start refl (room cs start expected_length e fits))
    ]
  where
    room :
        (cs : DummyMap) (start : Bytes) (expected_length : ℕ)
        → expected_length ≡ length start
        → ltb expected_length (13 * length cs) ≡ false
        → 13 * length cs ≤ length start
    room cs start expected_length e fits = ground arith

length-spread : (cs : DummyMap) (bytes : Bytes) → length (spread cs bytes) ≡ length bytes
length-spread [] bytes = refl
length-spread (policy_no ∷ cs) [] = refl
length-spread (policy_no ∷ cs) (b ∷ bytes) = omega (
  arith,
  length-append (take 12 bytes) (spread cs (drop 12 bytes)),
  length-take 12 bytes,
  length-spread cs (drop 12 bytes),
  length-drop 12 bytes,
)
