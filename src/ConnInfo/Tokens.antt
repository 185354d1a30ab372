-- ===== src/ConnInfo/Tokens.antt =====
-- `parse_conn_info` (kmtools/gcks2.cxx) is determined by the tokens of its text.
use kerberized_multimedia_in.Base.{
  ℕ, zero, suc, ◌+◌, ◌-◌, ◌≤◌, ◌≡◌, refl, inl, inr, some, List, [], ◌∷◌, ◌++◌, Bytes, length,
  replicate, drop, take_all, length-replicate, arith,
}
use kerberized_multimedia_in.CLib.{Outcome, returns, faults, null_pointer, ◌>>=◌}
use kerberized_multimedia_in.CLib.StrLaws.{strncpy_lem}
use kerberized_multimedia_in.CLib.TokenLaws.{tokens, strtok-tokens}
use kerberized_multimedia_in.ConnInfo.{ClientConnInfo, copy_token, port_number, parse_conn_info}

-- The buffer of a string.
abbrev pub terminated : Bytes → Bytes
terminated s = s ++ (0 ∷ [])

pub drop-replicate : (n k : ℕ) → k ≡ n + 1 → drop {A = ℕ} n (replicate k 0) ≡ 0 ∷ []
drop-replicate zero k e = let e' : k ≡ 1 = omega arith in rw e'
drop-replicate (suc n) zero e = absurd (omega arith)
drop-replicate (suc n) (suc k) e = drop-replicate n k (omega arith)

pub copy_token_lem : (t : Bytes) → copy_token t ≡ returns (terminated t)
unfolding copy_token
copy_token_lem t =
    let e : length t - length t ≡ 0 = omega arith in
    let room : length t ≤ length {A = ℕ} (replicate (length t + 1) 0) =
      omega (arith, length-replicate {A = ℕ} (length t + 1) 0) in
    rw (
      strncpy_lem (replicate (length t + 1) 0) t (length t) room,
      take_all (length t) t (omega arith),
      e,
      drop-replicate (length t) (length t + 1) refl,
    )

-- The record that four tokens give; null pointers are read where there are fewer.
abbrev pub of_tokens : List Bytes → ClientConnInfo → Outcome ClientConnInfo
of_tokens (name ∷ addr ∷ port ∷ []) info = port_number port >>= λ _. faults null_pointer
of_tokens (name ∷ addr ∷ port ∷ group ∷ _) info = do
  client_port ← port_number port
  returns (record info {
    client_name = some (terminated name);
    client_addr = some (terminated addr);
    client_port = client_port;
    group_name = some (terminated group);
  })
of_tokens _ info = faults null_pointer

-- The parser against the tokens of its text, the non-empty words between the bars: with four or
-- more of them it fills every field with a terminated copy of its token, and reads the port from
-- the third, where a number that no `int` holds is an overflow; with fewer a null pointer is read,
-- after the port where there are three.
pub parse_conn_info-tokens :
    (s : Bytes) (info : ClientConnInfo) → parse_conn_info s info ≡ of_tokens (tokens b'|' s) info
unfolding parse_conn_info
parse_conn_info-tokens s info = elim (strtok-tokens b'|' s) [
  | inl (z, e) ↦ rw (z, e)
  | inr (name, s1, z, e) ↦
      rw (z, e, copy_token_lem name)
        (elim (strtok-tokens b'|' s1) [
          | inl (z1, e1) ↦ rw (z1, e1)
          | inr (addr, s2, z1, e1) ↦
              rw (z1, e1, copy_token_lem addr)
                (elim (strtok-tokens b'|' s2) [
                  | inl (z2, e2) ↦ rw (z2, e2)
                  | inr (port, s3, z2, e2) ↦
                      rw (z2, e2)
                        (elim (strtok-tokens b'|' s3) [
                          | inl (z3, e3) ↦ rw (z3, e3)
                          | inr (group, s4, z3, e3) ↦ rw (z3, e3, copy_token_lem group)
                        ])
                ])
        ])
]
