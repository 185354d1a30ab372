-- ===== src/ConnInfo/RoundTrip.antt =====
-- What `parse_conn_info` (kmtools/gcks2.cxx) reads of the text that the KDC writes (`do_gcks_req`
-- of krb5.patch).
use kerberized_multimedia_in.Base.{
  ℕ, zero, suc, ◌+◌, ◌-◌, take-append, take-append_long, ◌^◌, ◌≤◌, ◌<◌, ◌≡◌, ◌≢◌, ap, ◌∙◌, some, [],
  ◌∷◌, ◌++◌, Bytes, All, length, take, take_all, length-append, append_assoc, arith,
}
use kerberized_multimedia_in.Base.Ints.{pos}
use kerberized_multimedia_in.CLib.{returns, faults, null_pointer, decimal}
use kerberized_multimedia_in.CLib.TokenLaws.{tokens, Without, tokens-append, tokens_whole}
use kerberized_multimedia_in.CLib.NumberLaws.{IsDigit, decimal-IsDigit, atoi-decimal}
use kerberized_multimedia_in.ConnInfo.{
  ClientConnInfo, port_number, parse_conn_info, format_conn_info,
}
use kerberized_multimedia_in.ConnInfo.Tokens.{terminated, parse_conn_info-tokens}

-- A text that stays one token between bars.
abbrev pub IsField : Bytes → Type 0
IsField s = (s ≢ []) × Without b'|' s

IsDigit-Without : (s : Bytes) → All IsDigit s → Without b'|' s
IsDigit-Without [] h = tt
IsDigit-Without (c ∷ s) h = (λ e. absurd (omega arith), IsDigit-Without s h.1)

decimal-IsField : (n : ℕ) → IsField (decimal n)
decimal-IsField n =
    let (c, cs, e, d) = decimal-IsDigit n in rw e ((λ e'. cc), IsDigit-Without (c ∷ cs) d)

-- The four fields, each behind its bar.
abbrev pub barred : Bytes → Bytes → ℕ → Bytes → Bytes → Bytes
barred name addr port group rest =
    name ++ (b'|' ∷ (addr ++ (b'|' ∷ (decimal port ++ (b'|' ∷ (group ++ (b'|' ∷ rest)))))))

tokens-barred :
    (name addr : Bytes) (port : ℕ) (group rest : Bytes)
    → IsField name
    → IsField addr
    → IsField group
    → tokens b'|' (barred name addr port group rest)
      ≡ name ∷ addr ∷ decimal port ∷ group ∷ tokens b'|' rest
tokens-barred name addr port group rest n a g =
    tokens-append b'|' name _ n.0 n.1
    ∙ ap (◌∷◌ name) (
        tokens-append b'|' addr _ a.0 a.1
        ∙ ap (◌∷◌ addr) (
            tokens-append b'|' (decimal port) _ (decimal-IsField port).0 (decimal-IsField port).1
            ∙ ap (◌∷◌ (decimal port)) (tokens-append b'|' group rest g.0 g.1)))

-- What a parse of these fields returns.
abbrev pub filled_in : Bytes → Bytes → ℕ → Bytes → ClientConnInfo → ClientConnInfo
filled_in name addr port group info = record info {
  client_name = some (terminated name);
  client_addr = some (terminated addr);
  client_port = pos port;
  group_name = some (terminated group);
}

port_number-decimal : (port : ℕ) → port < 2 ^ 31 → port_number (decimal port) ≡ returns (pos port)
unfolding port_number
port_number-decimal port h = rw (atoi-decimal port h, port_number)

parse_conn_info-barred :
    (name addr : Bytes) (port : ℕ) (group rest : Bytes) (info : ClientConnInfo)
    → IsField name
    → IsField addr
    → IsField group
    → port < 2 ^ 31
    → parse_conn_info (barred name addr port group rest) info
      ≡ returns (filled_in name addr port group info)
parse_conn_info-barred name addr port group rest info n a g p =
    parse_conn_info-tokens (barred name addr port group rest) info
    ∙ rw (tokens-barred name addr port group rest n a g, port_number-decimal port p)

-- The text that the KDC writes for a client is read back field by field, if no field is empty or
-- holds a bar, the port fits an `int`, and the text fits the 1024 bytes of `connInfo`.
pub parse_conn_info-format_conn_info :
    (cname from_string : Bytes) (port : ℕ) (sname : Bytes) (info : ClientConnInfo)
    → IsField cname
    → IsField from_string
    → IsField sname
    → port < 2 ^ 31
    → length cname + length from_string + length (decimal port) + length sname + 4 < 1024
    → parse_conn_info (format_conn_info cname from_string port sname) info
      ≡ returns (filled_in cname from_string port sname info)
unfolding format_conn_info
parse_conn_info-format_conn_info cname from_string port sname info c f s p room =
    rw
      (take_all 1023 (barred cname from_string port sname []) (
        omega (
          arith,
          length-append cname
              (b'|' ∷ (from_string ++ (b'|' ∷ (decimal port ++ (b'|' ∷ (sname ++ b'|' ∷ [])))))),
          length-append from_string (b'|' ∷ (decimal port ++ (b'|' ∷ (sname ++ b'|' ∷ [])))),
          length-append (decimal port) (b'|' ∷ (sname ++ b'|' ∷ [])),
          length-append sname (b'|' ∷ []),
        )))
      (parse_conn_info-barred cname from_string port sname [] info c f s p)

barred-append :
    (name addr : Bytes) (port : ℕ) (group rest : Bytes)
    → barred name addr port group [] ++ rest ≡ barred name addr port group rest
barred-append name addr port group rest = simp append_assoc

Without-take : (n : ℕ) (s : Bytes) → Without b'|' s → Without b'|' (take n s)
Without-take zero s h = tt
Without-take (suc n) [] h = tt
Without-take (suc n) (b ∷ s) h = (h.0, Without-take n s h.1)

take-ne-nil : (n : ℕ) (s : Bytes) → 0 < n → s ≢ [] → take n s ≢ []
take-ne-nil zero s p h = absurd (omega arith)
take-ne-nil (suc n) [] p h = h
take-ne-nil (suc n) (b ∷ s) p h = λ e. cc

-- A client name that holds bars is read as fields of its own: a principal named
-- `name|addr|port|group|` is taken as that name, address, port and group, whatever address,
-- port and service the KDC wrote behind it, if the name fits the 1024 bytes of `connInfo`.
pub parse_conn_info_injected :
    (name addr : Bytes) (port : ℕ) (group from_string : Bytes) (from_port : ℕ) (sname : Bytes)
    (info : ClientConnInfo)
    → IsField name
    → IsField addr
    → IsField group
    → port < 2 ^ 31
    → length (barred name addr port group []) < 1024
    → parse_conn_info
        (format_conn_info (barred name addr port group []) from_string from_port sname)
        info
      ≡ returns (filled_in name addr port group info)
unfolding format_conn_info
parse_conn_info_injected name addr port group from_string from_port sname info n a g p fits =
    let all = barred name addr port group [] in
    let rest =
      b'|' ∷ (from_string ++ (b'|' ∷ (decimal from_port ++ (b'|' ∷ (sname ++ b'|' ∷ []))))) in
    let room = 1023 - length all in
    rw (take-append all rest 1023 room (omega arith)) (
      ap (λ s. parse_conn_info s info) (barred-append name addr port group (take room rest))
      ∙ parse_conn_info-barred name addr port group (take room rest) info n a g p)

-- A client name of 1023 bytes or more leaves no room for the other fields, and the parse reads a
-- null pointer.
pub parse_conn_info_cut :
    (cname from_string : Bytes) (port : ℕ) (sname : Bytes) (info : ClientConnInfo)
    → IsField cname
    → 1023 ≤ length cname
    → parse_conn_info (format_conn_info cname from_string port sname) info ≡ faults null_pointer
unfolding format_conn_info
parse_conn_info_cut cname from_string port sname info c long =
    rw
      (take-append_long cname
        (b'|' ∷ (from_string ++ (b'|' ∷ (decimal port ++ (b'|' ∷ (sname ++ b'|' ∷ [])))))) 1023
        long)
      (parse_conn_info-tokens (take 1023 cname) info
        ∙ rw (
            tokens_whole b'|' (take 1023 cname) (take-ne-nil 1023 cname (omega arith) c.0)
              (Without-take 1023 cname c.1)))
