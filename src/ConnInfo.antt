-- ===== src/ConnInfo.antt =====
-- kmtools/gcks2.cxx: `client_conn_info_t` and `parse_conn_info`; and the `snprintf` in
-- krb5.patch (`do_gcks_req`) that writes the text which `parse_conn_info` reads.
pub mod Tokens
pub mod RoundTrip
use kerberized_multimedia_in.Base.{
  ℕ, ◌+◌, ◌≡◌, Option, none, some, List, [], ◌∷◌, ◌++◌, Bytes, length, replicate, take,
}
use kerberized_multimedia_in.Base.Ints.{ℤ}
use kerberized_multimedia_in.CLib.{
  Outcome, returns, faults, overflow, ◌>>=◌, deref, in_bounds, strncpy, strtok, atoi, decimal,
}

-- A `char*` field is the buffer that it points to, NUL included, or the null pointer.
pub record ClientConnInfo : Type 0 where
  pub client_name : Option Bytes
  pub client_addr : Option Bytes
  pub group_name : Option Bytes
  pub client_port : ℤ

-- `malloc(strlen(pch) + 1)`, `memset` to 0 and `strncpy` of `strlen(pch)` bytes. The source does
-- not test `malloc`, and neither does the model.
pub copy_token : Bytes → Outcome Bytes
copy_token pch = in_bounds (strncpy (replicate (length pch + 1) 0) pch (length pch))

-- `atoi`, undefined where no `int` holds the number.
unfoldable pub port_number : Bytes → Outcome ℤ
port_number pch = elim (atoi pch) [ none ↦ faults overflow | some n ↦ returns n ]

-- Each `strtok` goes on where the one before stopped; a missing token is a null pointer, which
-- `strlen` and `atoi` read through.
pub parse_conn_info : Bytes → ClientConnInfo → Outcome ClientConnInfo
parse_conn_info conn_info info = do
  (name, s1) ← deref (strtok b'|' conn_info)
  client_name ← copy_token name
  (addr, s2) ← deref (strtok b'|' s1)
  client_addr ← copy_token addr
  (port, s3) ← deref (strtok b'|' s2)
  client_port ← port_number port
  (group, s4) ← deref (strtok b'|' s3)
  group_name ← copy_token group
  returns (record info {
    client_name = some client_name;
    client_addr = some client_addr;
    client_port = client_port;
    group_name = some group_name;
  })

-- `snprintf(connInfo, 1024, "%s|%s|%d|%s|", cname, fromString, from->port, sname)`, as a string.
unfoldable pub format_conn_info : Bytes → Bytes → ℕ → Bytes → Bytes
format_conn_info cname from_string port sname =
    take 1023
      (cname ++ (b'|' ∷ (from_string ++ (b'|' ∷ (decimal port ++ (b'|' ∷ (sname ++ b'|' ∷ [])))))))
