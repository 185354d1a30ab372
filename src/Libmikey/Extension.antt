-- ===== src/Libmikey/Extension.antt =====
-- minisip.patch: the connection information on its way through the general extension.
use kerberized_multimedia_in.Base.{
  ℕ, zero, suc, ◌+◌, ◌-◌, ◌*◌, ◌/◌, ◌%◌, ◌≤◌, ◌<◌, ◌≡◌, refl, ◌∙◌, true, leb, Option, none, some,
  inl, inr, [], ◌∷◌, ◌++◌, Bytes, length, take, drop, take_all, drop_all, take-append_long,
  append-nil, length-append, if◌then◌else◌, Bool-cases, leb→le, arith,
}
use kerberized_multimedia_in.CLib.{returns, faults, out_of_bounds, c_str, strncpy, zeroed}
use kerberized_multimedia_in.CLib.BufferLaws.{length-zeroed}
use kerberized_multimedia_in.CLib.StrLaws.{NoNul, until_nul-NoNul, strncpy_lem, c_str-unterminated}
use kerberized_multimedia_in.Libmikey.{
  GeneralExtension, krb5_id, copy_bytes, new_extension, read_extension, conn_info_payload, at_most,
  set_offer_conn_info,
}

copy_bytes_whole :
    (n : ℕ) (src dst : Bytes)
    → n ≤ length src
    → n ≤ length dst
    → copy_bytes n src dst ≡ returns (take n src ++ drop n dst)
unfolding copy_bytes
copy_bytes_whole zero src dst h k = refl
copy_bytes_whole (suc n) [] dst h k = absurd (omega arith)
copy_bytes_whole (suc n) (b ∷ src) [] h k = absurd (omega arith)
copy_bytes_whole (suc n) (b ∷ src) (d ∷ dst) h k =
    rw (copy_bytes_whole n src dst (omega arith) (omega arith))

copy_bytes_short :
    (n : ℕ) (src dst : Bytes) → length src < n → copy_bytes n src dst ≡ faults out_of_bounds
unfolding copy_bytes
copy_bytes_short zero src dst h = absurd (omega arith)
copy_bytes_short (suc n) [] dst h = refl
copy_bytes_short (suc n) (b ∷ src) [] h = refl
copy_bytes_short (suc n) (b ∷ src) (d ∷ dst) h = rw (copy_bytes_short n src dst (omega arith))

-- The receiver of a payload with `body` behind its head, to the end of the message: the array is the body
-- up to the length that the head gives, and zeros; where the head gives more than there is, the
-- receiver reads and writes behind its arrays, whatever key the message was made with.
pub read_extension_branches :
    (next type hi lo : ℕ) (body : Bytes)
    → read_extension (next ∷ type ∷ hi ∷ lo ∷ body) (length (next ∷ type ∷ hi ∷ lo ∷ body)) ≡ (
        if leb (hi * 256 + lo) (length body)
        then returns (record {
          type = type;
          leng = hi * 256 + lo;
          contents = take (hi * 256 + lo) body ++ drop (hi * 256 + lo) (zeroed (length body));
        })
        else faults out_of_bounds)
unfolding read_extension
read_extension_branches next type hi lo body =
    let n = hi * 256 + lo in
    let room : length (next ∷ type ∷ hi ∷ lo ∷ body) - 4 ≡ length body = omega arith in
    rw room (elim (Bool-cases (leb n (length body))) [
      | inl fits ↦ rw (
        fits,
        copy_bytes_whole n body (zeroed (length body)) (ground arith)
            (omega (arith, length-zeroed (length body), leb→le n (length body) fits)),
      )
      | inr long ↦ rw (long, copy_bytes_short n body (zeroed (length body)) (ground arith))
    ])

at_most-clean : (text rest : Bytes) → NoNul text → at_most (length text) (text ++ rest) ≡ some text
unfolding at_most
at_most-clean [] rest clean = refl
at_most-clean (b ∷ text) rest (h, clean) = ground (arith, at_most-clean text rest clean)

-- A payload in a message, as RFC 3830 lays it out (section 6.15): the type of the next one, its own type,
-- its length in two bytes and its data; then what follows.
abbrev pub laid_out : ℕ → GeneralExtension → Bytes → Bytes
laid_out next e rest = next ∷ e.type ∷ (e.leng / 256 % 256) ∷ (e.leng % 256) ∷ (e.contents ++ rest)

-- The payload of a sender for a text, and what a receiver makes of it.
new_extension-clean :
    (text : Bytes)
    → length text < 65536
    → new_extension krb5_id (length text) text
      ≡ returns (record { type = krb5_id; leng = length text; contents = text })
unfolding new_extension
new_extension-clean text short =
    let whole : length text % 65536 ≡ length text = omega arith in
    rw (
      copy_bytes_whole (length text) text (zeroed (length text)) (omega arith)
          (omega (arith, length-zeroed (length text))),
      take_all (length text) text (omega arith),
      drop_all (length text) (zeroed (length text)) (omega (arith, length-zeroed (length text))),
      append-nil,
      whole,
    )

-- `strncpy` of a whole string into an array without room for its NUL.
strncpy_exact : (text : Bytes) → strncpy (zeroed (length text)) text (length text) ≡ some text
strncpy_exact text =
    let n = length text in
    let none_left : n - n ≡ 0 = omega arith in
    strncpy_lem (zeroed n) text n (omega (arith, length-zeroed n))
    ∙ rw (
      take_all n text (omega arith),
      none_left,
      drop_all n (zeroed n) (omega (arith, length-zeroed n)),
      append-nil,
    )

-- The connection information, a string below 65536 bytes, goes through the payload whole: what the
-- receiver has is an array of its bytes, whatever it had before and whatever follows in the message. The
-- array has no NUL, so that who takes it for a string reads behind it.
pub set_offer_conn_info-payload :
    (text rest : Bytes) (next : ℕ) (old : Option Bytes)
    → NoNul text
    → length text < 65536
    → (sent received : GeneralExtension) × (conn_info_payload (some text) ≡ returns (some sent))
      × (read_extension (laid_out next sent rest) (length (laid_out next sent rest))
          ≡ returns received)
      × (set_offer_conn_info (some received) old ≡ returns (some text))
      × (c_str text ≡ none)
unfolding conn_info_payload set_offer_conn_info
set_offer_conn_info-payload text rest next old clean short =
    let n = length text in
    let behind = drop n (zeroed (length (text ++ rest))) in
    let sent : GeneralExtension = record { type = krb5_id; leng = n; contents = text } in
    let received : GeneralExtension = record {
      type = krb5_id;
      leng = n;
      contents = text ++ behind;
    } in
    let leng : n / 256 % 256 * 256 + n % 256 ≡ n = omega arith in
    let fits : leb n (length (text ++ rest)) ≡ true = ground (arith, length-append text rest) in
    let head : take n (text ++ rest) ≡ text =
      take-append_long text rest n (omega arith) ∙ take_all n text (omega arith) in
    (
      sent,
      received,
      rw (until_nul-NoNul text clean, new_extension-clean text short),
      read_extension_branches next krb5_id (n / 256 % 256) (n % 256) (text ++ rest)
          ∙ rw (leng, fits, head),
      rw (at_most-clean text behind clean, strncpy_exact text),
      c_str-unterminated text clean,
    )
