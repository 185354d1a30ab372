-- ===== src/Sclient2/Receive.antt =====
-- kmtools/sclient2.cxx: `recv(connected, recv_data, 2048, 0)` into `char recv_data[1024]`.
use kerberized_multimedia_in.Base.{
  ◌≤◌, ◌<◌, ◌≡◌, refl, Option, none, some, [], ◌∷◌, ◌++◌, Bytes, length, take, arith, take_all,
  length-take, inl, inr, ◌⊎◌,
}
use kerberized_multimedia_in.CLib.{
  Outcome, returns, faults, out_of_bounds, ◌>>=◌, in_bounds, store, c_str,
}
use kerberized_multimedia_in.CLib.StrLaws.{NoNul, c_str-terminated}
use mathlib.Core.Option

-- Bytes written to the front of a buffer; `none` where they do not fit.
unfoldable pub put : Bytes → Bytes → Option Bytes
put buf [] = some buf
put [] (b ∷ bs) = none
put (c ∷ buf) (b ∷ bs) = Option.map (◌∷◌ b) (put buf bs)

-- What `recv_data` holds behind the NUL; a failed `recv` (-1) writes it in front of the array.
unfoldable pub receive : Bytes → Option Bytes → Outcome Bytes
unfolding put
receive recv_data arrived = do
  bytes ← in_bounds arrived
  let got = take 2048 bytes
  filled ← in_bounds (put recv_data got)
  in_bounds (store filled (length got) 0)

put_room :
    (buf bs : Bytes)
    → length bs < length buf
    → (filled : Bytes) × (put buf bs ≡ some filled)
      × (closed : Bytes) × (rest : Bytes) × (store filled (length bs) 0 ≡ some closed)
      × (closed ≡ bs ++ (0 ∷ rest))
unfolding put store
put_room [] bs h = absurd (omega arith)
put_room (c ∷ buf) [] h = (c ∷ buf, refl, 0 ∷ buf, buf, refl, refl)
put_room (c ∷ buf) (b ∷ bs) h =
    let (filled, e, closed, rest, e', text) = put_room buf bs (omega arith) in
    (b ∷ filled, rw e, b ∷ closed, rest, rw e', rw text)

-- Bytes that fill the buffer leave no room for the NUL.
put_full :
    (buf bs : Bytes)
    → length buf ≤ length bs
    → (put buf bs ≡ none)
      ⊎ ((filled : Bytes) × (put buf bs ≡ some filled) × (store filled (length bs) 0 ≡ none))
unfolding put store
put_full [] [] h = inr ([], refl, refl)
put_full [] (b ∷ bs) h = inl refl
put_full (c ∷ buf) [] h = absurd (omega arith)
put_full (c ∷ buf) (b ∷ bs) h = elim (put_full buf bs (omega arith)) [
  | inl outside ↦ inl (rw outside)
  | inr (filled, e, e') ↦ inr (b ∷ filled, rw e, rw e')
]

-- A message that leaves room for the NUL is read whole, as a string.
pub receive_short :
    (recv_data text : Bytes)
    → length text < length recv_data
    → length text ≤ 2048
    → NoNul text
    → (closed : Bytes) × (receive recv_data (some text) ≡ returns closed)
      × (c_str closed ≡ some text)
unfolding receive
receive_short recv_data text short few clean =
    let (filled, e, closed, rest, e', form) = put_room recv_data text short in
    let whole = take_all 2048 text few in
    (closed, rw (whole, e, e'), rw form (c_str-terminated text rest clean))

-- A message of 1024 bytes or more, and a failing `accept` or `recv`, make the client write outside
-- of `recv_data`.
pub receive_outside :
    (recv_data : Bytes) (arrived : Option Bytes)
    → length recv_data ≡ 1024
    → ((arrived ≡ none) ⊎ ((text : Bytes) × (arrived ≡ some text) × (1024 ≤ length text)))
    → receive recv_data arrived ≡ faults out_of_bounds
unfolding receive
receive_outside recv_data arrived len (inl failed) = rw failed
receive_outside recv_data arrived len (inr (text, came, long)) =
    elim (put_full recv_data (take 2048 text) (omega (arith, length-take 2048 text))) [
      | inl outside ↦ rw (came, outside)
      | inr (filled, e, e') ↦ rw (came, e, e')
    ]
