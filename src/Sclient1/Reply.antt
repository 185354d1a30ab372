-- ===== src/Sclient1/Reply.antt =====
-- kmtools/sclient.cxx: reading the reply of the GCKS, its length first.
use kerberized_multimedia_in.Base.{
  ℕ, ◌+◌, Option, none, some, List, [], ◌∷◌, ◌++◌, Bytes, drop, length,
}
use kerberized_multimedia_in.CLib.{
  Outcome, returns, exits, faults, out_of_bounds, ◌>>=◌, in_bounds, ntohs, store,
}
use kerberized_multimedia_in.Net.{Event, count, negative, net_read}

-- The memory of a buffer after bytes are read into its front.
abbrev pub read_into : Bytes → Bytes → Bytes
read_into bs memory = bs ++ drop (length bs) memory

-- `if ((retval = net_read(...)) <= 0) ... exit(1)`: the buffer and the connection where it goes on.
unfoldable pub read_or_exit : List Event → ℕ → Bytes → Outcome (Bytes × List Event)
read_or_exit es len memory = elim (net_read es len) [
  | negative bs errno rest ↦ exits 1
  | count [] rest ↦ exits 1
  | count (b ∷ bs) rest ↦ returns (read_into (b ∷ bs) memory, rest)
]

-- `ntohs(xmitlen)`, of the two bytes of the variable.
abbrev pub length_of : Bytes → Outcome ℕ
length_of (hi ∷ lo ∷ _) = returns (ntohs hi lo)
length_of _ = faults out_of_bounds

abbrev pub allocated : Option Bytes → Outcome Bytes
allocated none = exits 1
allocated (some memory) = returns memory

-- The length, a buffer of one byte more, the text, and a NUL behind it. `xmitlen` is what the two
-- bytes of that variable hold before, and `malloc n` what a new buffer of `n` bytes holds (`none` is
-- the null pointer).
unfoldable pub receive_reply : (ℕ → Option Bytes) → Bytes → List Event → Outcome Bytes
receive_reply malloc xmitlen es = do
  (prefix, es1) ← read_or_exit es 2 xmitlen
  len ← length_of prefix
  memory ← allocated (malloc (len + 1))
  (text, es2) ← read_or_exit es1 len memory
  in_bounds (store text len 0)
