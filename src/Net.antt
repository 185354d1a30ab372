-- ===== src/Net.antt =====
-- kmtools/sclient.cxx (and sclient2.cxx): `net_read`, on a socket whose future is a list of
-- events.
pub mod Complete
use kerberized_multimedia_in.Base.{
  ℕ, ◌-◌, List, [], ◌∷◌, ◌++◌, Bytes, length, take, drop, ltb, ◌==◌, if◌then◌else◌,
}

-- What the calls of SOCKET_READ on a connection meet, in order: bytes that have arrived (at least
-- one), a signal (`EINTR`), another error. Behind the last event the peer has closed.
pub data Event : Type 0 where
  bytes : ℕ → Bytes → Event
  interrupted : Event
  failure : ℕ → Event

-- How `net_read` returns: with the count of the bytes that it has written to the buffer, or with a
-- negative count and `errno`. The bytes and the events left are part of both.
pub data NetResult : Type 0 where
  count : Bytes → List Event → NetResult
  negative : Bytes → ℕ → List Event → NetResult

-- What a read of fewer bytes leaves on the connection.
abbrev pub leftover : Bytes → List Event → List Event
leftover [] es = es
leftover (b ∷ bs) es = bytes b bs ∷ es

-- The `do` loop at `len` > 0: `got` are the `len2` bytes read so far. After a signal `continue` goes
-- to the test of `len`, which has not changed.
pub net_read_loop : List Event → ℕ → Bytes → NetResult
net_read_loop [] len got = count got []
net_read_loop (interrupted ∷ es) len got = net_read_loop es len got
net_read_loop (failure errno ∷ es) len got = negative got errno es
net_read_loop (bytes b bs ∷ es) len got =
    let more = net_read_loop es (len - length (b ∷ bs)) (got ++ (b ∷ bs)) in
    if ltb (length (b ∷ bs)) len
    then more
    else count (got ++ take len (b ∷ bs)) (leftover (drop len (b ∷ bs)) es)

-- The body runs once before the first test: a read of no bytes returns 0, and so does `net_read`.
pub net_read : List Event → ℕ → NetResult
unfolding net_read_loop
net_read es len = if len == 0 then count [] es else net_read_loop es len []
