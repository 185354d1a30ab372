-- ===== src/Sclient1/Connect.antt =====
-- kmtools/sclient.cxx: the loop over the addresses of the server.
use kerberized_multimedia_in.Base.{ℕ, Bool, Option, none, some, List, [], ◌∷◌}

-- What an address gives: `socket` (`none` is -1), and whether `connect` on it succeeds.
pub record Address : Type 0 where
  pub socket : Option ℕ
  pub connects : Bool

-- `for (sock = -1; ap && sock == -1; ap = ap->ai_next)`: an address without a socket is passed over.
-- The result of `connect` decides only a message.
unfoldable pub find_socket : List Address → Option ℕ
find_socket [] = none
find_socket (ap ∷ aps) = elim ap.socket [ none ↦ find_socket aps | some sock ↦ some sock ]
