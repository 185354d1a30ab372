-- ===== src/Tests/Wires.antt =====
-- Runs of what passes between the programs of kmtools, and of their clocks.
use kerberized_multimedia_in.Base.{
  ℕ, zero, suc, replicate, ◌≡◌, ◌≢◌, inr, refl, true, Option, none, some, List, [], ◌∷◌, Bytes,
  arith,
}
use kerberized_multimedia_in.Base.Ints.{pos}
use kerberized_multimedia_in.CLib.{returns, decimal, c_str, htons}
use kerberized_multimedia_in.ConnInfo.{ClientConnInfo, parse_conn_info, format_conn_info}
use kerberized_multimedia_in.ConnInfo.Tokens.{of_tokens, parse_conn_info-tokens}
use kerberized_multimedia_in.CLib.TokenLaws.{Without, tokens}
use kerberized_multimedia_in.ConnInfo.RoundTrip.{
  IsField, barred, filled_in, parse_conn_info-format_conn_info, parse_conn_info_injected,
}
use kerberized_multimedia_in.Net.{Event, bytes, interrupted, net_read}
use kerberized_multimedia_in.Net.Complete.{Reads, net_read-Reads}
use kerberized_multimedia_in.Gcks1.{frame}
use kerberized_multimedia_in.Sclient1.Reply.{receive_reply}
use kerberized_multimedia_in.Sclient1.Framing.{receive_reply-frame, receive_reply_short}
use kerberized_multimedia_in.Credentials.{Krb5Results, obtain_credentials}
use kerberized_multimedia_in.Credentials.Ownership.{
  acquired, released, obtain_credentials-fails, obtain_credentials_double_free,
}

abbrev name : Bytes
name = b'a' ∷ b'n' ∷ []

abbrev addr : Bytes
addr = b'1' ∷ b':' ∷ b'2' ∷ []

abbrev group : Bytes
group = b'g' ∷ []

abbrev no_info : ClientConnInfo
no_info = record { client_name = none; client_addr = none; group_name = none; client_port = pos 0 }

name-IsField : IsField name
name-IsField = ground arith

addr-IsField : IsField addr
addr-IsField = ground arith

group-IsField : IsField group
group-IsField = ground arith

parse_conn_info-tokens_example :
    parse_conn_info (b'|' ∷ b'a' ∷ b'|' ∷ b'b' ∷ []) no_info
    ≡ of_tokens (tokens b'|' (b'|' ∷ b'a' ∷ b'|' ∷ b'b' ∷ [])) no_info
parse_conn_info-tokens_example = parse_conn_info-tokens (b'|' ∷ b'a' ∷ b'|' ∷ b'b' ∷ []) no_info

parse_conn_info-format_conn_info_example :
    parse_conn_info (format_conn_info name addr 88 group) no_info
    ≡ returns (filled_in name addr 88 group no_info)
unfolding decimal
parse_conn_info-format_conn_info_example =
    parse_conn_info-format_conn_info name addr 88 group no_info name-IsField addr-IsField
      group-IsField (omega arith) (omega arith)

parse_conn_info_injected_example :
    parse_conn_info
      (format_conn_info (barred name addr 7 group []) (b'9' ∷ []) 88 (b'h' ∷ []))
      no_info
    ≡ returns (filled_in name addr 7 group no_info)
unfolding decimal
parse_conn_info_injected_example =
    parse_conn_info_injected name addr 7 group (b'9' ∷ []) 88 (b'h' ∷ []) no_info name-IsField
      addr-IsField group-IsField (omega arith) (omega arith)

letters-Without : (n : ℕ) → Without b'|' (replicate n b'a')
letters-Without zero = tt
letters-Without (suc n) = (λ e. absurd (omega arith), letters-Without n)

abbrev pub cut_reply : List Event
cut_reply = bytes 0 [] ∷ interrupted ∷ bytes 2 (b'h' ∷ []) ∷ bytes b'i' (5 ∷ 6 ∷ []) ∷ []

net_read-Reads_example : Reads cut_reply 3 [] (net_read cut_reply 3)
net_read-Reads_example = net_read-Reads cut_reply 3

-- Memory for three bytes.
abbrev malloc_three : ℕ → Option Bytes
malloc_three n = some (1 ∷ 2 ∷ 3 ∷ [])

receive_reply-frame_example :
    (b : Bytes) × (receive_reply malloc_three (7 ∷ 7 ∷ []) cut_reply ≡ returns b)
    × (c_str b ≡ some (b'h' ∷ b'i' ∷ []))
unfolding frame htons
receive_reply-frame_example =
    receive_reply-frame malloc_three (7 ∷ 7 ∷ []) (b'h' ∷ b'i' ∷ []) (5 ∷ 6 ∷ []) (1 ∷ 2 ∷ 3 ∷ [])
      cut_reply refl (omega arith) (omega arith) (ground arith) refl refl

receive_reply_short_example :
    receive_reply malloc_three (7 ∷ 7 ∷ []) (bytes 0 (2 ∷ b'h' ∷ []) ∷ [])
    ≡ returns (b'h' ∷ 2 ∷ 0 ∷ [])
unfolding htons
receive_reply_short_example =
    receive_reply_short malloc_three (7 ∷ 7 ∷ []) (b'h' ∷ []) (1 ∷ 2 ∷ 3 ∷ []) 2
      (bytes 0 (2 ∷ b'h' ∷ []) ∷ []) refl refl (omega arith) (omega arith) (omega arith) refl refl

-- Allocations 1 to 4; the ticket cannot be got.
abbrev pub no_ticket : Krb5Results
no_ticket = record {
  copy_server = (0, 1);
  copy_client = (0, 2);
  default_client = (0, 3);
  credentials = (13, 4);
}

abbrev no_client_name : Krb5Results
no_client_name = record no_ticket { copy_client = (12, 2) }

abbrev pub ticket : Krb5Results
ticket = record no_ticket { credentials = (0, 4) }

obtain_credentials-fails_example :
    let got = obtain_credentials no_ticket true true in
    (got.retval ≡ 13)
    × (got.retval ≢ 0)
    × (got.out_creds ≡ none)
    × (released got.calls ≡ 2 ∷ 1 ∷ [])
unfolding obtain_credentials
obtain_credentials-fails_example =
    obtain_credentials-fails no_ticket true true refl (inr (λ e. absurd (omega arith)))

obtain_credentials_double_free_example :
    let got = obtain_credentials no_client_name true true in
    (got.retval ≡ 12)
    × (got.out_creds ≡ none)
    × (acquired got.calls ≡ 1 ∷ [])
    × (released got.calls ≡ 1 ∷ 1 ∷ [])
obtain_credentials_double_free_example =
    obtain_credentials_double_free no_client_name true true refl (λ e. absurd (omega arith))
