-- ===== src/Sclient1/Framing.antt =====
-- How the client of kmtools/sclient.cxx reads a framed reply, however the network cuts it.
use kerberized_multimedia_in.Base.{
  ℕ, zero, suc, ◌+◌, ◌-◌, ◌/◌, ◌%◌, ◌≤◌, ◌<◌, ◌≡◌, refl, sym, ap, ◌∙◌, Option, none, some, List, [],
  ◌∷◌, ◌++◌, Bytes, length, take, drop, take_all, take-append, length-append, length-drop,
  append-nil, append_assoc, arith,
}
use kerberized_multimedia_in.CLib.{returns, c_str, htons, ntohs}
use kerberized_multimedia_in.CLib.BufferLaws.{store_end}
use kerberized_multimedia_in.CLib.StrLaws.{NoNul, c_str-terminated}
use kerberized_multimedia_in.Net.{Event}
use kerberized_multimedia_in.Net.Complete.{payload, first_failure, net_read_enough, net_read_closed}
use kerberized_multimedia_in.Gcks1.{frame}
use kerberized_multimedia_in.Sclient1.Reply.{read_into, read_or_exit, receive_reply}

take-ne-nil :
    (n : ℕ) (s : Bytes) → 0 < n → 0 < length s → (b : ℕ) × (bs : Bytes) × (take n s ≡ b ∷ bs)
take-ne-nil zero s p h = absurd (omega arith)
take-ne-nil (suc n) [] p h = absurd (omega arith)
take-ne-nil (suc n) (b ∷ s) p h = (b, take n s, refl)

read_or_exit_enough :
    (es : List Event) (len : ℕ) (memory : Bytes)
    → 0 < len
    → len ≤ length (payload es)
    → (rest : List Event) × (read_or_exit es len memory
        ≡ returns (read_into (take len (payload es)) memory, rest))
      × (payload rest ≡ drop len (payload es))
      × (first_failure rest ≡ first_failure es)
unfolding read_or_exit
read_or_exit_enough es len memory p h =
    let (rest, read, left, later) = net_read_enough es len h in
    let (b, bs, e) = take-ne-nil len (payload es) p (omega arith) in
    (rest, rw (read_or_exit, read, e), left, later)

read_or_exit_closed :
    (es : List Event) (len : ℕ) (memory : Bytes)
    → 0 < length (payload es)
    → length (payload es) ≤ len
    → first_failure es ≡ none
    → (rest : List Event) × (read_or_exit es len memory
        ≡ returns (read_into (payload es) memory, rest))
unfolding read_or_exit
read_or_exit_closed es len memory p h closed =
    let (rest, read) = net_read_closed es len h closed in
    let (b, bs, e) = take-ne-nil len (payload es) (omega arith) p in
    let e' : payload es ≡ b ∷ bs = sym (take_all len (payload es) h) ∙ e in
    (rest, rw (read_or_exit, read, e'))

ntohs-htons : (n : ℕ) → n < 65536 → ntohs (n / 256 % 256) (n % 256) ≡ n
unfolding ntohs
ntohs-htons n h = omega arith

-- The length that the first read gives, and what is left for the second.
read_prefix :
    (es : List Event) (n : ℕ) (text xmitlen : Bytes)
    → n < 65536
    → payload es ≡ htons n ++ text
    → (hi lo : ℕ) × (more : Bytes) × (rest : List Event) × (read_or_exit es 2 xmitlen
        ≡ returns (hi ∷ lo ∷ more, rest))
      × (ntohs hi lo ≡ n)
      × (payload rest ≡ text)
      × (first_failure rest ≡ first_failure es)
read_prefix es n text xmitlen small arrives =
    let (rest, read, left, later) =
      read_or_exit_enough es 2 xmitlen (omega arith) (rw arrives (unfold htons in omega arith)) in
    (
      n / 256 % 256,
      n % 256,
      drop 2 xmitlen,
      rest,
      read ∙ rw arrives (unfold htons in refl),
      ntohs-htons n small,
      left ∙ rw arrives (unfold htons in refl),
      later,
    )

receive_reply_steps :
    (malloc : ℕ → Option Bytes) (xmitlen : Bytes) (es es1 es2 : List Event) (hi lo n : ℕ)
    (more memory buf : Bytes)
    → read_or_exit es 2 xmitlen ≡ returns (hi ∷ lo ∷ more, es1)
    → ntohs hi lo ≡ n
    → malloc (n + 1) ≡ some memory
    → read_or_exit es1 n memory ≡ returns (buf, es2)
    → length buf ≡ n + 1
    → receive_reply malloc xmitlen es ≡ returns (take n buf ++ (0 ∷ []))
unfolding receive_reply
receive_reply_steps malloc xmitlen es es1 es2 hi lo n more memory buf read number alloc read2 len =
    rw (read, number, alloc, read2, store_end buf n len)

take_front : (s rest : Bytes) → take (length s) (s ++ rest) ≡ s
take_front s rest = take-append s rest (length s) 0 (omega arith) ∙ append-nil s

-- The client reads exactly the text that was framed, however the network cuts the frame and whatever
-- its buffers held before, if the text is not empty, is a string below 65536 bytes, the reply's
-- buffer can be allocated, and any bytes behind the frame are left alone.
pub receive_reply-frame :
    (malloc : ℕ → Option Bytes) (xmitlen text more memory : Bytes) (es : List Event)
    → payload es ≡ frame text ++ more
    → 0 < length text
    → length text < 65536
    → NoNul text
    → malloc (length text + 1) ≡ some memory
    → length memory ≡ length text + 1
    → (b : Bytes) × (receive_reply malloc xmitlen es ≡ returns b) × (c_str b ≡ some text)
unfolding receive_reply frame
receive_reply-frame malloc xmitlen text more memory es arrives p small clean alloc len =
    let (hi, lo, rest_of, es1, read, number, left, later) =
      read_prefix es (length text) (text ++ more) xmitlen small
        (arrives ∙ append_assoc (htons (length text)) text more) in
    let room : length text ≤ length (payload es1) =
      rw left (omega (arith, length-append text more)) in
    let (es2, read2, _, _) = read_or_exit_enough es1 (length text) memory p room in
    let whole : take (length text) (payload es1) ≡ text = rw left (take_front text more) in
    let buf = text ++ drop (length text) memory in
    let fits : length buf ≡ length text + 1 =
      omega
        (arith, length-append text (drop (length text) memory), length-drop (length text) memory) in
    (
      text ++ (0 ∷ []),
      receive_reply_steps malloc xmitlen es es1 es2 hi lo (length text) rest_of memory buf read
            number alloc (read2 ∙ ap (λ t. returns (read_into t memory, es2)) whole) fits
          ∙ ap (λ t. returns (t ++ (0 ∷ []))) (take_front text (drop (length text) memory)),
      c_str-terminated text [] clean,
    )

-- Where the server closes before it has sent as many bytes as it announced, the client takes those
-- that came for the whole reply: the rest of its buffer is what the memory held before.
pub receive_reply_short :
    (malloc : ℕ → Option Bytes) (xmitlen part memory : Bytes) (n : ℕ) (es : List Event)
    → payload es ≡ htons n ++ part
    → first_failure es ≡ none
    → 0 < length part
    → length part < n
    → n < 65536
    → malloc (n + 1) ≡ some memory
    → length memory ≡ n + 1
    → receive_reply malloc xmitlen es
      ≡ returns ((part ++ take (n - length part) (drop (length part) memory)) ++ (0 ∷ []))
receive_reply_short malloc xmitlen part memory n es arrives closed p short small alloc len =
    let (hi, lo, more, es1, read, number, left, later) =
      read_prefix es n part xmitlen small arrives in
    let (es2, read2) =
      read_or_exit_closed es1 n memory (rw left p) (rw left (omega arith)) (later ∙ closed) in
    let buf = part ++ drop (length part) memory in
    let fits : length buf ≡ n + 1 =
      omega
        (arith, length-append part (drop (length part) memory), length-drop (length part) memory) in
    receive_reply_steps malloc xmitlen es es1 es2 hi lo n more memory buf read number alloc
      (read2 ∙ ap (λ t. returns (read_into t memory, es2)) left) fits
    ∙ ap (λ t. returns (t ++ (0 ∷ [])))
        (take-append part (drop (length part) memory) n (n - length part) (omega arith))
