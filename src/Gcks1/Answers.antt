-- ===== src/Gcks1/Answers.antt =====
-- What the server of kmtools/gcks1.cxx sends, round by round.
use kerberized_multimedia_in.Base.{
  ◌-◌, ◌≡◌, ◌<◌, ◌≢◌, refl, ◌∙◌, inl, inr, true, false, some, List, [], ◌∷◌, ◌++◌, Bytes, All,
  length, take, ◌==◌, Bool-cases, arith,
}
use kerberized_multimedia_in.CLib.{returns, exits, c_str}
use kerberized_multimedia_in.CLib.StrLaws.{
  NoNul, NoNul-until_nul, until_nul-NoNul, store_last, c_str-strncpy, length-strncpy,
}
use kerberized_multimedia_in.Mikey.{MikeyLib, IsMikey, initiator_message}
use kerberized_multimedia_in.Gcks1.{
  Connection, bufsiz, server_config, answer_text, fill_repbuf, frame, serve, serve_all,
}

length-pos : (s : Bytes) → s ≢ [] → 0 < length s
length-pos [] h = absurd (h refl)
length-pos (b ∷ s) h = omega arith

module _ (lib : MikeyLib) where
  fill_repbuf_lem :
      (repbuf text : Bytes)
      → length repbuf ≡ bufsiz
      → NoNul text
      → (b : Bytes) × (fill_repbuf repbuf text ≡ returns b)
        × (c_str b ≡ some (take (bufsiz - 1) text))
        × (length b ≡ bufsiz)
  unfolding fill_repbuf
  fill_repbuf_lem repbuf text len clean =
      let (closed, stored, last, len') = store_last repbuf (bufsiz - 1) len in
      let (b, copied, string) = c_str-strncpy closed text (bufsiz - 1) (omega arith) last clean in
      (b, rw (stored, copied), string, length-strncpy closed text (bufsiz - 1) copied ∙ len')

  -- Every call of the round succeeds.
  pub record IsServed (c : Connection) : Type 0 where
    pub listens : c.listens ≡ true
    pub accepted : c.accepted ≡ true
    pub clock_reads : c.clock_reads ≡ true
    pub recvauth : c.recvauth ≡ 0
    pub length_written : c.length_written ≡ true
    pub text_written : c.text_written ≡ true

  pub answer_text-NoNul : (c : Connection) → NoNul (answer_text lib c)
  unfolding answer_text
  answer_text-NoNul c = elim (Bool-cases (c.unparse_name == 0)) [
    | inl named ↦
        rw named (NoNul-until_nul (initiator_message lib (server_config lib c) c.ssrc c.cname))
    | inr unnamed ↦ rw unnamed (omega arith)
  ]

  -- The text that reaches the client: the buffer cuts a longer one.
  abbrev pub sent_text : Connection → Bytes
  sent_text c = take (bufsiz - 1) (answer_text lib c)

  pub serve_lem :
      (c : Connection) (repbuf : Bytes)
      → IsServed c
      → NoNul (answer_text lib c)
      → length repbuf ≡ bufsiz
      → (b : Bytes) × (serve lib c repbuf ≡ returns (frame (sent_text c), b)) × (length b ≡ bufsiz)
  unfolding serve
  serve_lem c repbuf ok clean len =
      let (b, filled, string, len') = fill_repbuf_lem repbuf (answer_text lib c) len clean in
      let checked : (c.recvauth == 0) ≡ true = ground (arith, ok.recvauth) in
      (
        b,
        simp (
          ok.listens, ok.accepted, ok.clock_reads, checked, filled, string, ok.length_written,
          ok.text_written,
        ),
        len',
      )

  serve_refused :
      (c : Connection) (repbuf : Bytes)
      → c.listens ≡ true
      → c.accepted ≡ true
      → c.clock_reads ≡ true
      → c.recvauth ≢ 0
      → serve lib c repbuf ≡ exits 1
  unfolding serve
  serve_refused c repbuf l a k r =
      let refused : (c.recvauth == 0) ≡ false = ground (arith, r) in simp (l, a, k, refused)

  abbrev pub sent_frames : List Connection → List Bytes
  sent_frames [] = []
  sent_frames (c ∷ cs) = frame (sent_text c) ∷ sent_frames cs

  -- Rounds that succeed are answered in order, each with the frame of its own text and nothing that
  -- an earlier round left in `repbuf`. The first client whose authentication fails ends the server
  -- with exit code 1, and no later client is answered.
  pub serve_all-refused :
      (cs : List Connection) (c : Connection) (later : List Connection) (repbuf : Bytes)
      → All IsServed cs
      → c.listens ≡ true
      → c.accepted ≡ true
      → c.clock_reads ≡ true
      → c.recvauth ≢ 0
      → length repbuf ≡ bufsiz
      → serve_all lib (cs ++ (c ∷ later)) repbuf ≡ (sent_frames cs, exits 1)
  unfolding serve_all
  serve_all-refused [] c later repbuf ok l a k r len =
      rw (serve_all, serve_refused c repbuf l a k r)
  serve_all-refused (d ∷ cs) c later repbuf ok l a k r len =
      let (b, served, len') = serve_lem d repbuf ok.0 (answer_text-NoNul d) len in
      rw (serve_all, served, serve_all-refused cs c later b ok.1 l a k r len')

  -- While every call succeeds the server answers every client, in order, and waits for the next.
  pub serve_all-served :
      (cs : List Connection) (repbuf : Bytes)
      → All IsServed cs
      → length repbuf ≡ bufsiz
      → (b : Bytes) × (serve_all lib cs repbuf ≡ (sent_frames cs, returns b)) × (length b ≡ bufsiz)
  unfolding serve_all
  serve_all-served [] repbuf ok len = (repbuf, refl, len)
  serve_all-served (d ∷ cs) repbuf ok len =
      let (b, served, len') = serve_lem d repbuf ok.0 (answer_text-NoNul d) len in
      let (b', rest, len'') = serve_all-served cs b ok.1 len' in
      (b', rw (serve_all, served, rest), len'')

  pub answer_text-named :
      IsMikey lib
      → (c : Connection) → c.unparse_name ≡ 0
      → answer_text lib c ≡ initiator_message lib (server_config lib c) c.ssrc c.cname
  unfolding answer_text
  answer_text-named mikey c named =
      let e : (c.unparse_name == 0) ≡ true = ground (arith, named) in
      simp e (until_nul-NoNul _ (mikey.message_text (server_config lib c) c.ssrc c.cname))

  pub answer_text-pos :
      IsMikey lib → (c : Connection) → c.unparse_name ≡ 0 → 0 < length (answer_text lib c)
  answer_text-pos mikey c named =
      rw (answer_text-named mikey c named)
        (length-pos _ (mikey.message_ne_nil (server_config lib c) c.ssrc c.cname))
