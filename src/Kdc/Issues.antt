-- ===== src/Kdc/Issues.antt =====
-- krb5.patch: what a request with the option KDC_OPT_MIKEY makes of the KDC's issue of a ticket.
use kerberized_multimedia_in.Base.{
  ℕ, ◌/◌, ◌%◌, ◌^◌, ◌≡◌, ◌≢◌, ◌⊎◌, inl, inr, refl, sym, ap, ◌∙◌, Bool, true, false, not, ◌||◌, none,
  some, Bytes, Bool-cases, ◌==◌, if◌then◌else◌, arith,
}
use kerberized_multimedia_in.CLib.{returns, >>=-eq-returns}
use kerberized_multimedia_in.Mikey.{MikeyLib, IsMikey, DeliversKey, initiator_message}
use kerberized_multimedia_in.Gcks2.{Network, sent, kdc_uri, serve_kdc}
use kerberized_multimedia_in.Gcks2.Forwards.{IsForwardable, Reaches, to_client, serve_kdc-Reaches}
use kerberized_multimedia_in.Kdc.{GcksRequest, GcksLine, do_gcks_req}
use kerberized_multimedia_in.Kdc.Message.{Connects, kdc_config, do_gcks_req_lem}
use kerberized_multimedia_in.Kdc.Tgs.{
  is_mikey_set, set_mikey, credentials_options, Status, tkt_encrypt, KeyList, Lookups, KeyLookup,
  found, failed, find_master_key, decrypt_key, key_of_entry, look_up_gcks, replies, cleans_up,
  Issued, after_gcks, hand_on, issue_ticket,
}

look_up_gcks_failed :
    (c : Lookups) (keys keys' : KeyList) (status : Status) (errcode : ℕ)
    → look_up_gcks c keys ≡ returns (failed status errcode, keys')
    → errcode ≢ 0
unfolding look_up_gcks key_of_entry find_master_key decrypt_key
look_up_gcks_failed c keys keys' status errcode h = ground arith

look_up_gcks_found :
    (c : Lookups) (keys keys' : KeyList) (gcks_key : Bytes)
    → look_up_gcks c keys ≡ returns (found gcks_key, keys')
    → gcks_key ≡ c.gcks_key
unfolding look_up_gcks key_of_entry find_master_key decrypt_key
look_up_gcks_found c keys keys' gcks_key h = ground arith

-- The options of a request have the bit where the program's or the library's own have it, and all
-- other bits of the latter.
pub is_mikey_set-credentials_options :
    (options kdcopt : ℕ)
    → let asked = credentials_options options kdcopt in
      (is_mikey_set asked ≡ is_mikey_set options || is_mikey_set kdcopt)
      × (asked % 2 ^ 22 ≡ kdcopt % 2 ^ 22)
      × (asked / 2 ^ 23 ≡ kdcopt / 2 ^ 23)
unfolding credentials_options set_mikey is_mikey_set
is_mikey_set-credentials_options options kdcopt = ground arith

-- Every call that looks for the key of the GCKS succeeds.
pub record IsFound (c : Lookups) (keys : KeyList) : Type 0 where
  pub principal : c.sname_to_principal ≡ 0
  pub entry : c.get_principal ≡ 0
  pub not_empty : c.entries ≢ 0
  pub enctype : c.find_enctype ≡ 0
  pub master_key : (find_master_key c keys).0 ≡ 0
  pub decrypts : c.decrypt_key_data ≡ 0

look_up_gcks-IsFound :
    (c : Lookups) (keys : KeyList)
    → IsFound c keys
    → look_up_gcks c keys ≡ returns (found c.gcks_key, (find_master_key c keys).1)
unfolding look_up_gcks
look_up_gcks-IsFound c keys ok =
    let entries : (c.entries == 0) ≡ false = ground (arith, ok.not_empty) in
    rw (ok.principal, ok.entry, entries, ok.enctype, ok.master_key, ok.decrypts)

module _ (lib : MikeyLib) where
  -- The two ways in which the issue of a ticket ends for a request with the option: the reply goes out,
  -- and what went to the GCKS is what `do_gcks_req` sends under the decrypted key; or the KDC cleans up with an error
  -- code, nothing has gone to the GCKS, and the key of the ticket has not been freed.
  abbrev pub IsIssued : Lookups → GcksRequest → GcksLine → Issued → Type 0
  IsIssued c request line o =
      ((o.ended ≡ replies)
        × (do_gcks_req lib (record request { gcks_key = c.gcks_key }) line ≡ returns o.sent))
      ⊎ ((status : Status) × (errcode : ℕ) × (o.ended ≡ cleans_up status errcode)
          × (errcode ≢ 0)
          × (o.sent ≡ none)
          × (o.freed ≡ false))

  hand_on-IsIssued :
      (enc_tkt_in_skey : Bool) (c : Lookups) (keys keys' : KeyList) (request : GcksRequest)
      (line : GcksLine) (lookup : KeyLookup) (o : Issued)
      → look_up_gcks c keys ≡ returns (lookup, keys')
      → hand_on lib enc_tkt_in_skey request line (lookup, keys') ≡ returns o
      → IsIssued c request line o
  unfolding hand_on after_gcks
  hand_on-IsIssued skey c keys keys' request line (failed status errcode) o looked h =
      inr (status, errcode, cc, look_up_gcks_failed c keys keys' status errcode looked, cc, cc)
  hand_on-IsIssued skey c keys keys' request line (found gcks_key) o looked h =
      let (message, made, ends) =
        >>=-eq-returns (do_gcks_req lib (record request { gcks_key = gcks_key }) line)
          (λ m. returns (after_gcks skey 0 m keys')) h in
      let same : after_gcks skey 0 message keys' ≡ o = cc in
      let decrypted = look_up_gcks_found c keys keys' gcks_key looked in
      inl (
        sym (ap (λ x. x.ended) same),
        ap (λ k. do_gcks_req lib (record request { gcks_key = k }) line) (sym decrypted)
            ∙ made
            ∙ ap (λ x. returns x.sent) same,
      )

  pub issue_ticket-IsIssued :
      (kdc_options : ℕ) (enc_tkt_in_skey : Bool) (c : Lookups) (keys : KeyList)
      (request : GcksRequest) (line : GcksLine) (o : Issued)
      → is_mikey_set kdc_options ≡ true
      → issue_ticket lib kdc_options enc_tkt_in_skey c keys request line ≡ returns o
      → IsIssued c request line o
  unfolding issue_ticket
  issue_ticket-IsIssued options skey c keys request line o set h =
      let ((lookup, keys'), looked, handed) =
        >>=-eq-returns (look_up_gcks c keys) (hand_on lib skey request line) (rw set at h) in
      hand_on-IsIssued skey c keys keys' request line lookup o looked handed

  -- A request without the option sends the GCKS nothing.
  pub issue_ticket_unset :
      (kdc_options : ℕ) (enc_tkt_in_skey : Bool) (c : Lookups) (keys : KeyList)
      (request : GcksRequest) (line : GcksLine) (o : Issued)
      → is_mikey_set kdc_options ≡ false
      → issue_ticket lib kdc_options enc_tkt_in_skey c keys request line ≡ returns o
      → o.sent ≡ none
  unfolding issue_ticket after_gcks
  issue_ticket_unset options skey c keys request line o unset h =
      let same : after_gcks skey c.encrypt_tkt_part none keys ≡ o = cc (rw unset at h) in
      sym (ap (λ x. x.sent) same)

  -- Where the ticket cannot be encrypted, a request without the option ends with that error, and with no
  -- message to the GCKS; a request with the option goes on as if the ticket had been encrypted.
  pub issue_ticket_encrypt_failed :
      (kdc_options : ℕ) (enc_tkt_in_skey : Bool) (c : Lookups) (keys : KeyList)
      (request : GcksRequest) (line : GcksLine)
      → c.encrypt_tkt_part ≢ 0
      → issue_ticket lib kdc_options enc_tkt_in_skey c keys request line ≡ (
          if is_mikey_set kdc_options
          then issue_ticket lib kdc_options enc_tkt_in_skey
              (record c { encrypt_tkt_part = 0 })
              keys
              request
              line
          else returns (record {
            sent = none;
            keys = keys;
            freed = not enc_tkt_in_skey;
            ended = cleans_up tkt_encrypt c.encrypt_tkt_part;
          }))
  unfolding issue_ticket
  issue_ticket_encrypt_failed options skey c keys request line wrong =
      let error : (c.encrypt_tkt_part == 0) ≡ false = ground (arith, wrong) in
      elim (Bool-cases (is_mikey_set options)) [
        | inl set ↦ rw set refl
        | inr unset ↦ rw (unset, error) refl
      ]

  pub issue_ticket_lem :
      IsMikey lib
      → DeliversKey lib
      → (kdc_options : ℕ) (enc_tkt_in_skey : Bool) (c : Lookups) (keys : KeyList)
        (request : GcksRequest) (line : GcksLine) (cname sname : Bytes)
      → is_mikey_set kdc_options ≡ true
      → IsFound c keys
      → IsForwardable lib (record request { gcks_key = c.gcks_key }) cname sname
      → Connects line
      → let r = record request { gcks_key = c.gcks_key } in
        issue_ticket lib kdc_options enc_tkt_in_skey c keys request line
        ≡ returns (record {
          sent = some (initiator_message lib (kdc_config r cname sname) r.ssrc kdc_uri);
          keys = (find_master_key c keys).1;
          freed = not enc_tkt_in_skey;
          ended = replies;
        })
  unfolding issue_ticket
  issue_ticket_lem mikey key options skey c keys request line cname sname set at_hand ok up =
      rw (set, look_up_gcks-IsFound c keys at_hand)
        (rw
          (do_gcks_req_lem lib mikey key (record request { gcks_key = c.gcks_key }) line cname sname
            ok.has_cname ok.has_sname ok.message_room up)
          refl)

  -- A request with the option, for which the KDC finds the key of the GCKS, makes the KDC send the GCKS a
  -- message, from which the GCKS sends the client its own, and the KDC goes on with its reply: if libmikey
  -- keeps its promises, the request can be handed on whole under that key, and the calls of both
  -- programs succeed. Whether the ticket could be encrypted does not matter.
  pub issue_ticket-forwarded :
      IsMikey lib
      → DeliversKey lib
      → (kdc_options : ℕ) (enc_tkt_in_skey : Bool) (c : Lookups) (keys : KeyList)
        (request : GcksRequest) (line : GcksLine) (cname sname : Bytes) (net : Network)
      → is_mikey_set kdc_options ≡ true
      → IsFound c keys
      → IsForwardable lib (record request { gcks_key = c.gcks_key }) cname sname
      → Connects line
      → Reaches net
      → (message : Bytes) × (issue_ticket lib kdc_options enc_tkt_in_skey c keys request line
          ≡ returns (record {
            sent = some message;
            keys = (find_master_key c keys).1;
            freed = not enc_tkt_in_skey;
            ended = replies;
          }))
        × (serve_kdc lib (some c.gcks_key) (some message) net
            ≡ returns
                (sent request.from_string 9999 (to_client lib request.session_key net.ssrc cname)))
  issue_ticket-forwarded mikey key options skey c keys request line cname sname net set at_hand ok
        up reach =
      let r = record request { gcks_key = c.gcks_key } in
      (
        initiator_message lib (kdc_config r cname sname) r.ssrc kdc_uri,
        issue_ticket_lem mikey key options skey c keys request line cname sname set at_hand ok up,
        serve_kdc-Reaches lib mikey key r cname sname net ok reach,
      )
