-- ===== src/Claimant/RoundTrip.antt =====
-- A session that was created is accepted.
use Prim.Native.Char.{Char}
use decentralized_claims_reg.Prelude.{
  ℕ, String, true, false, some, List, [], ◌∷◌, ◌≡◌, refl, ap, ◌∙◌, subst, inl, inr, arith, ltb, leb,
  ◌+◌, ◌/◌, ◌≤◌, ◌<◌, Bool-cases, Option-cases,
}
use decentralized_claims_reg.Prelude.Lists.{find, All, find-All}
use decentralized_claims_reg.Prelude.Text.{
  str_eq_self, lower, append, starts_with, text_length, has_dot, split_dots, split_dots-append,
  split_dots-last, append_nonempty, starts_with-append, text_length-append,
}
use decentralized_claims_reg.Postgres.{ok}
use decentralized_claims_reg.Postgres.Rules.{Outcome-cases}
use decentralized_claims_reg.Scoring.Decode.{text, number}
use decentralized_claims_reg.Claimant.Challenges.{ChallengeRecord, consumable, consume}
use decentralized_claims_reg.Claimant.Keeping.{recover_wallet_cases}
use decentralized_claims_reg.Claimant.Sessions.{
  Tools, Settings, IssuedSession, seconds, b64encode, b64decode, subject_id, payload_of,
  session_for, signed_part, consume_for_session, create_session, authenticate, parts, admitted,
}

abbrev v : Char
v = "v"

-- The wallet of the row begins with 0x, as every checksum does.
abbrev pub HasPrefix : ChallengeRecord → Type 0
HasPrefix r = starts_with "0x" r.wallet_address ≡ true

module _ (tools : Tools) (settings : Settings) where
  -- What `base64` does with the bytes `x`: a text with neither blanks nor dots, that is read back.
  pub record IsEncoded (x : String) : Type 0 where
    pub dotless : has_dot (b64encode tools settings x) ≡ false
    pub decodes : b64decode tools settings (b64encode tools settings x) ≡ some x

  -- What the other tools do with a session's payload.
  pub record Laws (now : ℕ) : Type 0 where
    pub checksum_fixed :
        (w a : String)
        → tools.to_checksum_address (text w) ≡ some a
        → tools.to_checksum_address (text a) ≡ some a
    -- an address without 0x is accepted too, and gets it
    pub checksum_case :
        (w a : String)
        → starts_with "0x" w ≡ true
        → tools.to_checksum_address (text w) ≡ some a
        → lower a ≡ lower w
    pub loads_dumps :
        (w a : String)
        → tools.to_checksum_address (text w) ≡ some a
        → tools.loads (tools.dumps (payload_of tools settings a w now))
          ≡ some (payload_of tools settings a w now)
    pub payload_encoded :
        (w a : String)
        → tools.to_checksum_address (text w) ≡ some a
        → IsEncoded (tools.dumps (payload_of tools settings a w now))
    pub digest_encoded : (k t d : String) → tools.digest k t ≡ some d → IsEncoded d
    pub int_number : (n : ℕ) → tools.int (number n) ≡ some n
    pub str_text : (s : String) → tools.str (text s) ≡ s
    pub digits : (k t : String) → text_length (tools.hexdigest k t) ≡ 64

  -- A challenge that is consumed was a row of the table.
  consume-HasPrefix :
      (i now : ℕ) (wallet : String) (rows t : List ChallengeRecord) (spent : ChallengeRecord)
      → All HasPrefix rows
      → consume i wallet now rows ≡ (ok spent, t)
      → HasPrefix spent
  unfolding consume
  consume-HasPrefix i now wallet rows t spent prefixed h =
      elim (Option-cases (find (consumable i wallet now) rows)) [
        | inl none_ ↦ absurd (ground (arith, none_, h))
        | inr (r, found) ↦ elim (Bool-cases (ltb now r.issued_at)) [
          | inl early ↦ absurd (ground (arith, found, early, h))
          | inr late ↦
              let same : r.wallet_address ≡ spent.wallet_address = ground (arith, found, late, h) in
              subst (λ w. starts_with "0x" w ≡ true) same
                (find-All HasPrefix (consumable i wallet now) rows r prefixed found)
        ]
      ]

  -- A session that is created is the one for a wallet.
  created_for :
      (i now : ℕ) (signature : String) (session : IssuedSession) (rows after : List ChallengeRecord)
      → All HasPrefix rows
      → create_session tools settings i signature now rows ≡ (ok session, after)
      → (wallet : String) × (session_for tools settings wallet now
            (tools.to_checksum_address (text wallet))
          ≡ ok session)
        × (starts_with "0x" wallet ≡ true)
  unfolding create_session consume_for_session
  created_for i now signature session rows after prefixed h =
      elim (recover_wallet_cases tools settings i signature now rows) [
        | inl (e, failed) ↦ absurd (ground (arith, failed, h))
        | inr (wallet, signed) ↦ elim (Outcome-cases (consume i wallet now rows)) [
          | inr (e, t, failed) ↦ absurd (ground (arith, signed, failed, h))
          | inl (spent, t, done) ↦ (
            spent.wallet_address,
            ground (arith, signed, done, h),
            consume-HasPrefix i now wallet rows t spent prefixed done,
          )
        ]
      ]

  issued_facts :
      (now : ℕ) (wallet address : String) (session : IssuedSession)
      → session_for tools settings wallet now (some address) ≡ ok session
      → (session.claimant_address ≡ address)
        × (session.expires_at ≡ now + seconds settings.session_ttl_seconds)
  issued_facts now wallet address session h =
      let payload : String =
        b64encode tools settings (tools.dumps (payload_of tools settings address wallet now)) in
      elim (Option-cases (tools.digest settings.token_key (signed_part tools settings payload))) [
        | inl unsigned ↦ absurd (ground (arith, unsigned, h))
        | inr (signature, signed) ↦ (ground (arith, signed, h), ground (arith, signed, h))
      ]

  module _ (now : ℕ) (laws : Laws now) (wallet address : String)
      (prefixed : starts_with "0x" wallet ≡ true)
      (known : tools.to_checksum_address (text wallet) ≡ some address) where
    same_subject : subject_id tools settings address ≡ subject_id tools settings wallet
    same_subject =
        ap (λ w. append "claimant-" (tools.hexdigest settings.subject_key (append "claimant:" w)))
          (laws.checksum_case wallet address prefixed known)

    length-subject_id : text_length (subject_id tools settings wallet) ≡ 73
    unfolding text_length
    length-subject_id =
        text_length-append "claimant-"
          (tools.hexdigest settings.subject_key (append "claimant:" (lower wallet)))
        ∙ ap (λ n. 9 + n) (laws.digits settings.subject_key (append "claimant:" (lower wallet)))

    abbrev expiry : ℕ
    expiry = seconds ((now + seconds settings.session_ttl_seconds) / 1000000)

    abbrev payload : String
    payload = b64encode tools settings (tools.dumps (payload_of tools settings address wallet now))

    -- The parts of the token are read as they were written.
    read_parts :
        (signature : String)
        → tools.digest settings.token_key (signed_part tools settings payload) ≡ some signature
        → parts tools settings ("v1" ∷ payload ∷ b64encode tools settings signature ∷ [])
          ≡ some (record {
            address = address;
            subject = subject_id tools settings wallet;
            expires_at = expiry;
            issued_at = seconds (now / 1000000);
          })
    unfolding authenticate has_dot
    read_parts signature signed =
        simp
          (
            (laws.digest_encoded settings.token_key (signed_part tools settings payload) signature
                signed).decodes,
            signed,
            str_eq_self signature,
            (laws.payload_encoded wallet address known).decodes,
            laws.loads_dumps wallet address known,
            laws.checksum_fixed wallet address known,
            laws.int_number,
            laws.str_text,
          )
          refl

    admitted_session :
        (later : ℕ)
        → now ≤ later
        → later < expiry
        → admitted tools settings later (
            some (record {
              address = address;
              subject = subject_id tools settings wallet;
              expires_at = expiry;
              issued_at = seconds (now / 1000000);
            }))
          ≡ ok (record {
            subject_id = subject_id tools settings wallet;
            claimant_address = address;
            expires_at = expiry;
          })
    admitted_session later before early =
        let alive : leb expiry later ≡ false = ground (arith, early) in
        let past : ltb (later + seconds 30) (seconds (now / 1000000)) ≡ false =
          ground (arith, before) in
        let named : starts_with "claimant-" (subject_id tools settings wallet) ≡ true =
          starts_with-append "claimant-"
            (tools.hexdigest settings.subject_key (append "claimant:" (lower wallet))) in
        simp
          (
            alive,
            past,
            named,
            length-subject_id,
            same_subject,
            str_eq_self (subject_id tools settings wallet),
          )
          refl

    issued_authenticates :
        (later : ℕ) (session : IssuedSession)
        → now ≤ later
        → later < expiry
        → session_for tools settings wallet now (some address) ≡ ok session
        → authenticate tools settings (some session.access_token) later
          ≡ ok (record {
            subject_id = subject_id tools settings wallet;
            claimant_address = address;
            expires_at = expiry;
          })
    unfolding authenticate has_dot
    issued_authenticates later session before early h =
        elim (Option-cases (tools.digest settings.token_key (signed_part tools settings payload))) [
          | inl unsigned ↦ absurd (ground (arith, unsigned, h))
          | inr (signature, signed) ↦
              let token : String =
                append "v1"
                  (append "." (append payload (append "." (b64encode tools settings signature)))) in
              let written : token ≡ session.access_token = ground (arith, signed, h) in
              let pieces : split_dots token
                  ≡ "v1" ∷ payload ∷ b64encode tools settings signature ∷ [] =
                split_dots-append "v1"
                  (append payload (append "." (b64encode tools settings signature))) refl
                ∙ ap (◌∷◌ "v1") (
                    split_dots-append payload (b64encode tools settings signature)
                      (laws.payload_encoded wallet address known).dotless
                    ∙ ap (◌∷◌ payload) (
                        split_dots-last (b64encode tools settings signature)
                          (laws.digest_encoded settings.token_key
                            (signed_part tools settings payload) signature signed).dotless)) in
              subst
                (λ t.
                  authenticate tools settings (some t) later
                  ≡ ok (record {
                    subject_id = subject_id tools settings wallet;
                    claimant_address = address;
                    expires_at = expiry;
                  }))
                written
                (simp
                  (
                    append_nonempty v "1" (
                        append "."
                          (append payload (append "." (b64encode tools settings signature)))),
                    pieces,
                    read_parts signature signed,
                  )
                  (admitted_session later before early))
        ]

  -- Where the tools do what `Laws` says and the wallets of the rows begin with 0x, a session that was
  -- created is accepted from then on until the last whole second of its time, as a session of the same
  -- address and of its subject.
  pub create_session-authenticate :
      (i now later : ℕ) (signature : String) (session : IssuedSession)
      (rows after : List ChallengeRecord)
      → Laws now
      → All HasPrefix rows
      → create_session tools settings i signature now rows ≡ (ok session, after)
      → now ≤ later
      → later < seconds (session.expires_at / 1000000)
      → authenticate tools settings (some session.access_token) later
        ≡ ok (record {
          subject_id = subject_id tools settings session.claimant_address;
          claimant_address = session.claimant_address;
          expires_at = seconds (session.expires_at / 1000000);
        })
  create_session-authenticate i now later signature session rows after laws prefixed h before
        early =
      let (wallet, e, zero_x) = created_for i now signature session rows after prefixed h in
      elim (Option-cases (tools.to_checksum_address (text wallet))) [
        | inl bad ↦ absurd (ground (arith, bad, e))
        | inr (address, known) ↦
            let made : session_for tools settings wallet now (some address) ≡ ok session =
              ground (arith, e, known) in
            let facts : (session.claimant_address ≡ address)
                × (session.expires_at ≡ now + seconds settings.session_ttl_seconds) =
              issued_facts now wallet address session made in
            let soon : later < expiry now laws wallet address zero_x known =
              omega (arith, early, facts.1) in
            issued_authenticates now laws wallet address zero_x known later session before soon made
            ∙ simp (facts.0, facts.1, same_subject now laws wallet address zero_x known) refl
      ]
