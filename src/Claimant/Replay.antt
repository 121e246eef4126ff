-- ===== src/Claimant/Replay.antt =====
-- A challenge gives one session.
use decentralized_claims_reg.Prelude.{
  ℕ, String, Bool, true, false, none, some, List, [], ◌∷◌, ◌≡◌, ◌≢◌, refl, sym, ap, ◌∙◌, subst, ◌⊎◌,
  inl, inr, arith, ltb, leb, ◌&&◌, ◌||◌, not, Bool-cases, Option-cases, ==→eq,
}
use decentralized_claims_reg.Prelude.Lists.{
  find, update, keep, count_where, All, All-imp, All-append, All-update, AllPairs, find-true,
  find-All,
}
use decentralized_claims_reg.Postgres.{ok, err}
use decentralized_claims_reg.Claimant.Challenges.{
  ChallengeRecord, recent, of_client, of_wallet, by_challenge, is_unused, consumable, consumed,
  fresh, allowed, is_taken, is_found, new_row, insert_challenge, issue, get, consume,
}
use decentralized_claims_reg.Claimant.Keeping.{
  finish_keeps, issue_challenge_keeps, consume_for_session_keeps, create_session_keeps,
}
use decentralized_claims_reg.Claimant.Sessions.{
  AuthError, Tools, Settings, IssuedSession, challenge_unusable, storage, new_challenge,
  issue_challenge, usable, recover_wallet, consume_for_session, create_session,
}

abbrev pub Unique : List ChallengeRecord → Type 0
Unique = AllPairs λ r s. r.challenge_id ≢ s.challenge_id

-- Every row of the challenge is consumed.
abbrev pub Spent : ℕ → List ChallengeRecord → Type 0
Spent i = All λ r. r.challenge_id ≡ i → is_unused r.consumed_at ≡ false

keep-Spent :
    (i : ℕ) (p : ChallengeRecord → Bool) (rows : List ChallengeRecord)
    → Spent i rows
    → Spent i (keep p rows)
unfolding keep
keep-Spent i p [] h = tt
keep-Spent i p (r ∷ rest) h = elim (Bool-cases (p r)) [
  | inl t ↦ rw t (h.0, keep-Spent i p rest h.1)
  | inr f ↦ rw f (keep-Spent i p rest h.1)
]

consume-Spent :
    (i j : ℕ) (wallet : String) (now : ℕ) (rows : List ChallengeRecord)
    → Spent i rows
    → Spent i (consume j wallet now rows).1
unfolding consume
consume-Spent i j wallet now rows h = elim (Option-cases (find (consumable j wallet now) rows)) [
  | inl none_ ↦ simp none_ h
  | inr (r, found) ↦ elim (Bool-cases (ltb now r.issued_at)) [
    | inl early ↦ simp (found, early) h
    | inr late ↦
        simp (found, late)
          (All-update (λ r. r.challenge_id ≡ i → is_unused r.consumed_at ≡ false)
            (λ r. r.challenge_id ≡ i → is_unused r.consumed_at ≡ false) (consumable j wallet now)
            (consumed now) rows
            (λ x k. elim (Bool-cases (consumable j wallet now x)) [
              | inl t ↦ rw t (λ e. refl)
              | inr f ↦ rw f k
            ])
            h)
  ]
]

insert-Spent :
    (i : ℕ) (r : ChallengeRecord) (rows : List ChallengeRecord)
    → r.challenge_id ≢ i
    → Spent i rows
    → Spent i (insert_challenge r rows).1
unfolding insert_challenge
insert-Spent i r rows d h =
    elim (Bool-cases (not (allowed r) || is_found (find (is_taken r) rows))) [
      | inl bad ↦ rw bad h
      | inr good ↦ rw good (
          All-append (λ r. r.challenge_id ≡ i → is_unused r.consumed_at ≡ false) rows (r ∷ []) h
            ((λ e. absurd (d e)), tt))
    ]

issue-Spent :
    (i : ℕ) (r : ChallengeRecord) (clients wallets : ℕ) (rows : List ChallengeRecord)
    → r.challenge_id ≢ i
    → Spent i rows
    → Spent i (issue r clients wallets rows).1
unfolding issue
issue-Spent i r clients wallets rows d h =
    elim (Bool-cases (
      leb clients
        (count_where (λ s. recent r.issued_at s && of_client r.client_fingerprint s) rows))) [
          | inl limited ↦ simp limited h
          | inr few ↦
              elim (Bool-cases (
                leb wallets
                  (count_where (λ s. recent r.issued_at s && of_wallet r.wallet_address s) rows))) [
                    | inl limited ↦ simp (few, limited) h
                    | inr room ↦
                        simp (few, room)
                          (finish_keeps (Spent i) rows h _
                            (insert_challenge (new_row r) (keep (fresh r.issued_at) rows))
                            (insert-Spent i (new_row r) (keep (fresh r.issued_at) rows) d
                              (keep-Spent i (fresh r.issued_at) rows h)))
                  ]
        ]

-- Among unique challenges the one that is found is the only one of its identifier.
only_consumable :
    (i : ℕ) (wallet : String) (now : ℕ) (rows : List ChallengeRecord) (r : ChallengeRecord)
    → Unique rows
    → find (consumable i wallet now) rows ≡ some r
    → All (λ x. x.challenge_id ≡ i → consumable i wallet now x ≡ true) rows
unfolding find
only_consumable i wallet now [] r u e = tt
only_consumable i wallet now (x ∷ rest) r u e = elim (Bool-cases (consumable i wallet now x)) [
  | inl t ↦
      let own : x.challenge_id ≡ i = ground (arith, t) in
      (
        (λ _. t),
        All-imp (λ y. x.challenge_id ≢ y.challenge_id)
            (λ y. y.challenge_id ≡ i → consumable i wallet now y ≡ true) rest
            (λ y d k. absurd (d (own ∙ sym k))) u.0,
      )
  | inr f ↦
      let later : find (consumable i wallet now) rest ≡ some r = ground (arith, e, f) in
      let found : consumable i wallet now r ≡ true =
        find-true (consumable i wallet now) rest r later in
      let own : r.challenge_id ≡ i = ground (arith, found) in
      (
        (λ k. absurd (
            find-All (λ y. x.challenge_id ≢ y.challenge_id) (consumable i wallet now) rest r u.0
              later (k ∙ sym own))),
        only_consumable i wallet now rest r u.1 later,
      )
]

spend :
    (i : ℕ) (wallet : String) (now : ℕ) (rows : List ChallengeRecord) (r : ChallengeRecord)
    → Unique rows
    → find (consumable i wallet now) rows ≡ some r
    → Spent i (update (consumable i wallet now) (consumed now) rows)
spend i wallet now rows r u e =
    All-update (λ x. x.challenge_id ≡ i → consumable i wallet now x ≡ true)
      (λ x. x.challenge_id ≡ i → is_unused x.consumed_at ≡ false) (consumable i wallet now)
      (consumed now) rows
      (λ x k. elim (Bool-cases (consumable i wallet now x)) [
        | inl t ↦ rw t (λ _. refl)
        | inr f ↦ rw f (λ own. absurd (ground (arith, k own, f)))
      ])
      (only_consumable i wallet now rows r u e)

-- What reaches the table between two uses of a challenge. A call that has recovered a wallet may
-- spend the challenge much later, after other calls, so its second half is a step of its own; the
-- first half only reads.
pub data Request : Type 0 where
  requests : (wallet ip nonce : String) (i now : ℕ) → Request
  creates : (i : ℕ) (signature : String) (now : ℕ) → Request
  consumes : (i : ℕ) (wallet : String) (now : ℕ) → Request

-- No new challenge takes the identifier.
abbrev pub SparesRequest : ℕ → Request → Type 0
SparesRequest i (requests wallet ip nonce j now) = j ≢ i
SparesRequest i (creates j signature now) = Unit
SparesRequest i (consumes j wallet now) = Unit

abbrev pub Spares : ℕ → List Request → Type 0
Spares i [] = Unit
Spares i (h ∷ hs) = SparesRequest i h × Spares i hs

module _ (tools : Tools) (settings : Settings) where
  -- From unique challenges: it raises, or the challenge is spent.
  consume_for_session_spends :
      (i : ℕ) (wallet : String) (now : ℕ) (rows : List ChallengeRecord)
      → Unique rows
      → ((e : AuthError) × (t : List ChallengeRecord) × (consume_for_session tools settings i wallet
              now rows
            ≡ (err e, t)))
        ⊎ Spent i (consume_for_session tools settings i wallet now rows).1
  unfolding consume_for_session consume
  consume_for_session_spends i wallet now rows u =
      elim (Option-cases (find (consumable i wallet now) rows)) [
        | inl none_ ↦ simp none_ (inl (_, _, refl))
        | inr (r, found) ↦ elim (Bool-cases (ltb now r.issued_at)) [
          | inl early ↦ simp (found, early) (inl (_, _, refl))
          | inr late ↦ simp (found, late) (inr (spend i wallet now rows r u found))
        ]
      ]

  abbrev pub serve : List ChallengeRecord → Request → List ChallengeRecord
  serve rows (requests wallet ip nonce i now) =
      (issue_challenge tools settings wallet ip nonce i now rows).1
  serve rows (creates i signature now) = (create_session tools settings i signature now rows).1
  serve rows (consumes i wallet now) = (consume_for_session tools settings i wallet now rows).1

  unfoldable pub serve_all : List ChallengeRecord → List Request → List ChallengeRecord
  serve_all rows [] = rows
  serve_all rows (h ∷ hs) = serve_all (serve rows h) hs

  serve_all-Spent :
      (i : ℕ) (hs : List Request) (rows : List ChallengeRecord)
      → Spares i hs
      → Spent i rows
      → Spent i (serve_all rows hs)
  unfolding serve_all
  serve_all-Spent i [] rows spares h = h
  serve_all-Spent i (requests wallet ip nonce j now ∷ hs) rows spares h =
      serve_all-Spent i hs (serve rows (requests wallet ip nonce j now)) spares.1 (
        issue_challenge_keeps (Spent i) rows h tools settings wallet ip nonce j now λ w.
          issue-Spent i (new_challenge tools settings w ip nonce j now)
            settings.client_limit_per_minute settings.wallet_limit_per_minute rows spares.0 h)
  serve_all-Spent i (creates j signature now ∷ hs) rows spares h =
      serve_all-Spent i hs (serve rows (creates j signature now)) spares.1 (
        create_session_keeps (Spent i) rows h tools settings j signature now
          λ wallet. consume-Spent i j wallet now rows h)
  serve_all-Spent i (consumes j wallet now ∷ hs) rows spares h =
      serve_all-Spent i hs (serve rows (consumes j wallet now)) spares.1 (
        consume_for_session_keeps (Spent i) rows h tools settings j wallet now
          (consume-Spent i j wallet now rows h))

  Spent-usable :
      (i now : ℕ) (rows : List ChallengeRecord)
      → Spent i rows
      → usable tools settings now (find (by_challenge i) rows) ≡ none
  unfolding find
  Spent-usable i now [] h = refl
  Spent-usable i now (r ∷ rest) h = elim (Bool-cases (by_challenge i r)) [
    | inr other ↦ rw other (Spent-usable i now rest h.1)
    | inl own ↦
        let spent : is_unused r.consumed_at ≡ false = h.0 (==→eq r.challenge_id i own) in
        rw own (ground (arith, spent))
  ]

  Spent-consumable :
      (i now : ℕ) (wallet : String) (rows : List ChallengeRecord)
      → Spent i rows
      → find (consumable i wallet now) rows ≡ none
  unfolding find
  Spent-consumable i now wallet [] h = refl
  Spent-consumable i now wallet (r ∷ rest) h = elim (Bool-cases (by_challenge i r)) [
    | inr other ↦ rw other (Spent-consumable i now wallet rest h.1)
    | inl own ↦
        let spent : is_unused r.consumed_at ≡ false = h.0 (==→eq r.challenge_id i own) in
        let passed : consumable i wallet now r ≡ false = ground (arith, spent) in
        rw passed (Spent-consumable i now wallet rest h.1)
  ]

  -- Where challenges are unique and the second half of one call gave a session for a challenge, then
  -- whatever happened since, as long as no new challenge took its identifier: the second half of any
  -- other call for it, whichever wallet it recovered and at whatever time, fails with a storage error,
  -- a new call is refused, and either leaves the table as it is.
  pub create_session-once :
      (i now later : ℕ) (wallet other again : String) (session : IssuedSession)
      (rows after : List ChallengeRecord) (hs : List Request)
      → Unique rows
      → consume_for_session tools settings i wallet now rows ≡ (ok session, after)
      → Spares i hs
      → (consume_for_session tools settings i other later (serve_all after hs)
          ≡ (err storage, serve_all after hs))
        × (create_session tools settings i again later (serve_all after hs)
            ≡ (err challenge_unusable, serve_all after hs))
  unfolding create_session recover_wallet consume_for_session consume get
  create_session-once i now later wallet other again session rows after hs u e spares =
      let spent : Spent i after = elim (consume_for_session_spends i wallet now rows u) [
        | inl (x, t, raised) ↦ absurd (cc (sym raised ∙ e))
        | inr h ↦ subst (Spent i) (ap (λ out. out.1) e) h
      ] in
      let still : Spent i (serve_all after hs) = serve_all-Spent i hs after spares spent in
      (
        simp (Spent-consumable i later other (serve_all after hs) still) refl,
        simp (Spent-usable i later (serve_all after hs) still) refl,
      )
