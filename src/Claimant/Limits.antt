-- ===== src/Claimant/Limits.antt =====
-- How many challenges a minute can see.
use decentralized_claims_reg.Prelude.{
  ℕ, String, Bool, true, false, List, [], ◌∷◌, ◌++◌, ◌≡◌, refl, sym, ap, ◌∙◌, inl, inr, arith, ltb,
  leb, ◌&&◌, ◌||◌, not, ◌+◌, ◌≤◌, Bool-cases, Option-cases, cond,
}
use decentralized_claims_reg.Prelude.Lists.{find, update, keep, count_where}
use decentralized_claims_reg.Prelude.Text.{lower, lower-lower, eq_iff}
use decentralized_claims_reg.Claimant.Challenges.{
  ChallengeRecord, minute, recent, of_client, of_wallet, consumable, consumed, fresh, allowed,
  is_taken, is_found, new_row, insert_challenge, issue, consume,
}
use decentralized_claims_reg.Claimant.Sessions.{Tools, Settings, new_challenge}
use decentralized_claims_reg.Claimant.Keeping.{
  issue_challenge_keeps, consume_for_session_keeps, create_session_keeps,
}
use decentralized_claims_reg.Claimant.Replay.{
  Request, requests, creates, consumes, serve, serve_all,
}

module _ (p : ChallengeRecord → Bool) where
  count_where-keep-le :
      (q : ChallengeRecord → Bool) (rows : List ChallengeRecord)
      → count_where p (keep q rows) ≤ count_where p rows
  unfolding count_where keep
  count_where-keep-le q [] = omega arith
  count_where-keep-le q (r ∷ rest) = ground (arith, count_where-keep-le q rest)

  count_where-append_one :
      (rows : List ChallengeRecord) (r : ChallengeRecord)
      → count_where p (rows ++ r ∷ []) ≡ count_where p rows + cond (p r) 1 0
  unfolding count_where
  count_where-append_one [] r = omega arith
  count_where-append_one (x ∷ rows) r = omega (arith, count_where-append_one rows r)

  count_where-update :
      (q : ChallengeRecord → Bool) (f : ChallengeRecord → ChallengeRecord)
      (rows : List ChallengeRecord)
      → ((x : ChallengeRecord) → p (f x) ≡ p x)
      → count_where p (update q f rows) ≡ count_where p rows
  unfolding count_where update
  count_where-update q f [] same = refl
  count_where-update q f (r ∷ rest) same = elim (Bool-cases (q r)) [
    | inl t ↦ rw t (rw (same r) (ap (λ n. cond (p r) 1 0 + n) (count_where-update q f rest same)))
    | inr t ↦ rw t (ap (λ n. cond (p r) 1 0 + n) (count_where-update q f rest same))
  ]

  count_where-le :
      (q : ChallengeRecord → Bool) (rows : List ChallengeRecord)
      → ((x : ChallengeRecord) → p x ≡ true → q x ≡ true)
      → count_where p rows ≤ count_where q rows
  unfolding count_where
  count_where-le q [] k = omega arith
  count_where-le q (r ∷ rest) k = elim (Bool-cases (p r)) [
    | inl t ↦ rw t (rw (k r t) (omega (arith, count_where-le q rest k)))
    | inr f ↦ rw f (omega (arith, count_where-le q rest k))
  ]

-- The challenges of a minute that begins at `from`.
abbrev pub in_minute : ℕ → ChallengeRecord → Bool
in_minute from r = leb from r.issued_at && leb r.issued_at (from + minute)

-- In no minute are there more challenges of one client, or of one wallet, than allowed.
pub record IsLimited (clients wallets : ℕ) (rows : List ChallengeRecord) : Type 0 where
  pub by_client :
      (from : ℕ) (client : String)
      → count_where (λ s. in_minute from s && of_client client s) rows ≤ clients
  pub by_wallet :
      (from : ℕ) (wallet : String)
      → count_where (λ s. in_minute from s && of_wallet wallet s) rows ≤ wallets

-- One new row, where there was room for it.
room :
    (of_key of_new : ChallengeRecord → Bool) (r : ChallengeRecord) (from limit : ℕ)
    (rows : List ChallengeRecord)
    → (of_key r ≡ true → (x : ChallengeRecord) → of_key x ≡ true → of_new x ≡ true)
    → count_where (λ s. in_minute from s && of_key s) rows ≤ limit
    → leb limit (count_where (λ s. recent r.issued_at s && of_new s) rows) ≡ false
    → count_where (λ s. in_minute from s && of_key s) (keep (fresh r.issued_at) rows ++ r ∷ [])
      ≤ limit
room of_key of_new r from limit rows same before few =
    let p : ChallengeRecord → Bool = λ s. in_minute from s && of_key s in
    elim (Bool-cases (p r)) [
      | inr out ↦
          rw (count_where-append_one p (keep (fresh r.issued_at) rows) r)
            (ground (arith, out, before, count_where-keep-le p (fresh r.issued_at) rows))
      | inl hit ↦
          let fewer : count_where p rows
              ≤ count_where (λ s. recent r.issued_at s && of_new s) rows =
            count_where-le p (λ s. recent r.issued_at s && of_new s) rows
              (λ x k.
                let own : of_new x ≡ true = same (ground (arith, hit)) x (ground (arith, k)) in
                let soon : recent r.issued_at x ≡ true = ground (arith, hit, k) in
                ground (arith, own, soon)) in
          rw (count_where-append_one p (keep (fresh r.issued_at) rows) r)
            (ground (arith, hit, few, fewer, count_where-keep-le p (fresh r.issued_at) rows))
    ]

same_wallet :
    (r x : ChallengeRecord) (wallet : String)
    → of_wallet wallet (new_row r) ≡ true
    → of_wallet wallet x ≡ true
    → of_wallet r.wallet_address x ≡ true
same_wallet r x wallet own k = (eq_iff (lower x.wallet_address) (lower r.wallet_address)).1 (
    (eq_iff (lower x.wallet_address) (lower wallet)).0 k
    ∙ sym ((eq_iff (lower (lower r.wallet_address)) (lower wallet)).0 own)
    ∙ lower-lower r.wallet_address)

module _ (clients wallets : ℕ) where
  issue-IsLimited :
      (r : ChallengeRecord) (rows : List ChallengeRecord)
      → IsLimited clients wallets rows
      → IsLimited clients wallets (issue r clients wallets rows).1
  unfolding issue insert_challenge
  issue-IsLimited r rows h =
      elim (Bool-cases (
        leb clients
          (count_where (λ s. recent r.issued_at s && of_client r.client_fingerprint s) rows))) [
            | inl limited ↦ simp limited h
            | inr few ↦
                elim (Bool-cases (
                  leb wallets (
                    count_where (λ s. recent r.issued_at s && of_wallet r.wallet_address s)
                      rows))) [
                        | inl limited ↦ simp (few, limited) h
                        | inr fewer ↦
                            elim (Bool-cases (
                              not (allowed (new_row r))
                              || is_found
                                  (find (is_taken (new_row r)) (keep (fresh r.issued_at) rows)))) [
                                    | inl bad ↦ simp (few, fewer, bad) h
                                    | inr good ↦
                                        simp (few, fewer, good)
                                          (record {
                                            by_client = λ from client.
                                                room (of_client client)
                                                  (of_client r.client_fingerprint) (new_row r) from
                                                  clients rows
                                                  (λ own x k. ground (
                                                    arith,
                                                    eq_iff r.client_fingerprint client,
                                                    eq_iff x.client_fingerprint client,
                                                    eq_iff x.client_fingerprint
                                                        r.client_fingerprint,
                                                    own,
                                                    k,
                                                  ))
                                                  (h.by_client from client) few;
                                            by_wallet = λ from wallet.
                                                room (of_wallet wallet) (of_wallet r.wallet_address)
                                                  (new_row r) from wallets rows
                                                  (λ own x k. same_wallet r x wallet own k)
                                                  (h.by_wallet from wallet) fewer;
                                          })
                                  ]
                      ]
          ]

  consume-IsLimited :
      (i : ℕ) (wallet : String) (now : ℕ) (rows : List ChallengeRecord)
      → IsLimited clients wallets rows
      → IsLimited clients wallets (consume i wallet now rows).1
  unfolding consume
  consume-IsLimited i wallet now rows h =
      elim (Option-cases (find (consumable i wallet now) rows)) [
        | inl none_ ↦ simp none_ h
        | inr (r, found) ↦ elim (Bool-cases (ltb now r.issued_at)) [
          | inl early ↦ simp (found, early) h
          | inr late ↦
              simp (found, late)
                (record {
                  by_client = λ from client.
                      rw
                        (count_where-update (λ s. in_minute from s && of_client client s)
                          (consumable i wallet now) (consumed now) rows (λ x. refl))
                        (h.by_client from client);
                  by_wallet = λ from w.
                      rw
                        (count_where-update (λ s. in_minute from s && of_wallet w s)
                          (consumable i wallet now) (consumed now) rows (λ x. refl))
                        (h.by_wallet from w);
                })
        ]
      ]

module _ (tools : Tools) (settings : Settings) where
  -- Whatever the service is asked, and whatever its clock says, in no minute does the table hold more
  -- challenges of one client, or of one wallet in any letter case, than the limits allow, where that
  -- was so before.
  pub serve_all-IsLimited :
      (hs : List Request) (rows : List ChallengeRecord)
      → IsLimited settings.client_limit_per_minute settings.wallet_limit_per_minute rows
      → IsLimited settings.client_limit_per_minute settings.wallet_limit_per_minute
          (serve_all tools settings rows hs)
  unfolding serve_all
  serve_all-IsLimited [] rows h = h
  serve_all-IsLimited (requests wallet ip nonce i now ∷ hs) rows h =
      serve_all-IsLimited hs (serve tools settings rows (requests wallet ip nonce i now)) (
        issue_challenge_keeps
          (IsLimited settings.client_limit_per_minute settings.wallet_limit_per_minute) rows h tools
          settings wallet ip nonce i now
          λ w.
            issue-IsLimited settings.client_limit_per_minute settings.wallet_limit_per_minute
              (new_challenge tools settings w ip nonce i now) rows h)
  serve_all-IsLimited (creates i signature now ∷ hs) rows h =
      serve_all-IsLimited hs (serve tools settings rows (creates i signature now)) (
        create_session_keeps
          (IsLimited settings.client_limit_per_minute settings.wallet_limit_per_minute) rows h tools
          settings i signature now
          λ wallet.
            consume-IsLimited settings.client_limit_per_minute settings.wallet_limit_per_minute i
              wallet now rows h)
  serve_all-IsLimited (consumes i wallet now ∷ hs) rows h =
      serve_all-IsLimited hs (serve tools settings rows (consumes i wallet now)) (
        consume_for_session_keeps
          (IsLimited settings.client_limit_per_minute settings.wallet_limit_per_minute) rows h tools
          settings i wallet now
          (consume-IsLimited settings.client_limit_per_minute settings.wallet_limit_per_minute i
            wallet now rows h))
