-- ===== src/Claimant/Limited.antt =====
-- What a client is told at its limit.
use decentralized_claims_reg.Prelude.{
  ℕ, String, true, false, some, List, ◌≡◌, refl, ◌⊎◌, inl, inr, arith, ltb, leb, ◌&&◌, ◌||◌, not,
  ◌≤◌, Bool-cases,
}
use decentralized_claims_reg.Prelude.Lists.{count_where}
use decentralized_claims_reg.Prelude.Text.{text_length}
use decentralized_claims_reg.Postgres.{err}
use decentralized_claims_reg.Scoring.Decode.{text}
use decentralized_claims_reg.Claimant.Challenges.{
  ChallengeRecord, storage_unavailable, recent, of_client, of_wallet, issue,
}
use decentralized_claims_reg.Claimant.Sessions.{
  Tools, Settings, storage, fingerprint, client_text, new_challenge, issue_challenge,
}

issue-limited :
    (r : ChallengeRecord) (clients wallets : ℕ) (rows : List ChallengeRecord)
    → (clients ≤ count_where (λ s. recent r.issued_at s && of_client r.client_fingerprint s) rows)
      ⊎ (wallets ≤ count_where (λ s. recent r.issued_at s && of_wallet r.wallet_address s) rows)
    → issue r clients wallets rows ≡ (err storage_unavailable, rows)
unfolding issue
issue-limited r clients wallets rows reached =
    elim (Bool-cases (
      leb clients
        (count_where (λ s. recent r.issued_at s && of_client r.client_fingerprint s) rows))) [
          | inl many ↦ simp many refl
          | inr few ↦
              let more : leb wallets
                    (count_where (λ s. recent r.issued_at s && of_wallet r.wallet_address s) rows)
                  ≡ true =
                elim reached [
                  | inl h ↦ absurd (ground (arith, h, few))
                  | inr h ↦ ground (arith, h)
                ] in
              simp (few, more) refl
        ]

module _ (tools : Tools) (settings : Settings) where
  -- Where the address and the nonce are accepted, and the table holds as many challenges of the last
  -- minute as allowed, of the client or of the wallet in any letter case, a request fails with a
  -- storage error and leaves the table as it is.
  pub issue_challenge-limited :
      (wallet_address ip nonce wallet : String) (i now : ℕ) (rows : List ChallengeRecord)
      → tools.to_checksum_address (text wallet_address) ≡ some wallet
      → tools.is_zero wallet ≡ false
      → 16 ≤ text_length nonce
      → tools.is_alnum nonce ≡ true
      → (settings.client_limit_per_minute
          ≤ count_where
              (λ s.
                recent now s
                && of_client
                    (fingerprint tools settings "client" (client_text tools settings ip))
                    s)
              rows)
        ⊎ (settings.wallet_limit_per_minute
            ≤ count_where (λ s. recent now s && of_wallet wallet s) rows)
      → issue_challenge tools settings wallet_address ip nonce i now rows ≡ (err storage, rows)
  unfolding issue_challenge
  issue_challenge-limited wallet_address ip nonce wallet i now rows valid nonzero long alnum
        reached =
      let strong : (ltb (text_length nonce) 16 || not (tools.is_alnum nonce)) ≡ false =
        ground (arith, long, alnum) in
      simp
        (
          valid,
          nonzero,
          strong,
          issue-limited (new_challenge tools settings wallet ip nonce i now)
              settings.client_limit_per_minute settings.wallet_limit_per_minute rows reached,
        )
        refl
