-- ===== src/Claimant/Keeping.antt =====
-- What a request does to the table is what its repository call does.
use decentralized_claims_reg.Prelude.{
  ℕ, String, List, ◌≡◌, refl, ◌⊎◌, ◌||◌, inl, inr, ltb, not, Bool-cases, Option-cases,
}
use decentralized_claims_reg.Prelude.Lists.{find}
use decentralized_claims_reg.Prelude.Text.{str_eq, lower, text_length}
use decentralized_claims_reg.Postgres.{Result, ok, err, finish, continue}
use decentralized_claims_reg.Scoring.Decode.{text}
use decentralized_claims_reg.Claimant.Challenges.{
  ChallengeRecord, ChallengeError, by_challenge, issue, get, consume,
}
use decentralized_claims_reg.Claimant.Sessions.{
  Tools, Settings, AuthError, translated, issue_failure, consume_failure, session_for,
  new_challenge, issue_challenge, usable, recover_wallet, consume_for_session, create_session,
}

-- The first half of `create_session` reads.
pub recover_wallet_cases :
    (tools : Tools) (settings : Settings) (j : ℕ) (signature : String) (now : ℕ)
    (rows : List ChallengeRecord)
    → ((e : AuthError) × (recover_wallet tools settings j signature now rows ≡ (err e, rows)))
      ⊎ ((wallet : String) × (recover_wallet tools settings j signature now rows
            ≡ (ok wallet, rows)))
unfolding recover_wallet get
recover_wallet_cases tools settings j signature now rows =
    elim (Option-cases (usable tools settings now (find (by_challenge j) rows))) [
      | inl useless ↦ simp useless (inl (_, refl))
      | inr (c, good) ↦ elim (Option-cases (tools.recover_message c.message signature)) [
        | inl forged ↦ simp (good, forged) (inl (_, refl))
        | inr (wallet, signed) ↦
            elim (Bool-cases (str_eq (lower wallet) (lower c.wallet_address))) [
              | inr other ↦ simp (good, signed, other) (inl (_, refl))
              | inl same ↦ simp (good, signed, same) (inr (_, refl))
            ]
      ]
    ]

module _ (P : List ChallengeRecord → Type 0) (rows : List ChallengeRecord) (before : P rows) where
  pub finish_keeps :
      {A : Type 0} (f : ChallengeError → ChallengeError)
      (out : Result ChallengeError A × List ChallengeRecord)
      → P out.1
      → P (finish f rows out).1
  finish_keeps f (ok a, t) h = h
  finish_keeps f (err e, t) h = before

  within_keeps :
      {A B : Type 0} (f : ChallengeError → AuthError)
      (out : Result ChallengeError A × List ChallengeRecord) (g : A → Result AuthError B)
      → P out.1
      → P (continue (translated f out) (λ a s. (g a, s))).1
  within_keeps f (ok a, t) g h = h
  within_keeps f (err e, t) g h = h

  module _ (tools : Tools) (settings : Settings) where
    pub issue_challenge_keeps :
        (wallet ip nonce : String) (j now : ℕ)
        → ((w : String)
            → P
                (issue
                  (new_challenge tools settings w ip nonce j now)
                  settings.client_limit_per_minute
                  settings.wallet_limit_per_minute
                  rows).1)
        → P (issue_challenge tools settings wallet ip nonce j now rows).1
    unfolding issue_challenge
    issue_challenge_keeps wallet ip nonce j now k =
        elim (Option-cases (tools.to_checksum_address (text wallet))) [
          | inl bad ↦ simp bad before
          | inr (w, valid) ↦ elim (Bool-cases (tools.is_zero w)) [
            | inl zero_ ↦ simp (valid, zero_) before
            | inr nonzero ↦
                elim (Bool-cases (ltb (text_length nonce) 16 || not (tools.is_alnum nonce))) [
                  | inl weak ↦ simp (valid, nonzero, weak) before
                  | inr strong ↦
                      simp (valid, nonzero, strong)
                        (within_keeps issue_failure
                          (issue (new_challenge tools settings w ip nonce j now)
                            settings.client_limit_per_minute settings.wallet_limit_per_minute rows)
                          (λ saved. ok (record {
                            challenge_id = saved.challenge_id;
                            message = saved.message;
                            expires_at = saved.expires_at;
                          }))
                          (k w))
                ]
          ]
        ]

    pub consume_for_session_keeps :
        (j : ℕ) (wallet : String) (now : ℕ)
        → P (consume j wallet now rows).1
        → P (consume_for_session tools settings j wallet now rows).1
    unfolding consume_for_session
    consume_for_session_keeps j wallet now k =
        within_keeps consume_failure (consume j wallet now rows)
          (λ spent.
            session_for tools settings spent.wallet_address now
              (tools.to_checksum_address (text spent.wallet_address)))
          k

    pub create_session_keeps :
        (j : ℕ) (signature : String) (now : ℕ)
        → ((wallet : String) → P (consume j wallet now rows).1)
        → P (create_session tools settings j signature now rows).1
    unfolding create_session
    create_session_keeps j signature now k =
        elim (recover_wallet_cases tools settings j signature now rows) [
          | inl (e, failed) ↦ simp failed before
          | inr (wallet, signed) ↦ simp signed (consume_for_session_keeps j wallet now (k wallet))
        ]
