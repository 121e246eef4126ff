-- ===== src/Claimant/Sessions/Terms.antt =====
-- The data of apps/backend/app/claimant_auth.py, and the handlers round the repository's calls.
use decentralized_claims_reg.Prelude.{ℕ, String, Bool, Option, List, ◌*◌}
use decentralized_claims_reg.Postgres.{Result, ok, err, Action}
use decentralized_claims_reg.Scoring.Decode.{Json, Fields}
use decentralized_claims_reg.Claimant.Challenges.{
  ChallengeRecord, ChallengeError, client_rate_limit, wallet_rate_limit, not_usable,
  storage_unavailable,
}

-- What the code takes of Python, web3, eth_account, base64, json and hmac. `none` stands for the
-- exceptions that it catches. A time before the epoch counts as the epoch.
pub record Tools : Type 0 where
  pub to_checksum_address : Json → Option String
  pub is_zero : String → Bool
  pub is_alnum : String → Bool
  pub strip : String → String
  pub isoformat : ℕ → String
  pub uuid_text : ℕ → String
  pub recover_message : String → String → Option String
  pub urlsafe_b64encode : String → String
  pub urlsafe_b64decode : String → Option String
  pub without_padding : String → String
  pub dumps : Fields → String
  pub loads : String → Option Fields
  pub str : Json → String
  pub int : Json → Option ℕ
  -- the digest of a text under a key, and its hexadecimal form; `none` for a text that is not ASCII
  pub digest : String → String → Option String
  pub hexdigest : String → String → String

pub record Settings : Type 0 where
  pub domain : String
  pub uri : String
  pub chain_id : ℕ
  pub token_key : String
  pub subject_key : String
  pub fingerprint_key : String
  pub challenge_ttl_seconds : ℕ
  pub session_ttl_seconds : ℕ
  pub client_limit_per_minute : ℕ
  pub wallet_limit_per_minute : ℕ

pub data AuthError : Type 0 where
  invalid_wallet zero_wallet bad_nonce : AuthError
  rate_limited : ChallengeError → AuthError
  challenge_unusable invalid_signature other_wallet : AuthError
  no_token invalid_session session_expired invalid_subject : AuthError
  storage unexpected : AuthError

pub record IssuedChallenge : Type 0 where
  pub challenge_id : ℕ
  pub message : String
  pub expires_at : ℕ

pub record IssuedSession : Type 0 where
  pub access_token : String
  pub expires_at : ℕ
  pub claimant_address : String

pub record Session : Type 0 where
  pub subject_id : String
  pub claimant_address : String
  pub expires_at : ℕ

abbrev pub seconds : ℕ → ℕ
seconds n = n * 1000000

abbrev pub Auth : Type 0 → Type 0
Auth = Action (List ChallengeRecord) AuthError

-- the handlers round the repository's calls
abbrev pub issue_failure : ChallengeError → AuthError
issue_failure client_rate_limit = rate_limited client_rate_limit
issue_failure wallet_rate_limit = rate_limited wallet_rate_limit
issue_failure not_usable = storage
issue_failure storage_unavailable = storage

abbrev pub consume_failure : ChallengeError → AuthError
consume_failure client_rate_limit = challenge_unusable
consume_failure wallet_rate_limit = challenge_unusable
consume_failure not_usable = challenge_unusable
consume_failure storage_unavailable = storage

abbrev pub translated :
    {A : Type 0}
    → (ChallengeError → AuthError)
    → Result ChallengeError A × List ChallengeRecord
    → Result AuthError A × List ChallengeRecord
translated f (ok a, s) = (ok a, s)
translated f (err e, s) = (err (f e), s)

abbrev pub within :
    {A : Type 0}
    → (ChallengeError → AuthError)
    → Action (List ChallengeRecord) ChallengeError A
    → Auth A
within f m s = translated f (m s)
