-- ===== src/Claimant/Challenges.antt =====
-- packages/integrations/postgres/claimant_auth_repository.py over the table
-- `claimant_auth_challenges`. Both advisory locks are held until the transaction ends, so an
-- operation is one step.
use decentralized_claims_reg.Prelude.{
  ℕ, String, Bool, true, false, Option, none, some, List, [], ◌∷◌, ◌++◌, ltb, leb, ◌==◌, ◌&&◌, ◌||◌,
  not, ◌+◌,
}
use decentralized_claims_reg.Prelude.Lists.{find, update, keep, count_where}
use decentralized_claims_reg.Prelude.Text.{str_eq, lower, text_length}
use decentralized_claims_reg.Postgres.{
  Action, transaction, gets, modify, raise, pure, when◌run◌otherwise◌, or_raise, ◌>>=◌, ◌>>◌,
}

pub record ChallengeRecord : Type 0 where
  pub challenge_id : ℕ
  pub wallet_address : String
  pub nonce : String
  pub message : String
  pub client_fingerprint : String
  pub issued_at : ℕ
  pub expires_at : ℕ
  pub consumed_at : Option ℕ

pub data ChallengeError : Type 0 where
  client_rate_limit wallet_rate_limit not_usable storage_unavailable : ChallengeError

abbrev pub Tx : Type 0 → Type 0
Tx = Action (List ChallengeRecord) ChallengeError

-- `database.cursor()` replaces the challenge errors that are raised inside it as well: they are no
-- `PostgresStorageError`s.
abbrev pub cursor : {A : Type 0} → Tx A → Tx A
cursor = transaction λ e. storage_unavailable

abbrev pub minute : ℕ
minute = 60000000

abbrev pub day : ℕ
day = 86400000000

abbrev pub by_challenge : ℕ → ChallengeRecord → Bool
by_challenge i r = r.challenge_id == i

-- `issued_at >= issued_at - 1 minute`
abbrev pub recent : ℕ → ChallengeRecord → Bool
recent now r = leb now (r.issued_at + minute)

abbrev pub of_client : String → ChallengeRecord → Bool
of_client fingerprint r = str_eq r.client_fingerprint fingerprint

abbrev pub of_wallet : String → ChallengeRecord → Bool
of_wallet wallet r = str_eq (lower r.wallet_address) (lower wallet)

-- the rows that the `DELETE` leaves
abbrev pub fresh : ℕ → ChallengeRecord → Bool
fresh now r = not (ltb (r.expires_at + day) now)

-- the `CHECK`s of the table
unfoldable pub allowed : ChallengeRecord → Bool
allowed r =
    leb 16 (text_length r.nonce)
    && leb (text_length r.nonce) 64
    && leb 64 (text_length r.message)
    && leb (text_length r.message) 4096
    && text_length r.client_fingerprint == 64
    && ltb r.issued_at r.expires_at

abbrev pub is_taken : ChallengeRecord → ChallengeRecord → Bool
is_taken r s = s.challenge_id == r.challenge_id || str_eq s.nonce r.nonce

abbrev pub is_found : Option ChallengeRecord → Bool
is_found none = false
is_found (some r) = true

-- `INSERT … RETURNING *`, under the primary key, the unique nonce and the checks
unfoldable pub insert_challenge : ChallengeRecord → Tx ChallengeRecord
unfolding allowed
insert_challenge r rows =
    (when not (allowed r) || is_found (find (is_taken r) rows)
        run raise storage_unavailable
        otherwise (do modify (λ t. t ++ r ∷ []); pure r))
      rows

abbrev pub new_row : ChallengeRecord → ChallengeRecord
new_row r = record r { wallet_address = lower r.wallet_address; consumed_at = none }

unfoldable pub issue : ChallengeRecord → ℕ → ℕ → Tx ChallengeRecord
unfolding insert_challenge
issue r client_limit wallet_limit = cursor do
  clients ← gets (count_where (λ s. recent r.issued_at s && of_client r.client_fingerprint s))
  wallets ← gets (count_where (λ s. recent r.issued_at s && of_wallet r.wallet_address s))
  when leb client_limit clients
      run raise client_rate_limit
      otherwise when leb wallet_limit wallets
      run raise wallet_rate_limit
      otherwise (do modify (keep (fresh r.issued_at)); insert_challenge (new_row r))

unfoldable pub get : ℕ → Tx (Option ChallengeRecord)
get i = cursor (gets (find (by_challenge i)))

abbrev pub is_unused : Option ℕ → Bool
is_unused none = true
is_unused (some t) = false

-- the `WHERE` of `consume`
abbrev pub consumable : ℕ → String → ℕ → ChallengeRecord → Bool
consumable i wallet now r =
    r.challenge_id == i
    && str_eq (lower r.wallet_address) (lower wallet)
    && is_unused r.consumed_at
    && leb now r.expires_at

abbrev pub consumed : ℕ → ChallengeRecord → ChallengeRecord
consumed now r = record r { consumed_at = some now }

-- A row that was issued after `now` breaks a check of the table.
unfoldable pub consume : ℕ → String → ℕ → Tx ChallengeRecord
consume i wallet now = cursor do
  found ← gets (find (consumable i wallet now))
  r ← or_raise found not_usable
  when ltb now r.issued_at
      run raise storage_unavailable
      otherwise (do modify (update (consumable i wallet now) (consumed now)); pure (consumed now r))
