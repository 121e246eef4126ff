-- ===== src/Claimant/Sessions.antt =====
-- `ClaimantSessionManager` of apps/backend/app/claimant_auth.py. A clock gives UTC microseconds.
pub mod Terms
unfoldable pub use Terms.*
use decentralized_claims_reg.Prelude.{
  ℕ, String, Bool, true, false, Option, none, some, List, [], ◌∷◌, ltb, leb, ◌==◌, ◌&&◌, ◌||◌, not,
  ◌+◌, ◌*◌, ◌-◌, ◌/◌, ◌%◌, if◌then◌else◌,
}
use decentralized_claims_reg.Prelude.Text.{
  str_eq, lower, append, decimal, starts_with, text_length, split_dots, has_space, repeated,
}
use decentralized_claims_reg.Postgres.{
  Result, ok, err, Action, raise, pure, when◌run◌otherwise◌, or_raise, ◌>>=◌,
}
use decentralized_claims_reg.Scoring.Decode.{Json, text, number, boolean, Fields, field}
use decentralized_claims_reg.Claimant.Challenges.{
  ChallengeRecord, ChallengeError, client_rate_limit, wallet_rate_limit, not_usable,
  storage_unavailable, is_unused, issue, get, consume,
}

module _ (tools : Tools) (settings : Settings) where
  -- `_b64encode`
  abbrev pub b64encode : String → String
  b64encode value = tools.without_padding (tools.urlsafe_b64encode value)

  -- `_b64decode`
  abbrev pub b64decode : String → Option String
  b64decode value =
      if str_eq value "" || has_space value
      then none
      else tools.urlsafe_b64decode (append value (repeated ((4 - text_length value % 4) % 4) "="))

  abbrev pub fingerprint : String → String → String
  fingerprint namespace value =
      tools.hexdigest settings.fingerprint_key (append namespace (append ":" value))

  abbrev pub subject_id : String → String
  subject_id wallet =
      append "claimant-" (tools.hexdigest settings.subject_key (append "claimant:" (lower wallet)))

  abbrev pub challenge_message : String → String → ℕ → ℕ → ℕ → String
  challenge_message wallet nonce issued expires i = append settings.domain (
      append " wants you to sign in with your Ethereum account:\n" (
        append wallet (
          append "\n\nSubmit and track an insurance claim.\n\nURI: " (
            append settings.uri (
              append "\nVersion: 1\nChain ID: " (
                append (decimal settings.chain_id) (
                  append "\nNonce: " (
                    append nonce (
                      append "\nIssued At: " (
                        append (tools.isoformat issued) (
                          append "\nExpiration Time: " (
                            append (tools.isoformat expires)
                              (append "\nRequest ID: " (tools.uuid_text i))))))))))))))

  abbrev pub client_text : String → String
  client_text ip = if str_eq (tools.strip ip) "" then "unknown" else tools.strip ip

  abbrev pub new_challenge : String → String → String → ℕ → ℕ → ChallengeRecord
  new_challenge wallet ip nonce i now = record {
    challenge_id = i;
    wallet_address = wallet;
    nonce = nonce;
    message = challenge_message wallet nonce now (now + seconds settings.challenge_ttl_seconds) i;
    client_fingerprint = fingerprint "client" (client_text ip);
    issued_at = now;
    expires_at = now + seconds settings.challenge_ttl_seconds;
    consumed_at = none;
  }

  unfoldable pub issue_challenge : String → String → String → ℕ → ℕ → Auth IssuedChallenge
  unfolding issue
  issue_challenge wallet_address ip nonce i now = do
    wallet ← or_raise (tools.to_checksum_address (text wallet_address)) invalid_wallet
    when tools.is_zero wallet
        run raise zero_wallet
        otherwise when ltb (text_length nonce) 16 || not (tools.is_alnum nonce)
        run raise bad_nonce
        otherwise (do
          saved ← within issue_failure (
              issue (new_challenge wallet ip nonce i now) settings.client_limit_per_minute
                settings.wallet_limit_per_minute)
          pure (record {
            challenge_id = saved.challenge_id;
            message = saved.message;
            expires_at = saved.expires_at;
          }))

  abbrev pub usable : ℕ → Option ChallengeRecord → Option ChallengeRecord
  usable now none = none
  usable now (some c) =
      if not (is_unused c.consumed_at) || ltb c.expires_at now then none else some c

  -- the payload of a session, its keys sorted
  abbrev pub payload_of : String → String → ℕ → Fields
  payload_of address wallet now =
      ("address", text address)
      ∷ ("exp", number ((now + seconds settings.session_ttl_seconds) / 1000000))
      ∷ ("iat", number (now / 1000000))
      ∷ ("sub", text (subject_id wallet))
      ∷ ("version", number 1)
      ∷ []

  abbrev pub signed_part : String → String
  signed_part payload = append "v1." payload

  abbrev pub issued : String → String → ℕ → Option String → Result AuthError IssuedSession
  issued address payload now none = err unexpected
  issued address payload now (some signature) = ok (record {
    access_token = append "v1" (append "." (append payload (append "." (b64encode signature))));
    expires_at = now + seconds settings.session_ttl_seconds;
    claimant_address = address;
  })

  abbrev pub session_for : String → ℕ → Option String → Result AuthError IssuedSession
  session_for wallet now none = err unexpected
  session_for wallet now (some address) =
      let payload = b64encode (tools.dumps (payload_of address wallet now)) in
      issued address payload now (tools.digest settings.token_key (signed_part payload))

  -- `create_session` up to its call of `consume`: the wallet that signed the challenge
  unfoldable pub recover_wallet : ℕ → String → ℕ → Auth String
  unfolding get
  recover_wallet i signature now = do
    found ← within consume_failure (get i)
    challenge ← or_raise (usable now found) challenge_unusable
    recovered ← or_raise (tools.recover_message challenge.message signature) invalid_signature
    when not (str_eq (lower recovered) (lower challenge.wallet_address))
        run raise other_wallet
        otherwise (pure recovered)

  -- `create_session` from its call of `consume` on
  unfoldable pub consume_for_session : ℕ → String → ℕ → Auth IssuedSession
  unfolding consume
  consume_for_session i wallet now = do
    spent ← within consume_failure (consume i wallet now)
    (λ s. (
      session_for spent.wallet_address now (tools.to_checksum_address (text spent.wallet_address)),
      s,
    ))

  -- The two transactions of a call, one right after the other.
  unfoldable pub create_session : ℕ → String → ℕ → Auth IssuedSession
  unfolding recover_wallet consume_for_session
  create_session i signature now = do
    recovered ← recover_wallet i signature now
    consume_for_session i recovered now

  abbrev pub is_one : Option Json → Bool
  is_one (some (number n)) = n == 1
  is_one (some (boolean b)) = b
  is_one _ = false

  abbrev pub has_field : String → Fields → Bool
  has_field name fields = elim (field name fields) [ none ↦ false | some v ↦ true ]

  abbrev pub is_key : String → Bool
  is_key k =
      str_eq k "address" || str_eq k "exp" || str_eq k "iat" || str_eq k "sub" || str_eq k "version"

  unfoldable pub all_keys : Fields → Bool
  all_keys [] = true
  all_keys ((k, v) ∷ rest) = is_key k && all_keys rest

  -- `set(payload) == {…}`
  abbrev pub has_session_keys : Fields → Bool
  has_session_keys fields =
      all_keys fields
      && has_field "address" fields
      && has_field "exp" fields
      && has_field "iat" fields
      && has_field "sub" fields
      && has_field "version" fields

  abbrev pub value_of : Option Json → Json
  value_of none = text ""
  value_of (some v) = v

  pub record Payload : Type 0 where
    pub address : String
    pub subject : String
    pub expires_at : ℕ
    pub issued_at : ℕ

  abbrev pub payload_times : String → String → Option ℕ → Option ℕ → Option Payload
  payload_times address subject (some e) (some i) = some (record {
    address = address;
    subject = subject;
    expires_at = seconds e;
    issued_at = seconds i;
  })
  payload_times address subject _ _ = none

  abbrev pub payload_for : Fields → Option String → Option Payload
  payload_for fields none = none
  payload_for fields (some address) =
      payload_times address (tools.str (value_of (field "sub" fields)))
        (tools.int (value_of (field "exp" fields))) (tools.int (value_of (field "iat" fields)))

  abbrev pub read_fields : Option Fields → Option Payload
  read_fields none = none
  read_fields (some fields) =
      if has_session_keys fields && is_one (field "version" fields)
      then payload_for fields (tools.to_checksum_address (value_of (field "address" fields)))
      else none

  abbrev pub read_payload : Option String → Option Payload
  read_payload none = none
  read_payload (some payload) = read_fields (tools.loads payload)

  abbrev pub checked : String → Option String → Option String → Option Payload
  checked payload (some supplied) (some expected) =
      if str_eq supplied expected then read_payload (b64decode payload) else none
  checked payload _ _ = none

  abbrev pub parts : List String → Option Payload
  parts (version ∷ payload ∷ signature ∷ []) =
      if str_eq version "v1"
      then checked payload (b64decode signature)
          (tools.digest settings.token_key (signed_part payload))
      else none
  parts _ = none

  abbrev pub admitted : ℕ → Option Payload → Result AuthError Session
  admitted now none = err invalid_session
  admitted now (some p) =
      if leb p.expires_at now || ltb (now + seconds 30) p.issued_at
      then err session_expired
      else if not (starts_with "claimant-" p.subject) || not (text_length p.subject == 73)
      then err invalid_subject
      else if not (str_eq p.subject (subject_id p.address))
      then err invalid_subject
      else ok (record {
        subject_id = p.subject;
        claimant_address = p.address;
        expires_at = p.expires_at;
      })

  unfoldable pub authenticate : Option String → ℕ → Result AuthError Session
  unfolding all_keys field
  authenticate none now = err no_token
  authenticate (some token) now =
      if str_eq token "" then err no_token else admitted now (parts (split_dots token))
