-- ===== src/Relayer/Worker.antt =====
-- GaslessRelayWorker, over the repository and the interface of the chain that it uses.
use decentralized_claims_reg.Prelude.{
  ℕ, ◌+◌, ◌*◌, String, Bool, true, false, Option, none, some, List, [], ◌∷◌, ◌++◌, ◌||◌, not, leb,
  if◌then◌else◌,
}
use decentralized_claims_reg.Prelude.Lists.{length}
use decentralized_claims_reg.Prelude.Text.{str_eq, lower, contains}
use decentralized_claims_reg.Postgres.{
  Result, ok, err, Action, pure, raise, gets, modify, when◌run◌otherwise◌, ◌>>=◌, ◌>>◌,
}
use decentralized_claims_reg.Gasless.Records.{
  authorized, signed, broadcast, confirmed, state_eq, Submission, SignedRelayTransaction, Outbox,
}
use decentralized_claims_reg.Gasless.Records as Records
use decentralized_claims_reg.Gasless.Table.{Tx}
use decentralized_claims_reg.Gasless.Prepare.{second}
use decentralized_claims_reg.Gasless.Relay.{
  in_flight, list_relay_candidates, persist_signed_transaction, mark_broadcast,
  list_relay_transaction_hashes, persist_replacement_transaction, mark_confirmed,
  record_relay_error,
}

pub data WorkerError : Type 0 where
  blockchain : String → WorkerError
  store : Records.Error → WorkerError

pub record Receipt : Type 0 where
  pub transaction_hash : String
  pub block_number : ℕ
  pub reverted : Bool

pub record Confirmation : Type 0 where
  pub transaction_hash : String
  pub block_number : ℕ
  pub claim_id : ℕ

abbrev pub Signer : Type 0
Signer = ℕ → Result Records.Error SignedRelayTransaction

-- `GaslessRelayChain`, each answer a value or the text of a GaslessBlockchainError. The answers
-- may depend on the bytes that were sent before.
pub record Chain : Type 0 where
  pub address : String
  pub prepare_relay_signer : List String → Submission → Option (ℕ × ℕ) → Result String Signer
  pub pending_nonce : List String → Result String ℕ
  pub verify_signature : List String → Submission → String → Result String (Unit {0})
  pub send : List String → String → String → Result String (Unit {0})
  pub receipt : List String → String → Result String (Option Receipt)
  pub has_confirmations : List String → Receipt → ℕ → Result String Bool
  pub confirmation : List String → Submission → Receipt → Result String Confirmation

pub record Worker : Type 0 where
  pub chain : Chain
  pub confirmation_blocks : ℕ
  pub stuck_transaction_seconds : ℕ

-- The tables, and the raw transactions handed to the network so far.
pub record World : Type 0 where
  pub outbox : Outbox
  pub sent : List String

abbrev pub Effect : Type 0 → Type 0
Effect = Action World WorkerError

abbrev pub from_store :
    {A : Type 0} → World → Result Records.Error A × Outbox → Result WorkerError A × World
from_store w (ok a, s) = (ok a, record w { outbox = s })
from_store w (err e, s) = (err (store e), record w { outbox = s })

abbrev pub in_store : {A : Type 0} → Tx A → Effect A
in_store m w = from_store w (m w.outbox)

abbrev pub answered : {A : Type 0} → World → Result String A → Result WorkerError A × World
answered w (ok a) = (ok a, w)
answered w (err m) = (err (blockchain m), w)

abbrev pub ask : {A : Type 0} → (List String → Result String A) → Effect A
ask q w = answered w (q w.sent)

-- `not value` for an optional text
abbrev pub blank : Option String → Bool
blank none = true
blank (some t) = str_eq t ""

abbrev pub text_of : Option String → String
text_of none = ""
text_of (some t) = t

-- `_broadcast`
unfoldable pub broadcast_record : Worker → ℕ → Submission → Effect Submission
broadcast_record k now r =
    when blank r.raw_transaction || blank r.transaction_hash
    run raise (blockchain "Persisted relay transaction is incomplete")
    otherwise do
      answer ←
          gets (λ w. k.chain.send w.sent (text_of r.raw_transaction) (text_of r.transaction_hash))
      modify (λ w. record w { sent = w.sent ++ text_of r.raw_transaction ∷ [] })
      ask (λ _. answer)
      in_store (mark_broadcast r.submission_id now)

abbrev first_some : Option ℕ → Option ℕ → Option ℕ
first_some (some t) o = some t
first_some none o = o

abbrev old_enough : ℕ → ℕ → Option ℕ → Bool
old_enough limit now none = true
old_enough limit now (some t) = leb (t + limit * second) now

-- `_is_stuck`
unfoldable pub is_stuck : Worker → ℕ → Submission → Bool
is_stuck k now r =
    old_enough k.stuck_transaction_seconds now (first_some r.last_broadcast_at r.broadcast_at)

abbrev pub or_next : Option Receipt → Effect (Option Receipt) → Effect (Option Receipt)
or_next none m = m
or_next (some r) m = pure (some r)

-- the loop of `_receipt_for_any_attempt`
unfoldable pub first_receipt : Worker → List String → Effect (Option Receipt)
first_receipt k [] = pure none
first_receipt k (hash ∷ rest) = do
  found ← ask (λ sent. k.chain.receipt sent hash)
  or_next found (first_receipt k rest)

unfoldable pub receipt_for_any_attempt : Worker → Submission → Effect (Option Receipt)
receipt_for_any_attempt k r = do
  hashes ← in_store (list_relay_transaction_hashes r.submission_id)
  first_receipt k hashes

abbrev pub markers : List (String × String)
markers =
    ("invalid, expired, or uses a stale nonce", "authorization_invalid")
    ∷ ("reverted on-chain", "relay_reverted")
    ∷ ("did not emit exactly one", "receipt_event_missing")
    ∷ ("does not match", "receipt_event_mismatch")
    ∷ ("target does not match", "deployment_mismatch")
    ∷ ("exceeds the configured gas cap", "transaction_gas_cap_exceeded")
    ∷ []

abbrev pub retryable : String → String × Bool
retryable message =
    if contains "network fees exceed" message
    then ("fee_cap_exceeded", false)
    else if contains "nonce was consumed" message
    then ("relayer_nonce_conflict", false)
    else ("relay_dependency_unavailable", false)

unfoldable pub classify : String → List (String × String) → String × Bool
classify message [] = retryable message
classify message ((marker, code) ∷ rest) =
    let further = classify message rest in if contains marker message then (code, true) else further

-- `_failure`
unfoldable pub failure : String → String × Bool
unfolding classify
failure message = classify (lower message) markers

unfoldable pub replace : Worker → ℕ → Submission → Option ℕ → Option ℕ → Effect (Unit {0})
replace k now r (some fee) (some tip) = do
  sign ← ask (λ sent. k.chain.prepare_relay_signer sent r (some (fee, tip)))
  current ← in_store (persist_replacement_transaction r.submission_id (λ nonce _ _. sign nonce) now)
  when state_eq current.state signed
      run (do broadcast_record k now current; pure tt)
      otherwise pure tt
replace k now r _ _ = raise (blockchain "Persisted relay fee quote is incomplete")

-- What follows once the receipt is known, or known to be missing.
unfoldable pub conclude : Worker → ℕ → Submission → Option Receipt → Effect (Unit {0})
unfolding replace
conclude k now r none =
    when is_stuck k now r
    run replace k now r r.max_fee_per_gas r.max_priority_fee_per_gas
    otherwise pure tt
conclude k now r (some receipt) = do
  deep ← ask (λ sent. k.chain.has_confirmations sent receipt k.confirmation_blocks)
  when not deep run pure tt otherwise do
    result ← ask (λ sent. k.chain.confirmation sent r receipt)
    in_store (
        mark_confirmed r.submission_id result.transaction_hash result.block_number result.claim_id
          now)
    pure tt

unfoldable pub send_signed : Worker → ℕ → Submission → Effect (Unit {0})
unfolding conclude
send_signed k now r =
    when blank r.insurer_signature
    run raise (blockchain "Persisted relay authorization is incomplete")
    otherwise do
      ask (λ sent. k.chain.verify_signature sent r (text_of r.insurer_signature))
      current ← broadcast_record k now r
      when state_eq current.state confirmed
          run pure tt
          otherwise do receipt ← receipt_for_any_attempt k current; conclude k now current receipt

unfoldable pub with_receipt : Worker → ℕ → Submission → Option Receipt → Effect (Unit {0})
unfolding send_signed conclude
with_receipt k now r none =
    when state_eq r.state signed run send_signed k now r otherwise conclude k now r none
with_receipt k now r (some receipt) =
    when state_eq r.state signed
    run (do
      current ← in_store (mark_broadcast r.submission_id now)
      conclude k now current (some receipt))
    otherwise conclude k now r (some receipt)

unfoldable pub sign_authorized : Worker → ℕ → Submission → Effect Submission
sign_authorized k now r =
    when state_eq r.state authorized
    run (do
      sign ← ask (λ sent. k.chain.prepare_relay_signer sent r none)
      pending ← ask k.chain.pending_nonce
      in_store (persist_signed_transaction r.submission_id k.chain.address pending sign now))
    otherwise pure r

unfoldable pub advance : Worker → ℕ → Submission → Effect (Unit {0})
unfolding sign_authorized with_receipt
advance k now r = do
  current ← sign_authorized k now r
  when not (in_flight current.state)
      run pure tt
      otherwise do receipt ← receipt_for_any_attempt k current; with_receipt k now current receipt

-- `except GaslessBlockchainError`; every version of the row has the identifier of `r`.
unfoldable pub record_failure :
    ℕ → Submission → Result WorkerError (Unit {0}) × World → Result WorkerError (Unit {0}) × World
record_failure now r (err (blockchain m), w) =
    in_store (record_relay_error r.submission_id (failure m).0 (failure m).1 now) w
record_failure now r out = out

unfoldable pub process : Worker → ℕ → Submission → Effect (Unit {0})
unfolding advance record_failure
process k now r w = record_failure now r (advance k now r w)

unfoldable pub process_all : Worker → ℕ → List Submission → Effect (Unit {0})
unfolding process
process_all k now [] = pure tt
process_all k now (r ∷ rest) = do process k now r; process_all k now rest

unfoldable pub run_once : Worker → ℕ → ℕ → Effect ℕ
unfolding process_all
run_once k limit now = do
  candidates ← in_store (list_relay_candidates limit now)
  process_all k now candidates
  pure (length candidates)
