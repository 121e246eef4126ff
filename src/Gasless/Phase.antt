-- ===== src/Gasless/Phase.antt =====
-- Which columns of a row are set in which state.
use decentralized_claims_reg.Prelude.{Bool, true, false, Option, none, some, ◌≡◌, arith}
use decentralized_claims_reg.Gasless.Records.{
  State, preparing, prepared, authorized, signed, broadcast, confirmed, expired, Submission,
}
use decentralized_claims_reg.Gasless.Prepare.{
  fail_lease, expire, new_submission, prepare, fail_with,
}
use decentralized_claims_reg.Gasless.Relay.{
  has_authorization, record_signature, record_signed, record_broadcast, in_flight,
  record_replacement, confirm, relayable, note_error,
}
use decentralized_claims_reg.Gasless.Moves.{
  Move, stay, lease_lost, expires, prepares, gives_up, authorizes, signs, broadcasts, replaces,
  confirms, errs, IsNew,
}

abbrev pub is_some {ℓ} : {A : Type ℓ} → Option A → Bool
is_some none = false
is_some (some a) = true

-- The states before the relayer signs, and those that follow a recorded signature by it.
abbrev pub unsigned : State → Bool
unsigned preparing = true
unsigned prepared = true
unsigned authorized = true
unsigned expired = true
unsigned _ = false

abbrev pub relayed : State → Bool
relayed signed = true
relayed broadcast = true
relayed confirmed = true
relayed _ = false

abbrev pub awaiting : State → Bool
awaiting preparing = true
awaiting prepared = true
awaiting _ = false

-- The states of a row whose request was prepared.
abbrev pub requested : State → Bool
requested prepared = true
requested authorized = true
requested signed = true
requested broadcast = true
requested confirmed = true
requested _ = false

pub record Phase (r : Submission) : Type 0 where
  pub no_request :
      r.state ≡ preparing
      → (r.claim_hash ≡ none)
        × (r.data_pointer ≡ none)
        × (r.call_data ≡ none)
        × (r.forwarder_nonce ≡ none)
        × (r.forward_gas ≡ none)
        × (r.deadline ≡ none)
  pub has_content :
      requested r.state ≡ true
      → (is_some r.claim_hash ≡ true)
        × (is_some r.data_pointer ≡ true)
        × (is_some r.call_data ≡ true)
  pub has_request :
      requested r.state ≡ true
      → (is_some r.forwarder_nonce ≡ true)
        × (is_some r.forward_gas ≡ true)
        × (is_some r.deadline ≡ true)
  pub no_signature : awaiting r.state ≡ true → r.insurer_signature ≡ none
  pub has_signature : has_authorization r.state ≡ true → is_some r.insurer_signature ≡ true
  pub no_transaction : unsigned r.state ≡ true → r.raw_transaction ≡ none
  pub no_nonce : r.raw_transaction ≡ none → r.relayer_nonce ≡ none
  pub has_nonce : relayed r.state ≡ true → is_some r.relayer_nonce ≡ true
  pub has_transaction : relayed r.state ≡ true → is_some r.raw_transaction ≡ true
  pub has_hash : relayed r.state ≡ true → is_some r.transaction_hash ≡ true
  pub has_relayer : relayed r.state ≡ true → is_some r.relayer_address ≡ true
  pub has_fees :
      relayed r.state ≡ true
      → (is_some r.max_fee_per_gas ≡ true) × (is_some r.max_priority_fee_per_gas ≡ true)
  pub has_receipt :
      r.state ≡ confirmed → (is_some r.block_number ≡ true) × (is_some r.claim_id ≡ true)

-- Every move keeps the columns in step with the state.
pub Move-Phase : {r r' : Submission} → Move r r' → Phase r → Phase r'
unfolding has_authorization in_flight relayable fail_lease expire prepare fail_with record_signature
    record_signed record_broadcast record_replacement confirm note_error
Move-Phase stay h = h
Move-Phase (lease_lost now e) h = ground arith
Move-Phase (expires now e) h = ground arith
Move-Phase (prepares f now e) h = ground arith
Move-Phase (gives_up code now e) h = ground arith
Move-Phase (authorizes signature now e) h = ground arith
Move-Phase (signs relayer t now e e') h = ground arith
Move-Phase (broadcasts now e) h = ground arith
Move-Phase (replaces t now fee tip e n f p a b) h = ground arith
Move-Phase (confirms hash block claim now e) h = ground arith
Move-Phase (errs code terminal now e) h = ground arith

pub IsNew-Phase : {r : Submission} → IsNew r → Phase r
unfolding new_submission has_authorization
IsNew-Phase (q, now, e) = rw e (ground arith)
