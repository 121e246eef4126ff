-- ===== src/Listener/Events.antt =====
-- ClaimEventProcessor: one range of confirmed logs, in chain order. Byte values of a log stand in
-- the text form that `hx` gives them. The query for logs answers: a range whose `get_logs` raises is
-- left out, here and in the loop.
use decentralized_claims_reg.Prelude.{
  ℕ, String, Bool, true, false, Option, none, some, List, [], ◌∷◌, ◌++◌, if◌then◌else◌,
}
use decentralized_claims_reg.Prelude.Text.{str_eq, append, decimal}
use decentralized_claims_reg.Postgres.{
  Result, ok, err, Action, pure, raise, gets, modify, when◌run◌otherwise◌, ◌>>=◌, ◌>>◌,
}
use decentralized_claims_reg.Index.Tables.{
  EventType, claim_submitted, claim_assessed, Index, Log, claim_index_event_id, at_or_before,
}
use decentralized_claims_reg.Index.Tables as Tables
use decentralized_claims_reg.Index.Write.{index_claim_submitted, index_claim_assessed}

-- A log of the contract: its fields, and the arguments of its event.
pub record ChainLog : Type 0 where
  pub claim_id : ℕ
  pub block_number : ℕ
  pub block_hash : String
  pub transaction_hash : String
  pub log_index : ℕ
  pub timestamp : ℕ

pub data Event : Type 0 where
  submitted : ChainLog → String → String → String → Event
  assessed : ChainLog → ℕ → ℕ → Event

abbrev pub log_of : Event → ChainLog
log_of (submitted c claimant hash pointer) = c
log_of (assessed c status score) = c

-- `ClaimSubmittedEvent` of packages/integrations/kafka/events.py; its two constants are left out.
pub record Message : Type 0 where
  pub event_id : String
  pub source : Log
  pub claimant : String
  pub claim_hash : String
  pub data_pointer : String

-- A line of the dead-letter file.
pub record DeadLetter : Type 0 where
  pub event_id : String
  pub claim_id : ℕ
  pub block_number : ℕ
  pub data_pointer : String
  pub reason : String

pub data IpfsError : Type 0 where
  invalid_pointer download_failed : IpfsError

pub data ListenerError : Type 0 where
  permanent : String → ListenerError
  ipfs_failed not_acknowledged : ListenerError
  index_failed : Tables.Error → ListenerError

-- What the listener writes: the index, the Kafka topic and the dead-letter file.
pub record World : Type 0 where
  pub index : Index
  pub topic : List Message
  pub dead_letters : List DeadLetter

-- The identity and the adapters of a processor. A publisher acknowledges a message or does not.
pub record Services : Type 0 where
  pub chain_id : ℕ
  pub contract_address : String
  pub get_logs : EventType → ℕ → ℕ → List Event
  pub download_pointer : String → Result IpfsError String
  pub keccak : String → String
  pub has_indexer : Bool
  pub has_dead_letter : Bool
  pub publisher : Option (List Message → Message → Bool)

abbrev pub Effect : Type 0 → Type 0
Effect = Action World ListenerError

unfoldable pub event_log : Services → ChainLog → Log
event_log v c = record {
  chain_id = v.chain_id;
  contract_address = v.contract_address;
  claim_id = c.claim_id;
  block_number = c.block_number;
  block_hash = c.block_hash;
  transaction_hash = c.transaction_hash;
  log_index = c.log_index;
  event_timestamp = c.timestamp;
}

-- A repository call is a transaction of its own on the index.
abbrev pub from_index :
    World → Result Tables.Error (Unit {0}) × Index → Result ListenerError (Unit {0}) × World
from_index w (ok a, s) = (ok a, record w { index = s })
from_index w (err e, s) = (err (index_failed e), record w { index = s })

abbrev pub in_index : (Index → Result Tables.Error (Unit {0}) × Index) → Effect (Unit {0})
in_index m w = from_index w (m w.index)

unfoldable pub check_hash : Services → String → String → Effect (Unit {0})
check_hash v hash payload =
    when str_eq (v.keccak payload) hash run pure tt otherwise raise (permanent "IPFS hash mismatch")

unfoldable pub check_download : Services → String → Result IpfsError String → Effect (Unit {0})
unfolding check_hash
check_download v hash (ok payload) = check_hash v hash payload
check_download v hash (err invalid_pointer) = raise (permanent "Invalid IPFS pointer")
check_download v hash (err download_failed) = raise ipfs_failed

unfoldable pub verified_payload : Services → String → String → Effect (Unit {0})
unfolding check_download
verified_payload v pointer hash = check_download v hash (v.download_pointer pointer)

unfoldable pub message : Services → ChainLog → String → String → String → Message
message v c claimant hash pointer = record {
  event_id = claim_index_event_id v.chain_id c.transaction_hash c.log_index;
  source = event_log v c;
  claimant = claimant;
  claim_hash = hash;
  data_pointer = pointer;
}

unfoldable pub publish : Option (List Message → Message → Bool) → Message → Effect (Unit {0})
publish none m = pure tt
publish (some acknowledges) m = do
  topic ← gets (λ w. w.topic)
  when acknowledges topic m
      run modify (λ w. record w { topic = w.topic ++ m ∷ [] })
      otherwise raise not_acknowledged

unfoldable pub handle_claim_submitted :
    Services → ℕ → ChainLog → String → String → String → Effect (Unit {0})
unfolding verified_payload publish
handle_claim_submitted v now c claimant hash pointer = do
  when v.has_indexer
      run in_index (index_claim_submitted (event_log v c) claimant hash pointer now)
      otherwise pure tt
  verified_payload v pointer hash
  publish v.publisher (message v c claimant hash pointer)

unfoldable pub handle_claim_assessed : Services → ℕ → ChainLog → ℕ → ℕ → Effect (Unit {0})
handle_claim_assessed v now c status score =
    when v.has_indexer
    run in_index (index_claim_assessed (event_log v c) status score now)
    otherwise pure tt

unfoldable pub handle : Services → ℕ → Event → Effect (Unit {0})
unfolding handle_claim_submitted handle_claim_assessed
handle v now (submitted c claimant hash pointer) =
    handle_claim_submitted v now c claimant hash pointer
handle v now (assessed c status score) = handle_claim_assessed v now c status score

abbrev pointer_of : Event → String
pointer_of (submitted c claimant hash pointer) = pointer
pointer_of (assessed c status score) = ""

-- `JsonlDeadLetterSink.record`
unfoldable pub dead_letter : Event → String → DeadLetter
dead_letter e reason = record {
  event_id = append (log_of e).transaction_hash (append ":" (decimal (log_of e).log_index));
  claim_id = (log_of e).claim_id;
  block_number = (log_of e).block_number;
  data_pointer = pointer_of e;
  reason = reason;
}

-- `except PermanentClaimEventError`: what the handler wrote before it raised stays.
unfoldable pub quarantine : Bool → Event → String → World → Result ListenerError (Unit {0}) × World
quarantine true e reason w =
    (ok tt, record w { dead_letters = w.dead_letters ++ dead_letter e reason ∷ [] })
quarantine false e reason w = (err (permanent reason), w)

unfoldable pub recover :
    Services
    → Event
    → Result ListenerError (Unit {0}) × World
    → Result ListenerError (Unit {0}) × World
unfolding quarantine
recover v e (err (permanent reason), w) = quarantine v.has_dead_letter e reason w
recover v e out = out

unfoldable pub dispatch : Services → ℕ → Event → Effect (Unit {0})
unfolding recover
dispatch v now e w = recover v e (handle v now e w)

unfoldable pub dispatch_all : Services → ℕ → List Event → Effect (Unit {0})
dispatch_all v now [] = pure tt
dispatch_all v now (e ∷ rest) = do dispatch v now e; dispatch_all v now rest

-- `entries.sort(key=…)`, which is stable
unfoldable pub place_event : Event → List Event → List Event
place_event e [] = e ∷ []
place_event e (f ∷ rest) =
    let further = place_event e rest in
    if at_or_before (log_of e).block_number (log_of e).log_index (log_of f).block_number
      (log_of f).log_index
    then e ∷ f ∷ rest
    else f ∷ further

unfoldable pub in_chain_order : List Event → List Event
unfolding place_event
in_chain_order [] = []
in_chain_order (e ∷ rest) = place_event e (in_chain_order rest)

unfoldable pub entries : Services → ℕ → ℕ → List Event
entries v from to = v.get_logs claim_submitted from to ++ v.get_logs claim_assessed from to

unfoldable pub process_range : Services → ℕ → ℕ → ℕ → Effect (Unit {0})
unfolding dispatch_all
process_range v now from to = dispatch_all v now (in_chain_order (entries v from to))
