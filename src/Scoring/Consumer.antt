-- ===== src/Scoring/Consumer.antt =====
-- `QuarantiningClaimHandler` with its dead-letter file, and `KafkaClaimEventConsumer` on one
-- partition. A failure ends the process, which starts again at the committed offset: the next message
-- is always the one at that offset.
use decentralized_claims_reg.Prelude.{
  ℕ, String, Bool, true, false, Option, none, some, List, [], ◌∷◌, ◌++◌, ◌+◌,
}
use decentralized_claims_reg.Prelude.Lists.{get_elem?}
use decentralized_claims_reg.Postgres.{Result, ok, err, raise, modify, when◌run◌otherwise◌}
use decentralized_claims_reg.Listener.Events.{Message}
use decentralized_claims_reg.Scoring.World.{
  Failure, permanent, retryable, Services, World, Effect, DeadLetter,
}
use decentralized_claims_reg.Scoring.Handle.{handle}
use decentralized_claims_reg.Scoring.Decode.{Codec, Decoded, from_json_bytes}

abbrev pub dead_letter : ℕ → Message → String → String → DeadLetter
dead_letter now e code reason = record {
  recorded_at = now;
  reason_code = code;
  reason = reason;
  event_id = e.event_id;
  chain_id = e.source.chain_id;
  contract_address = e.source.contract_address;
  claim_id = e.source.claim_id;
  block_number = e.source.block_number;
  transaction_hash = e.source.transaction_hash;
  log_index = e.source.log_index;
  data_pointer = e.data_pointer;
}

-- What surrounds one delivery: the clock, the boundaries, what others did to the chain before it,
-- and whether the file and the broker take what is written to them.
pub record Attempt (C : Type 0) : Type 0 where
  pub now : ℕ
  pub services : Services C
  pub moves : C → C
  pub file_written : Bool
  pub offset_committed : Bool

-- What `poll` gives: nothing in time, an error of the broker, or the next message.
pub data Poll : Type 0 where
  timed_out broker_error next_message : Poll

-- The state of the worker, and the offset that its group has committed.
pub record Consumer (C : Type 0) : Type 0 where
  pub world : World C
  pub offset : ℕ

module _ {C : Type 0} (a : Attempt C) where
  -- `JsonlClaimDeadLetterSink.record`
  unfoldable pub record_rejection : Message → String → String → Effect C (Unit {0})
  record_rejection e code reason =
      when a.file_written
      run modify
          (λ w. record w { dead_letters = w.dead_letters ++ dead_letter a.now e code reason ∷ [] })
      otherwise raise (retryable "dead-letter file is unavailable")

  abbrev pub quarantined :
      Message → Result Failure (Unit {0}) × World C → Result Failure (Unit {0}) × World C
  quarantined e (ok x, w) = (ok x, w)
  quarantined e (err (permanent code reason), w) = record_rejection e code reason w
  quarantined e (err (retryable m), w) = (err (retryable m), w)

  -- `QuarantiningClaimHandler.__call__`
  unfoldable pub handle_or_quarantine : Message → Effect C (Unit {0})
  unfolding record_rejection
  handle_or_quarantine e w = quarantined e (handle a.services a.now e w)

  abbrev pub committed :
      Consumer C → Result Failure (Unit {0}) × World C → Result Failure Bool × Consumer C
  committed s (err x, w) = (err x, record { world = w; offset = s.offset })
  committed s (ok x, w) =
      (when a.offset_committed
          run (λ t. (ok true, record t { offset = s.offset + 1 }))
          otherwise raise (retryable "Kafka did not commit the offset"))
        (record { world = w; offset = s.offset })

module _ {C B : Type 0} (codec : Codec B) (a : Attempt C) where
  abbrev pub handle_decoded : Decoded Message → Consumer C → Result Failure Bool × Consumer C
  handle_decoded (err x) s = (err (retryable "Kafka message does not match the event schema"), s)
  handle_decoded (ok e) s =
      committed a s (handle_or_quarantine a e (record s.world { chain = a.moves s.world.chain }))

  abbrev pub received : Option B → Consumer C → Result Failure Bool × Consumer C
  received none s = (ok false, s)
  received (some value) s = handle_decoded (from_json_bytes codec value) s

  -- `KafkaClaimEventConsumer.process_next`
  unfoldable pub process_next : List B → Poll → Consumer C → Result Failure Bool × Consumer C
  unfolding handle_or_quarantine
  process_next partition timed_out s = (ok false, s)
  process_next partition broker_error s = (err (retryable "Kafka consumer error"), s)
  process_next partition next_message s = received (get_elem? partition s.offset) s

-- `main`: one delivery after another, over restarts.
unfoldable pub consume :
    {C B : Type 0} → Codec B → List B → List (Attempt C × Poll) → Consumer C → Consumer C
consume codec partition [] s = s
consume codec partition ((a, p) ∷ rest) s =
    consume codec partition rest (process_next codec a partition p s).1
