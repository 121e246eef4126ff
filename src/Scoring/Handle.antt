-- ===== src/Scoring/Handle.antt =====
-- `ClaimScoringHandler`: one delivered event, from its document to the assessment on the chain. Logs
-- and metrics are left out, so that `MonitoredScorer` and `MonitoredClaimHandler` are what they wrap.
use decentralized_claims_reg.Prelude.{
  ℕ, String, Bool, true, false, Option, none, some, [], ◌∷◌, ◌++◌, ◌==◌, ◌&&◌, not,
}
use decentralized_claims_reg.Prelude.Text.{str_eq, lower, append, remove_prefix}
use decentralized_claims_reg.Postgres.{
  Result, ok, err, pure, raise, continue, when◌run◌otherwise◌, ◌>>=◌, ◌>>◌,
}
use decentralized_claims_reg.Listener.Events.{Message}
use decentralized_claims_reg.Scoring.Assessments.{
  AssessmentRecord, is_completed, from_score, get_by_event_id, save_scored, mark_completed,
  mark_failed,
}
use decentralized_claims_reg.Scoring.Duplicates.{Claim, check}
use decentralized_claims_reg.Scoring.Features.{process_features}
use decentralized_claims_reg.Scoring.World.{
  Failure, permanent, retryable, text_of, Principal, insurer_of, authorized_claimant, Verification,
  verified, not_authorized, broken, ChainClaim, ChainAssessment, Services, World, Effect, Write,
  desired_status, conflict, lifted, in_assessments, in_fingerprints, in_snapshots,
}

module _ {C : Type 0} (v : Services C) where
  unfoldable pub verify_claim_payload : Message → String → Effect C (Unit {0})
  verify_claim_payload e payload =
      when str_eq (lower (remove_prefix "0x" (v.keccak payload)))
        (lower (remove_prefix "0x" e.claim_hash))
      run pure tt
      otherwise raise (retryable (append "IPFS hash does not match for Kafka event " e.event_id))

  abbrev pub parsed : Option Claim → Effect C Claim
  parsed (some claim) = pure claim
  parsed none = raise (
      permanent "invalid_claim_schema"
        "Claim document does not match the supported stored-claim schema")

  abbrev pub authorized : Verification → Effect C Principal
  authorized (verified p) = pure p
  authorized not_authorized = raise (
      permanent "invalid_claim_authorization"
        "Claim document does not contain valid gateway authorization")
  authorized (broken m) = raise (retryable m)

  unfoldable pub check_identity : Message → Claim → Principal → Effect C (Unit {0})
  check_identity e claim p =
      when not (str_eq (insurer_of p) claim.insurer_id)
      run raise (
          permanent "insurer_identity_mismatch"
            "Authorized insurer identity does not match the claim")
      otherwise when not (str_eq (lower (authorized_claimant p)) (lower e.claimant))
      run raise (
          permanent "claimant_identity_mismatch"
            "Authorized claimant identity does not match the on-chain claimant")
      otherwise pure tt

  -- The document of an event, verified against the chain and the gateway.
  unfoldable pub read_claim : Message → Effect C Claim
  unfolding verify_claim_payload check_identity
  read_claim e = do
    payload ← lifted (v.download_pointer e.data_pointer)
    verify_claim_payload e payload
    claim ← parsed (v.validate_json payload)
    principal ← authorized (v.verify_claim claim)
    check_identity e claim principal
    pure claim

  -- The stored decision, or a new one that is stored first.
  unfoldable pub decide : ℕ → Message → Claim → Option AssessmentRecord → Effect C AssessmentRecord
  decide now e claim (some r) = pure r
  decide now e claim none = do
    score ← lifted (v.score claim)
    in_assessments (
        save_scored
          (from_score e.event_id e.source.chain_id e.source.contract_address e.source.claim_id
            score)
          now)
    pure (from_score e.event_id e.source.chain_id e.source.contract_address e.source.claim_id score)

  abbrev pub call : Message → AssessmentRecord → Bool → Write
  call e r returned = record {
    event_id = e.event_id;
    claim_id = e.source.claim_id;
    status = desired_status r.status;
    fraud_score = r.fraud_score;
    returned = returned;
  }

  abbrev pub wrote :
      World C
      → Message
      → AssessmentRecord
      → Result String ChainAssessment × C
      → Result Failure ChainAssessment × World C
  wrote w e r (ok a, c) = (ok a, record w { chain = c; writes = w.writes ++ call e r true ∷ [] })
  wrote w e r (err m, c) =
      (err (retryable m), record w { chain = c; writes = w.writes ++ call e r false ∷ [] })

  -- `registry.assess_claim`
  abbrev pub assess_claim : Message → AssessmentRecord → Effect C ChainAssessment
  assess_claim e r w =
      wrote w e r
        (v.registry.assess_claim w.chain e.source.claim_id (desired_status r.status) r.fraud_score)

  abbrev pub get_claim : ℕ → Effect C ChainClaim
  get_claim claim w = lifted (v.registry.get_claim w.chain claim) w

  -- the body of the `try`
  unfoldable pub write_back : ℕ → Message → AssessmentRecord → Effect C (Unit {0})
  write_back now e r = do
    c ← get_claim e.source.claim_id
    when c.status == 0
        run (do
          a ← assess_claim e r
          in_assessments
              (mark_completed e.event_id (some a.transaction_hash) (some a.block_number) now))
        otherwise when c.status == desired_status r.status && c.fraud_score == r.fraud_score
        run in_assessments (mark_completed e.event_id r.transaction_hash r.block_number now)
        otherwise raise (conflict e.source.claim_id)

  abbrev pub caught :
      ℕ → Message → Result Failure (Unit {0}) × World C → Result Failure (Unit {0}) × World C
  caught now e (ok a, w) = (ok a, w)
  caught now e (err x, w) =
      continue (in_assessments (mark_failed e.event_id (text_of x) now) w) (λ _. raise x)

  -- the `try`, whose `except` records the failure and raises it again
  abbrev pub recorded_write_back : ℕ → Message → AssessmentRecord → Effect C (Unit {0})
  recorded_write_back now e r w = caught now e (write_back now e r w)

  unfoldable pub assess : ℕ → Message → Option AssessmentRecord → Effect C (Unit {0})
  unfolding read_claim decide write_back
  assess now e existing = do
    claim ← read_claim e
    duplicates ← in_fingerprints (check v.detector e claim)
    features ← in_snapshots (process_features v.features e claim duplicates)
    r ← decide now e claim existing
    recorded_write_back now e r

  abbrev pub is_done : Option AssessmentRecord → Bool
  is_done none = false
  is_done (some r) = is_completed r.processing_status

  -- `ClaimScoringHandler.__call__`
  unfoldable pub handle : ℕ → Message → Effect C (Unit {0})
  unfolding assess
  handle now e = do
    existing ← in_assessments (get_by_event_id e.event_id)
    when is_done existing run pure tt otherwise assess now e existing
