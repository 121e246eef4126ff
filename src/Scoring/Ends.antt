-- ===== src/Scoring/Ends.antt =====
-- How the handling of one event ends, on every branch.
use decentralized_claims_reg.Prelude.{
  ℕ, String, true, false, Option, none, some, List, [], ◌∷◌, ◌++◌, ◌==◌, ◌&&◌, ◌≡◌, refl, leb, ◌⊎◌,
  inl, inr, arith, Bool-cases, Option-cases, ==→eq,
}
use decentralized_claims_reg.Prelude.Lists.{find, update}
use decentralized_claims_reg.Prelude.Text.{lower}
use decentralized_claims_reg.Postgres.{Result, ok, err}
use decentralized_claims_reg.Postgres.Rules.{Result-cases, Outcome-cases}
use decentralized_claims_reg.Listener.Events.{Message}
use decentralized_claims_reg.Scoring.Assessments.{
  FraudScore, AssessmentRecord, Row, is_completed, from_score, by_event, of_claim, scored_row,
  complete, fail, get_by_event_id, save_scored, mark_completed, mark_failed,
}
use decentralized_claims_reg.Scoring.Duplicates.{Claim, Fingerprint, check}
use decentralized_claims_reg.Scoring.Features.{ClaimFeatureSnapshot, process_features}
use decentralized_claims_reg.Scoring.World.{
  Failure, retryable, text_of, ChainClaim, ChainAssessment, Services, World, desired_status,
  conflict,
}
use decentralized_claims_reg.Scoring.Handle.{
  call, decide, write_back, recorded_write_back, assess, handle,
}
use decentralized_claims_reg.Scoring.Reading.{read_claim_ends}

module _ {C : Type 0} (v : Services C) (now : ℕ) (e : Message) where
  abbrev pub scored_record : FraudScore → AssessmentRecord
  scored_record =
      from_score e.event_id e.source.chain_id e.source.contract_address e.source.claim_id

  -- The decision `r` of the event that the table `t` holds once it is made, from the rows `rows`.
  pub data Ready (rows : List Row) : AssessmentRecord → List Row → Type 0 where
    stored :
        (x : Row)
        → find (by_event e.event_id) rows ≡ some x
        → is_completed x.processing_status ≡ false
        → Ready rows x.assessment rows
    fresh :
        (claim : Claim) (score : FraudScore)
        → v.score claim ≡ ok score
        → find (by_event e.event_id) rows ≡ none
        → Ready rows (scored_record score) (rows ++ scored_row (scored_record score) now ∷ [])

  -- How the decision is made from the world `w`.
  abbrev DecideEnds : World C → Result Failure AssessmentRecord × World C → Type 0
  DecideEnds w out =
      ((r : AssessmentRecord) × (t : List Row) × Ready w.assessments r t
        × (out ≡ (ok r, record w { assessments = t })))
      ⊎ ((x : Failure) × (out ≡ (err x, w)))

  decide_new :
      (w : World C) (claim : Claim)
      → find (by_event e.event_id) w.assessments ≡ none
      → DecideEnds w (decide v now e claim none w)
  unfolding decide save_scored from_score
  decide_new w claim new = elim (Result-cases (v.score claim)) [
    | inr (m, failed) ↦ simp failed (inr (retryable m, refl))
    | inl (score, made) ↦ elim (Bool-cases (leb score.score_basis_points 10000)) [
      | inr high ↦ simp (made, high) (inr (_, refl))
      | inl low ↦
          elim (Option-cases (
            find
              (of_claim e.source.chain_id (lower (lower e.source.contract_address))
                e.source.claim_id)
              w.assessments)) [
                | inr (other, taken) ↦ simp (made, low, new, taken) (inr (_, refl))
                | inl free ↦
                    simp (made, low, new, free) (inl (_, _, fresh claim score made new, refl))
              ]
    ]
  ]

  -- The row of the event fails with the text of an exception.
  abbrev pub failing : String → List Row → List Row
  failing m = update (by_event e.event_id) (fail m now)

  abbrev pub completing : Option String → Option ℕ → List Row → List Row
  completing hash block = update (by_event e.event_id) (complete hash block now)

  -- How the writing of the decision `r` ends from the world `u`.
  pub data WriteEnds (u : World C) (r : AssessmentRecord)
      : Result Failure (Unit {0}) × World C → Type 0 where
    unread :
        (m : String)
        → v.registry.get_claim u.chain e.source.claim_id ≡ err m
        → WriteEnds u r (err (retryable m), record u { assessments = failing m u.assessments })
    assessed :
        (c : ChainClaim) (a : ChainAssessment) (k : C)
        → v.registry.get_claim u.chain e.source.claim_id ≡ ok c
        → c.status ≡ 0
        → v.registry.assess_claim u.chain e.source.claim_id (desired_status r.status) r.fraud_score
          ≡ (ok a, k)
        → WriteEnds u r (
          ok tt,
          record u {
            assessments = completing (some a.transaction_hash) (some a.block_number) u.assessments;
            chain = k;
            writes = u.writes ++ call v e r true ∷ [];
          },
        )
    unassessed :
        (c : ChainClaim) (m : String) (k : C)
        → v.registry.get_claim u.chain e.source.claim_id ≡ ok c
        → c.status ≡ 0
        → v.registry.assess_claim u.chain e.source.claim_id (desired_status r.status) r.fraud_score
          ≡ (err m, k)
        → WriteEnds u r (
          err (retryable m),
          record u {
            assessments = failing m u.assessments;
            chain = k;
            writes = u.writes ++ call v e r false ∷ [];
          },
        )
    matched :
        (c : ChainClaim)
        → v.registry.get_claim u.chain e.source.claim_id ≡ ok c
        → c.status ≡ desired_status r.status
        → c.fraud_score ≡ r.fraud_score
        → WriteEnds u r (
          ok tt,
          record u { assessments = completing r.transaction_hash r.block_number u.assessments },
        )
    conflicting :
        (c : ChainClaim)
        → v.registry.get_claim u.chain e.source.claim_id ≡ ok c
        → (c.status == 0) ≡ false
        → (c.status == desired_status r.status && c.fraud_score == r.fraud_score) ≡ false
        → WriteEnds u r (
          err (conflict e.source.claim_id),
          record u { assessments = failing (text_of (conflict e.source.claim_id)) u.assessments },
        )

  write_back_ends :
      (u : World C) (r : AssessmentRecord) → WriteEnds u r (recorded_write_back v now e r u)
  unfolding write_back mark_completed mark_failed
  write_back_ends u r = elim (Result-cases (v.registry.get_claim u.chain e.source.claim_id)) [
    | inr (m, lost) ↦ simp lost (unread m lost)
    | inl (c, read) ↦ elim (Bool-cases (c.status == 0)) [
      | inl open_ ↦
          elim (Outcome-cases (
            v.registry.assess_claim u.chain e.source.claim_id (desired_status r.status)
              r.fraud_score)) [
                | inl (a, k, done) ↦
                    simp (read, open_, done) (assessed c a k read (==→eq c.status 0 open_) done)
                | inr (m, k, failed) ↦
                    simp (read, open_, failed)
                      (unassessed c m k read (==→eq c.status 0 open_) failed)
              ]
      | inr set ↦
          elim (Bool-cases
            (c.status == desired_status r.status && c.fraud_score == r.fraud_score)) [
              | inl same ↦ simp (read, set, same) (matched c read (ground arith) (ground arith))
              | inr other ↦ simp (read, set, other) (conflicting c read set other)
            ]
    ]
  ]

  -- How the handling of the event ends from the world `w`.
  pub data HandleEnds (w : World C) : Result Failure (Unit {0}) × World C → Type 0 where
    already :
        (x : Row)
        → find (by_event e.event_id) w.assessments ≡ some x
        → is_completed x.processing_status ≡ true
        → HandleEnds w (ok tt, w)
    stopped :
        (x : Failure) (f : List Fingerprint) (s : List ClaimFeatureSnapshot)
        → HandleEnds w (err x, record w { fingerprints = f; snapshots = s })
    written :
        (f : List Fingerprint) (s : List ClaimFeatureSnapshot) (r : AssessmentRecord) (t : List Row)
        (out : Result Failure (Unit {0}) × World C)
        → Ready w.assessments r t
        → WriteEnds (record w { assessments = t; fingerprints = f; snapshots = s }) r out
        → HandleEnds w out

  assess_known :
      (w : World C) (x : Row)
      → find (by_event e.event_id) w.assessments ≡ some x
      → is_completed x.processing_status ≡ false
      → HandleEnds w (assess v now e (some x.assessment) w)
  unfolding assess decide
  assess_known w x found open_ = elim (read_claim_ends v e w) [
    | inr (m, unread_) ↦ simp unread_ (stopped m w.fingerprints w.snapshots)
    | inl (claim, read) ↦ elim (Outcome-cases (check v.detector e claim w.fingerprints)) [
      | inr (m, f, failed) ↦ simp (read, failed) (stopped _ f w.snapshots)
      | inl (duplicates, f, checked) ↦
          elim (Outcome-cases (process_features v.features e claim duplicates w.snapshots)) [
            | inr (m, s, failed) ↦ simp (read, checked, failed) (stopped _ f s)
            | inl (features, s, enriched) ↦
                simp (read, checked, enriched)
                  (written f s x.assessment w.assessments _ (stored x found open_)
                    (write_back_ends (record w { fingerprints = f; snapshots = s }) x.assessment))
          ]
    ]
  ]

  assess_unknown :
      (w : World C)
      → find (by_event e.event_id) w.assessments ≡ none
      → HandleEnds w (assess v now e none w)
  unfolding assess
  assess_unknown w new = elim (read_claim_ends v e w) [
    | inr (m, unread_) ↦ simp unread_ (stopped m w.fingerprints w.snapshots)
    | inl (claim, read) ↦ elim (Outcome-cases (check v.detector e claim w.fingerprints)) [
      | inr (m, f, failed) ↦ simp (read, failed) (stopped _ f w.snapshots)
      | inl (duplicates, f, checked) ↦
          elim (Outcome-cases (process_features v.features e claim duplicates w.snapshots)) [
            | inr (m, s, failed) ↦ simp (read, checked, failed) (stopped _ f s)
            | inl (features, s, enriched) ↦
                elim (decide_new (record w { fingerprints = f; snapshots = s }) claim new) [
                  | inr (m, failed) ↦ simp (read, checked, enriched, failed) (stopped m f s)
                  | inl (r, t, ready, made) ↦
                      simp (read, checked, enriched, made)
                        (written f s r t _ ready (
                          write_back_ends
                            (record w { assessments = t; fingerprints = f; snapshots = s }) r))
                ]
          ]
    ]
  ]

  -- Whatever the document, the model and the chain are: a completed event is left alone; or something raises
  -- before a decision and the assessments, the chain and the file stay as they are; or the event's
  -- decision stands in the table, as it was or newly made, and is assessed, matched, in conflict or
  -- failed, with that outcome in its row and each call of the chain on record.
  pub handle_ends : (w : World C) → HandleEnds w (handle v now e w)
  unfolding handle get_by_event_id
  handle_ends w = elim (Option-cases (find (by_event e.event_id) w.assessments)) [
    | inl new ↦ simp new (assess_unknown w new)
    | inr (x, found) ↦ elim (Bool-cases (is_completed x.processing_status)) [
      | inl done ↦ simp (found, done) (already x found done)
      | inr open_ ↦ simp (found, open_) (assess_known w x found open_)
    ]
  ]
