-- ===== src/Operations/Reports.antt =====
-- What the operator's snapshot says of the claim index.
use decentralized_claims_reg.Prelude.{
  ℕ, suc, String, Bool, true, Option, none, some, List, [], ◌∷◌, ◌≡◌, refl, ap, inl, inr, arith,
  ltb, leb, ◌==◌, ◌+◌, ◌-◌, ◌*◌, ◌/◌, ◌≤◌, Bool-cases,
}
use decentralized_claims_reg.Prelude.Lists.{
  length, take, keep, find, count_where, All, length-take-le,
}
use decentralized_claims_reg.Postgres.{ok}
use decentralized_claims_reg.Index.Tables.{
  claim_submitted, claim_assessed, EventRow, ClaimRow, CheckpointRow, Index,
}
use decentralized_claims_reg.Index.Newest.{keep-All_same}
use decentralized_claims_reg.Index.Search.{newest_first}
use decentralized_claims_reg.Index.Claims.{of_contract}
use decentralized_claims_reg.Index.Write.{is_deployment}
use decentralized_claims_reg.Index.Snapshot.{
  AuditRow, get_operations_snapshot, snapshot_of, is_type, has_status, status_counts, of_event,
}
use decentralized_claims_reg.Operations.Search.{Deployment, event_responses}
use decentralized_claims_reg.Operations.Health.{
  State, uninitialized, degraded, healthy, stalled, catching_up, Thresholds, OperationsResponse,
  is_configured, behind_state, state_of, response_of, snapshot,
}

-- The state for a checkpoint and a head, in blocks and microseconds.
pub data Explained (t : Thresholds) (observed : ℕ) (c : Option CheckpointRow) (head : Option ℕ)
    : State → Type 0 where
  no_checkpoint : c ≡ none → Explained t observed c head uninitialized
  no_head : (k : CheckpointRow) → c ≡ some k → head ≡ none → Explained t observed c head degraded
  ahead :
      (k : CheckpointRow) (b : ℕ)
      → c ≡ some k
      → head ≡ some b
      → suc b ≤ k.last_processed_block
      → Explained t observed c head degraded
  settled :
      (k : CheckpointRow) (b : ℕ)
      → c ≡ some k
      → head ≡ some b
      → k.last_processed_block ≤ b
      → b ≤ k.last_processed_block + t.confirmation_blocks
      → Explained t observed c head healthy
  left_behind :
      (k : CheckpointRow) (b : ℕ)
      → c ≡ some k
      → head ≡ some b
      → suc (k.last_processed_block + t.confirmation_blocks) ≤ b
      → t.stale_after_seconds * 1000000 ≤ observed - k.updated_at
      → Explained t observed c head stalled
  following :
      (k : CheckpointRow) (b : ℕ)
      → c ≡ some k
      → head ≡ some b
      → suc (k.last_processed_block + t.confirmation_blocks) ≤ b
      → suc (observed - k.updated_at) ≤ t.stale_after_seconds * 1000000
      → Explained t observed c head catching_up

module _ (t : Thresholds) (observed : ℕ) where
  behind_state-Explained :
      (k : CheckpointRow) (b : ℕ)
      → suc (k.last_processed_block + t.confirmation_blocks) ≤ b
      → Explained t observed (some k) (some b) (behind_state t observed k)
  behind_state-Explained k b h =
      elim (Bool-cases (leb t.stale_after_seconds ((observed - k.updated_at) / 1000000))) [
        | inl e ↦ simp (e) (left_behind k b refl refl h (ground (arith, e)))
        | inr e ↦ simp (e) (following k b refl refl h (ground (arith, e)))
      ]

  state_of-Explained :
      (c : Option CheckpointRow) (head : Option ℕ)
      → Explained t observed c head (state_of t observed c head)
  state_of-Explained none head = no_checkpoint refl
  state_of-Explained (some k) none = no_head k refl refl
  state_of-Explained (some k) (some b) = elim (Bool-cases (ltb b k.last_processed_block)) [
    | inl e ↦ simp (e) (ahead k b refl refl (ground (arith, e)))
    | inr e ↦ elim (Bool-cases (((b - t.confirmation_blocks) - k.last_processed_block) == 0)) [
      | inl f ↦ simp (e, f) (settled k b refl refl (ground (arith, e)) (ground (arith, f)))
      | inr f ↦ simp (e, f) (behind_state-Explained k b (ground (arith, f)))
    ]
  ]

-- Each row has one of the five statuses.
count_status :
    (rows : List ClaimRow)
    → All (λ r. r.status ≤ 4) rows
    → count_where (has_status 0) rows
        + count_where (has_status 1) rows
        + count_where (has_status 2) rows
        + count_where (has_status 3) rows
        + count_where (has_status 4) rows
      ≡ length rows
unfolding count_where
count_status [] h = refl
count_status (r ∷ rows) h = ground (arith, h.0, count_status rows h.1)

-- Each row is of one of the two types.
count_types :
    (rows : List EventRow)
    → count_where (is_type claim_submitted) rows + count_where (is_type claim_assessed) rows
      ≡ length rows
unfolding count_where
count_types [] = refl
count_types (r ∷ rows) = ground (arith, count_types rows)

module _ (text_lt : String → String → Bool) (d : Deployment) (t : Thresholds) (s : Index)
    (audits : List AuditRow) where
  module _ (observed : ℕ) (head : Option ℕ) where
    -- The state is the one of the checkpoint and the head; each claim has one of the five statuses and
    -- each event one of the two types; no more events are shown than the limit allows.
    pub record Reports (r : OperationsResponse) : Type 0 where
      pub explained :
          Explained t observed
            (find (is_deployment d.chain_id d.address) s.checkpoints)
            head
            r.state
      pub claims_counted :
          (let c = r.claim_status_counts in
            c.submitted + c.under_review + c.approved + c.rejected + c.flagged)
          ≡ r.total_claims
      pub claims_of : r.total_claims ≡ length (keep (of_contract d.chain_id d.address) s.claims)
      pub events_counted : r.submitted_events + r.assessed_events ≡ r.total_events
      pub bounded : length r.recent_events ≤ t.recent_event_limit

    length-responses : (events : List EventRow) → length (event_responses events) ≡ length events
    unfolding event_responses
    length-responses [] = refl
    length-responses (e ∷ events) = ap suc (length-responses events)

    -- Where the service is configured and claims have statuses up to 4, a snapshot returns, whether the
    -- chain answers or not, and reports the claim index: its state follows from the
    -- checkpoint, the head and the clock, and without a checkpoint it is `uninitialized`, also where the
    -- chain does not answer; the counts of claims and of events add up to their totals, and the events
    -- shown are no more than the limit.
    pub snapshot-Reports :
        is_configured t ≡ true
        → All (λ r. r.status ≤ 4) s.claims
        → (r : OperationsResponse) × (snapshot text_lt d t s audits observed head ≡ ok r)
          × Reports r
    unfolding snapshot get_operations_snapshot status_counts
    snapshot-Reports configured statuses =
        let some_ : leb 1 t.recent_event_limit ≡ true = ground (arith, configured) in
        let few : leb t.recent_event_limit 100 ≡ true = ground (arith, configured) in
        let claims = keep (of_contract d.chain_id d.address) s.claims in
        let events = keep (of_event d.chain_id d.address) s.events in
        (
          response_of t observed head
              (snapshot_of text_lt d.chain_id d.address t.recent_event_limit s audits),
          simp (some_, few) refl,
          record {
            explained =
                state_of-Explained t observed
                  (find (is_deployment d.chain_id d.address) s.checkpoints) head;
            claims_counted =
                count_status claims (keep-All_same _ (λ r. r.status ≤ 4) s.claims statuses);
            claims_of = refl;
            events_counted = count_types events;
            bounded =
                rw (length-responses (take t.recent_event_limit (newest_first text_lt events)))
                  (length-take-le t.recent_event_limit (newest_first text_lt events));
          },
        )
