-- ===== src/Operations/Audits.antt =====
-- The audits of the reconciliation in the operator's snapshot.
use decentralized_claims_reg.Prelude.{
  ℕ, suc, String, Bool, true, Option, some, List, [], ◌∷◌, ◌++◌, ◌≡◌, refl, inl, inr, arith, leb,
  ◌==◌, ◌&&◌, ◌≤◌, Bool-cases, if◌then◌else◌,
}
use decentralized_claims_reg.Prelude.Text.{str_eq, lower}
use decentralized_claims_reg.Prelude.Lists.{keep, keep-append, append-nil, All}
use decentralized_claims_reg.Postgres.{Result, ok, err}
use decentralized_claims_reg.Index.Tables.{Index}
use decentralized_claims_reg.Index.Newest.{keep-All_same}
use decentralized_claims_reg.Index.Snapshot.{
  AuditRow, Audit, audit_row, record_reconciliation, is_audit, audited_before, latest,
  get_operations_snapshot,
}
use decentralized_claims_reg.Operations.Search.{Deployment}
use decentralized_claims_reg.Operations.Health.{Thresholds, OperationsResponse, snapshot}

-- An audit that an audit with number `n` at time `now` comes after.
abbrev pub Precedes : ℕ → ℕ → AuditRow → Type 0
Precedes n now r = (suc r.reconciliation_id ≤ n) × (r.checked_at ≤ now)

latest-append :
    (rows : List AuditRow) (r : AuditRow)
    → All (Precedes r.reconciliation_id r.checked_at) rows
    → latest (rows ++ r ∷ []) ≡ some r
unfolding latest
latest-append [] r h = refl
latest-append (x ∷ rows) r h =
    let after : audited_before x r ≡ true = ground (arith, h.0) in
    simp (latest-append rows r h.1, after) refl

-- A response with another audit as its last.
abbrev pub with_audit :
    AuditRow → Result String OperationsResponse → Result String OperationsResponse
with_audit r (err m) = err m
with_audit r (ok response) = ok (record response { last_reconciliation = some r })

module _ (text_lt : String → String → Bool) (d : Deployment) (t : Thresholds) (s : Index)
    (audits : List AuditRow) where
  module _ (observed : ℕ) (head : Option ℕ) where
    -- Where the audits have numbers below `id` and no time after `now`: once an audit was recorded
    -- with number `id` at `now`, a snapshot of its deployment, in any letter case, shows it as the last
    -- and all else as before, and a snapshot of another deployment is as before.
    pub snapshot-record_reconciliation :
        (chain : ℕ) (contract : String) (a : Audit) (id now : ℕ)
        → All (Precedes id now) audits
        → snapshot text_lt d t s
            (record_reconciliation chain contract a id now audits)
            observed
            head
          ≡ (if chain == d.chain_id && str_eq (lower contract) (lower d.address)
              then with_audit
                  (audit_row chain contract a id now)
                  (snapshot text_lt d t s audits observed head)
              else snapshot text_lt d t s audits observed head)
    unfolding snapshot get_operations_snapshot record_reconciliation keep
    snapshot-record_reconciliation chain contract a id now h =
        let row = audit_row chain contract a id now in
        let split = keep-append (is_audit d.chain_id d.address) audits (row ∷ []) in
        elim (Bool-cases (leb 1 t.recent_event_limit && leb t.recent_event_limit 100)) [
          | inr f ↦ simp (f) (ground arith)
          | inl f ↦
              elim (Bool-cases (chain == d.chain_id && str_eq (lower contract) (lower d.address))) [
                | inr g ↦ simp (f, g, split, append-nil) refl
                | inl g ↦
                    let last =
                      latest-append (keep (is_audit d.chain_id d.address) audits) row (
                        keep-All_same (is_audit d.chain_id d.address) (Precedes id now) audits h) in
                    simp (f, g, split, last) refl
              ]
        ]
