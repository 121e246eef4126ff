-- ===== src/Scoring/Progress.antt =====
-- What the handling of an event may do to the rows of `claim_assessments`.
use decentralized_claims_reg.Prelude.{
  ℕ, String, true, false, Option, none, some, List, [], ◌∷◌, ◌++◌, ◌≡◌, ◌≢◌, refl, sym, ◌∙◌, subst,
  inl, inr, arith, Bool-cases,
}
use decentralized_claims_reg.Prelude.Lists.{
  find, update, patch, All, All-imp, All-append, All-trivial, AllPairs, AllPairs-update,
  AllPairs-imp, AllPairs-append_one, Some, Some-last, find-Some, find-none, find-true, find_only,
  Grows, Grows-refl, Grows-update, Grows-append, Grows-trans,
}
use decentralized_claims_reg.Prelude.Text.{eq_str, eq_iff}
use decentralized_claims_reg.Scoring.Assessments.{
  AssessmentRecord, FraudScore, Row, is_completed, by_event, from_score, scored_row, complete, fail,
}
use decentralized_claims_reg.Scoring.Ends.{Ready}
use decentralized_claims_reg.Scoring.World.{Services}
use decentralized_claims_reg.Listener.Events.{Message}

-- What stays of a row: its keys and its decision, and all of it once it is completed.
pub record Progress (r r' : Row) : Type 0 where
  pub same_event : r'.event_id ≡ r.event_id
  pub same_chain : r'.chain_id ≡ r.chain_id
  pub same_contract : r'.contract_address ≡ r.contract_address
  pub same_claim : r'.claim_id ≡ r.claim_id
  pub same_decision : r'.decision ≡ r.decision
  pub kept : is_completed r.processing_status ≡ true → r' ≡ r

abbrev pub Added : Row → Type 0
Added r = Unit

abbrev pub Grown : List Row → List Row → Type 0
Grown = Grows Progress Added

abbrev pub UniqueEvents : List Row → Type 0
UniqueEvents = AllPairs λ r s. r.event_id ≢ s.event_id

Progress-refl : (r : Row) → Progress r r
Progress-refl r = record {
  same_event = refl;
  same_chain = refl;
  same_contract = refl;
  same_claim = refl;
  same_decision = refl;
  kept = λ _. refl;
}

pub Progress-trans : (r s t : Row) → Progress r s → Progress s t → Progress r t
Progress-trans r s t h k = record {
  same_event = k.same_event ∙ h.same_event;
  same_chain = k.same_chain ∙ h.same_chain;
  same_contract = k.same_contract ∙ h.same_contract;
  same_claim = k.same_claim ∙ h.same_claim;
  same_decision = k.same_decision ∙ h.same_decision;
  kept = λ e.
      k.kept (subst (λ x. is_completed x.processing_status ≡ true) (sym (h.kept e)) e) ∙ h.kept e;
}

pub Grown-refl : (rows : List Row) → Grown rows rows
Grown-refl rows = Grows-refl Progress Added rows Progress-refl

pub Grown-trans : (rows ss ts : List Row) → Grown rows ss → Grown ss ts → Grown rows ts
Grown-trans rows ss ts = Grows-trans Progress Added rows ss ts Progress-trans (λ _ _ _ _. tt)

-- The rows of `event` may still change.
abbrev pub Pending : String → List Row → Type 0
Pending event = All λ r. by_event event r ≡ true → is_completed r.processing_status ≡ false

-- The two updates of a row, by which a handled event ends.
module _ (event : String) (f : Row → Row)
    (keeps : (r : Row) → is_completed r.processing_status ≡ false → Progress r (f r)) where
  patch-Progress :
      (r : Row)
      → (by_event event r ≡ true → is_completed r.processing_status ≡ false)
      → Progress r (patch (by_event event) f r)
  patch-Progress r open_ = elim (Bool-cases (by_event event r)) [
    | inl own ↦ rw own (keeps r (open_ own))
    | inr other ↦ rw other (Progress-refl r)
  ]

  pub update-Grown :
      (rows : List Row) → Pending event rows → Grown rows (update (by_event event) f rows)
  update-Grown rows h =
      Grows-update Progress Added
        (λ r. by_event event r ≡ true → is_completed r.processing_status ≡ false) (by_event event) f
        rows patch-Progress h

pub complete-Progress :
    (hash : Option String) (block : Option ℕ) (now : ℕ) (r : Row)
    → is_completed r.processing_status ≡ false
    → Progress r (complete hash block now r)
unfolding complete
complete-Progress hash block now r open_ = record {
  same_event = refl;
  same_chain = refl;
  same_contract = refl;
  same_claim = refl;
  same_decision = refl;
  kept = λ e. absurd (ground arith);
}

pub fail-Progress :
    (m : String) (now : ℕ) (r : Row)
    → is_completed r.processing_status ≡ false
    → Progress r (fail m now r)
unfolding fail
fail-Progress m now r open_ = record {
  same_event = refl;
  same_chain = refl;
  same_contract = refl;
  same_claim = refl;
  same_decision = refl;
  kept = λ e. absurd (ground arith);
}

-- Growth by nothing but new rows of other events.
pub UniqueEvents-update :
    (event : String) (f : Row → Row) (rows : List Row)
    → ((r : Row) → (f r).event_id ≡ r.event_id)
    → UniqueEvents rows
    → UniqueEvents (update (by_event event) f rows)
UniqueEvents-update event f rows k u =
    AllPairs-update (λ _. Unit) (λ r s. r.event_id ≢ s.event_id) (λ r s. r.event_id ≢ s.event_id)
      (by_event event) f rows (λ r s _ _ d e. d (sym (patched r) ∙ e ∙ patched s))
      (All-trivial rows) u
  where
    patched : (r : Row) → (patch (by_event event) f r).event_id ≡ r.event_id
    patched r = elim (Bool-cases (by_event event r)) [ inl t ↦ rw t (k r) | inr t ↦ rw t refl ]

-- The table once the decision is made: the decision stands in it, and its row may still change.
pub record IsReady (event : String) (r : AssessmentRecord) (rows t : List Row) : Type 0 where
  pub unique : UniqueEvents t
  pub grown : Grown rows t
  pub pending : Pending event t
  pub held : Some (λ x. (x.event_id ≡ event) × (x.decision ≡ r.decision)) t

pub found_event :
    (event : String) (rows : List Row) (x : Row)
    → find (by_event event) rows ≡ some x
    → x.event_id ≡ event
found_event event rows x e = (eq_iff x.event_id event).0 (find-true (by_event event) rows x e)

stored-IsReady :
    (event : String) (rows : List Row) (x : Row)
    → UniqueEvents rows
    → find (by_event event) rows ≡ some x
    → is_completed x.processing_status ≡ false
    → IsReady event x.assessment rows rows
stored-IsReady event rows x u found open_ = record {
  unique = u;
  grown = Grown-refl rows;
  pending =
      All-imp (λ y. by_event event y ≡ true → y ≡ x)
        (λ y. by_event event y ≡ true → is_completed y.processing_status ≡ false) rows
        (λ y same own. subst (λ z. is_completed z.processing_status ≡ false) (sym (same own)) open_)
        (find_only (by_event event) rows x
          (AllPairs-imp (λ r s. r.event_id ≢ s.event_id)
            (λ r s. by_event event r ≡ true → by_event event s ≡ true → ⊥) rows
            (λ r s d a b. d ((eq_iff r.event_id event).0 a ∙ sym ((eq_iff s.event_id event).0 b)))
            u)
          found);
  held =
      find-Some (λ y. (y.event_id ≡ event) × (y.decision ≡ x.assessment.decision)) (by_event event)
        rows x found (found_event event rows x found, refl);
}

fresh-IsReady :
    (event : String) (rows : List Row) (r : AssessmentRecord) (now : ℕ)
    → r.event_id ≡ event
    → UniqueEvents rows
    → find (by_event event) rows ≡ none
    → IsReady event r rows (rows ++ scored_row r now ∷ [])
fresh-IsReady event rows r now own u new =
    let others : All (λ x. by_event event x ≡ false) rows = find-none (by_event event) rows new in
    record {
      unique =
          AllPairs-append_one (λ r s. r.event_id ≢ s.event_id) rows (scored_row r now)
            (All-imp (λ x. by_event event x ≡ false) (λ x. x.event_id ≢ r.event_id) rows
              (λ x h e. absurd (clash x h (e ∙ own))) others)
            u;
      grown =
          Grows-append Progress Added rows rows (scored_row r now ∷ []) (Grown-refl rows) (tt, tt);
      pending =
          All-append (λ x. by_event event x ≡ true → is_completed x.processing_status ≡ false) rows
            (scored_row r now ∷ [])
            (All-imp (λ x. by_event event x ≡ false)
              (λ x. by_event event x ≡ true → is_completed x.processing_status ≡ false) rows
              (λ x h e. absurd (ground arith)) others)
            (λ _. refl, tt);
      held = Some-last _ rows (scored_row r now) (own, refl);
    }
  where
    clash : (x : Row) → by_event event x ≡ false → x.event_id ≡ event → ⊥
    clash x h e = let t = eq_str x.event_id event e in ground arith

from_score_event :
    (event : String) (chain : ℕ) (contract : String) (claim : ℕ) (s : FraudScore)
    → (from_score event chain contract claim s).event_id ≡ event
unfolding from_score
from_score_event event chain contract claim s = refl

pub Ready-IsReady :
    {C : Type 0} (v : Services C) (now : ℕ) (e : Message) (rows : List Row) (r : AssessmentRecord)
    (t : List Row)
    → UniqueEvents rows
    → Ready v now e rows r t
    → IsReady e.event_id r rows t
Ready-IsReady v now e rows _ _ u (Ready.stored x found open_) =
    stored-IsReady e.event_id rows x u found open_
Ready-IsReady v now e rows _ _ u (Ready.fresh claim score made new) =
    fresh-IsReady e.event_id rows
      (from_score e.event_id e.source.chain_id e.source.contract_address e.source.claim_id score)
      now
      (from_score_event e.event_id e.source.chain_id e.source.contract_address e.source.claim_id
        score)
      u new
