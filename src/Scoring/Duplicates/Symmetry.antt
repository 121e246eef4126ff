-- ===== src/Scoring/Duplicates/Symmetry.antt =====
-- What a claim's duplicate check lists.
use decentralized_claims_reg.Prelude.{
  ℕ, String, true, some, List, ◌≡◌, ◌≢◌, refl, sym, ap, ◌∙◌, inl, inr, arith, Option-cases, subst,
}
use decentralized_claims_reg.Prelude.Lists.{find, Some, Some-imp, find-Some}
use decentralized_claims_reg.Prelude.Text.{lower, str_ne, eq_str}
use decentralized_claims_reg.Postgres.{ok}
use decentralized_claims_reg.Listener.Events.{Message}
use decentralized_claims_reg.Scoring.Duplicates.{
  Claim, Fingerprint, DuplicateCheck, Detector, event_taken, put, same_incident, match_of, search,
  record_and_find_duplicates, get_duplicate_check_for_claim, fingerprint_of, check,
}
use decentralized_claims_reg.Scoring.Duplicates.Rows.{
  Holds, own, find-put, find-put_other, search-Some,
}

-- What `record_and_find_duplicates` returns and leaves, where it returns.
record Recorded (q : Fingerprint) (rows : List Fingerprint) (c : DuplicateCheck)
    (after : List Fingerprint) : Type 0 where
  pub stored : after ≡ put q rows
  pub insurer : c.insurer_id ≡ q.insurer_id
  pub version : c.fingerprint_version ≡ q.fingerprint_version
  pub listed :
      c.matches
      ≡ search q.chain_id
          (lower q.contract_address)
          q.fingerprint_version
          q.incident_fingerprint
          q.claim_id
          q.insurer_id
          after

recorded :
    (q : Fingerprint) (rows after : List Fingerprint) (c : DuplicateCheck)
    → record_and_find_duplicates q rows ≡ (ok c, after)
    → Recorded q rows c after
unfolding record_and_find_duplicates
recorded q rows after c h = elim (Option-cases (find (event_taken q) rows)) [
  | inl e ↦ record {
    stored = ground arith;
    insurer = ground arith;
    version = ground arith;
    listed = ground arith;
  }
  | inr (other, e) ↦ absurd (ground arith)
]

module _ (q : Fingerprint) (rows : List Fingerprint) (c : DuplicateCheck)
    (after : List Fingerprint) where
  -- Where a fingerprint is recorded, the check that is returned is what reading it again gives.
  pub record_and_find_duplicates-read :
      record_and_find_duplicates q rows ≡ (ok c, after)
      → get_duplicate_check_for_claim q.chain_id q.contract_address q.claim_id after
        ≡ (ok (some c), after)
  unfolding get_duplicate_check_for_claim
  record_and_find_duplicates-read h =
      let k : Recorded q rows c after = recorded q rows after c h in
      let (r, found, holds) = find-put q rows in
      let here : find (own q) after ≡ some r = ap (find (own q)) k.stored ∙ found in
      rw here (
        rw (holds.chain, holds.contract, holds.insurer, holds.version, holds.incident)
          (ground (arith, k.insurer, k.version, k.listed)))

selected :
    (chain claim : ℕ) (contract version fingerprint insurer : String) (r : Fingerprint)
    → r.chain_id ≡ chain
    → r.contract_address ≡ contract
    → r.fingerprint_version ≡ version
    → r.incident_fingerprint ≡ fingerprint
    → r.claim_id ≢ claim
    → r.insurer_id ≢ insurer
    → same_incident chain contract version fingerprint claim insurer r ≡ true
unfolding same_incident
selected chain claim contract version fingerprint insurer r a b c d e f = ground (
  arith,
  eq_str r.contract_address contract b,
  eq_str r.fingerprint_version version c,
  eq_str r.incident_fingerprint fingerprint d,
  str_ne r.insurer_id insurer f,
)

-- The check lists a claim of the insurer.
abbrev pub Lists : DuplicateCheck → ℕ → String → Type 0
Lists c claim insurer = Some (λ m. (m.claim_id ≡ claim) × (m.insurer_id ≡ insurer)) c.matches

-- Two claims of one incident, of one deployment but for letter case, by different insurers.
pub record Twins (q q' : Fingerprint) : Type 0 where
  pub chain : q.chain_id ≡ q'.chain_id
  pub contract : lower q.contract_address ≡ lower q'.contract_address
  pub version : q.fingerprint_version ≡ q'.fingerprint_version
  pub incident : q.incident_fingerprint ≡ q'.incident_fingerprint
  pub claims : q.claim_id ≢ q'.claim_id
  pub insurers : q.insurer_id ≢ q'.insurer_id

Twins-sym : (q q' : Fingerprint) → Twins q q' → Twins q' q
Twins-sym q q' t = record {
  chain = sym t.chain;
  contract = sym t.contract;
  version = sym t.version;
  incident = sym t.incident;
  claims = λ e. t.claims (sym e);
  insurers = λ e. t.insurers (sym e);
}

-- The row under the claim's key is what was recorded.
abbrev Stored : Fingerprint → List Fingerprint → Type 0
Stored q rows = (r : Fingerprint) × (find (own q) rows ≡ some r) × Holds q r

abbrev Read : Fingerprint → List Fingerprint → DuplicateCheck → Type 0
Read q rows k =
    get_duplicate_check_for_claim q.chain_id q.contract_address q.claim_id rows
    ≡ (ok (some k), rows)

-- Of two stored twins, reading one lists the other.
Read-twin :
    (q q' : Fingerprint) (rows : List Fingerprint)
    → Stored q rows
    → Stored q' rows
    → Twins q q'
    → (k : DuplicateCheck) × Read q' rows k × Lists k q.claim_id q.insurer_id
unfolding get_duplicate_check_for_claim
Read-twin q q' rows (r, found, hold) (r', found', hold') t =
    let selects : same_incident r'.chain_id r'.contract_address r'.fingerprint_version
          r'.incident_fingerprint q'.claim_id r'.insurer_id r
        ≡ true =
      selected r'.chain_id q'.claim_id r'.contract_address r'.fingerprint_version
        r'.incident_fingerprint r'.insurer_id r (hold.chain ∙ t.chain ∙ sym hold'.chain)
        (hold.contract ∙ t.contract ∙ sym hold'.contract)
        (hold.version ∙ t.version ∙ sym hold'.version)
        (hold.incident ∙ t.incident ∙ sym hold'.incident) (λ e. t.claims (sym hold.claim ∙ e))
        (λ e. t.insurers (sym hold.insurer ∙ e ∙ hold'.insurer)) in
    let listed =
      search-Some r'.chain_id r'.contract_address r'.fingerprint_version r'.incident_fingerprint
        q'.claim_id r'.insurer_id rows r selects
        (find-Some (λ x. x ≡ r) (own q) rows r found refl) in
    rw found' (
      _,
      refl,
      Some-imp (λ m. m ≡ match_of r)
          (λ m. (m.claim_id ≡ q.claim_id) × (m.insurer_id ≡ q.insurer_id)) _
          (λ m k. rw k (hold.claim, hold.insurer)) listed,
    )

-- The fingerprint's row once it is recorded, and after other claims are.
recorded-Stored :
    (q : Fingerprint) (rows after : List Fingerprint) (c : DuplicateCheck)
    → record_and_find_duplicates q rows ≡ (ok c, after)
    → Stored q after
recorded-Stored q rows after c h = rw (recorded q rows after c h).stored (find-put q rows)

kept-Stored :
    (p q : Fingerprint) (rows after : List Fingerprint) (c : DuplicateCheck)
    → p.claim_id ≢ q.claim_id
    → record_and_find_duplicates q rows ≡ (ok c, after)
    → Stored p rows
    → Stored p after
kept-Stored p q rows after c d h (r, found, hold) =
    rw (recorded q rows after c h).stored
      (r, find-put_other q p rows (λ e. d (sym e)) ∙ found, hold)

Read-same :
    (q : Fingerprint) (rows : List Fingerprint) (k c : DuplicateCheck)
    → Read q rows k
    → Read q rows c
    → k ≡ c
Read-same q rows k c e e' = grind arith

-- Where two claims of one incident by two insurers are checked one after the other, the later
-- check lists the earlier claim, and the earlier claim's check, read again, lists the later one.
pub check-Twins :
    (v : Detector) (e e' : Message) (a b : Claim) (rows between after : List Fingerprint)
    (c d : DuplicateCheck)
    → Twins (fingerprint_of v e a) (fingerprint_of v e' b)
    → check v e a rows ≡ (ok c, between)
    → check v e' b between ≡ (ok d, after)
    → Lists d e.source.claim_id a.insurer_id
      × (k : DuplicateCheck) × (get_duplicate_check_for_claim e.source.chain_id
            e.source.contract_address e.source.claim_id after
          ≡ (ok (some k), after))
      × Lists k e'.source.claim_id b.insurer_id
unfolding check fingerprint_of
check-Twins v e e' a b rows between after c d t h h' =
    let q : Fingerprint = fingerprint_of v e a in
    let q' : Fingerprint = fingerprint_of v e' b in
    let first : Stored q after =
      kept-Stored q q' between after d t.claims h' (recorded-Stored q rows between c h) in
    let second : Stored q' after = recorded-Stored q' between after d h' in
    let (k, read, listed) = Read-twin q q' after first second t in
    let (k', read', listed') = Read-twin q' q after second first (Twins-sym q q' t) in
    (
      subst (λ x. Lists x e.source.claim_id a.insurer_id)
          (Read-same q' after k d read (record_and_find_duplicates-read q' between d after h'))
          listed,
      k',
      read',
      listed',
    )
