-- ===== src/Scoring/Features/History.antt =====
-- Snapshots are kept, and their counts number the claims of an insurer.
use decentralized_claims_reg.Prelude.{
  String, none, some, List, [], ◌∷◌, ◌++◌, ◌≡◌, refl, sym, ap, ◌∙◌, subst, inl, inr, arith,
  Bool-cases, Option-cases, ltb, ◌⊎◌,
}
use decentralized_claims_reg.Prelude.Lists.{
  append-nil, append_assoc, find, keep, length, find-append, find-append_found,
}
use decentralized_claims_reg.Prelude.Text.{str_eq, eq_str, lower, lower-lower}
use decentralized_claims_reg.Postgres.{Result, ok, err}
use decentralized_claims_reg.Listener.Events.{Message}
use decentralized_claims_reg.Scoring.Duplicates.{Claim, DuplicateCheck}
use decentralized_claims_reg.Scoring.Features.{
  ClaimFeatureInput, ClaimFeatureSnapshot, Features, Error, by_event, same_insurer, snapshot,
  record_feature_snapshot, feature_input, process_features, of_claim, storage_unavailable,
  insurer_mismatch, timestamp_out_of_range, incident_after_event, not_a_ratio,
}

abbrev Rows : Type 0
Rows = List ClaimFeatureSnapshot

-- How the processing of `event` on `rows` ends: the event's snapshot was there and is returned; or
-- a new one is computed from the rows and added; or it raises. Nothing else changes.
pub data Ends (v : Features) (event : String) (rows : Rows)
    : Result Error ClaimFeatureSnapshot × Rows → Type 0 where
  recalled :
      (r : ClaimFeatureSnapshot)
      → find (by_event event) rows ≡ some r
      → Ends v event rows (ok r, rows)
  added :
      (i : ClaimFeatureInput)
      → i.event_id ≡ event
      → find (by_event event) rows ≡ none
      → Ends v event rows (ok (snapshot v i rows), rows ++ snapshot v i rows ∷ [])
  raised : (e : Error) → Ends v event rows (err e, rows)

record_ends :
    (v : Features) (i : ClaimFeatureInput) (rows : Rows)
    → Ends v i.event_id rows (record_feature_snapshot v i rows)
unfolding record_feature_snapshot
record_ends v i rows = elim (Option-cases (find (by_event i.event_id) rows)) [
  | inl new ↦ elim (Option-cases (find (of_claim i) rows)) [
    | inl free ↦ simp (new, free) (added i refl new)
    | inr (other, taken) ↦ simp (new, taken) (raised storage_unavailable)
  ]
  | inr (r, old) ↦ simp (old) (recalled r old)
]

pub process_features_ends :
    (v : Features) (e : Message) (c : Claim) (d : DuplicateCheck) (rows : Rows)
    → Ends v e.event_id rows (process_features v e c d rows)
unfolding process_features feature_input
process_features_ends v e c d rows = elim (Bool-cases (str_eq d.insurer_id c.insurer_id)) [
  | inr other ↦ simp (other) (raised insurer_mismatch)
  | inl same ↦ elim (Option-cases (v.day_of e.source.event_timestamp)) [
    | inl far ↦ simp (same, far) (raised timestamp_out_of_range)
    | inr (day, dated) ↦ elim (Bool-cases (ltb day c.incident_date)) [
      | inl early ↦ simp (same, dated, early) (raised incident_after_event)
      | inr late ↦ elim (Option-cases (v.divide c.claim_amount_usd c.policy_premium_usd)) [
        | inl zero_ ↦ simp (same, dated, late, zero_) (raised not_a_ratio)
        | inr (ratio, divided) ↦
            simp (same, dated, late, divided) (record_ends v (feature_input v e c d day ratio) rows)
      ]
    ]
  ]
]

found_new :
    (v : Features) (i : ClaimFeatureInput) (event : String) (rows : Rows)
    → i.event_id ≡ event
    → find (by_event event) (snapshot v i rows ∷ []) ≡ some (snapshot v i rows)
unfolding find snapshot
found_new v i event rows same = rw (eq_str i.event_id event same) refl

module _ (v : Features) (event : String) (rows : Rows) (r : ClaimFeatureSnapshot) where
  -- A snapshot that was returned stands in the table under its event.
  returned_found :
      (out : Result Error ClaimFeatureSnapshot × Rows) (after : Rows)
      → Ends v event rows out
      → out ≡ (ok r, after)
      → find (by_event event) after ≡ some r
  returned_found _ after (recalled old found) e = ground arith
  returned_found _ after (added i same new) e =
      let own : snapshot v i rows ≡ r = ground arith in
      let grown : rows ++ snapshot v i rows ∷ [] ≡ after = ground arith in
      ap (find (by_event event)) (sym grown)
      ∙ find-append (by_event event) rows (snapshot v i rows ∷ []) new
      ∙ found_new v i event rows same
      ∙ ap some own
  returned_found _ after (raised x) e = absurd (ground arith)

  -- What stands under the event is returned, unless something raises.
  found_returned :
      (out : Result Error ClaimFeatureSnapshot × Rows)
      → Ends v event rows out
      → find (by_event event) rows ≡ some r
      → ((x : Error) × (out ≡ (err x, rows))) ⊎ (out ≡ (ok r, rows))
  found_returned _ (recalled old found) e = inr (ground arith)
  found_returned _ (added i same new) e = absurd (ground arith)
  found_returned _ (raised x) e = inl (x, refl)

-- Once the processing of an event returned a snapshot, then whatever was added to the table since
-- and whatever claim and matches it is processed with, the same event either raises or returns
-- that snapshot, and the table stays as it is.
pub process_features-replay :
    (v w : Features) (e : Message) (c c' : Claim) (d d' : DuplicateCheck) (rows after more : Rows)
    (r : ClaimFeatureSnapshot)
    → process_features v e c d rows ≡ (ok r, after)
    → ((x : Error) × (process_features w e c' d' (after ++ more) ≡ (err x, after ++ more)))
      ⊎ (process_features w e c' d' (after ++ more) ≡ (ok r, after ++ more))
process_features-replay v w e c c' d d' rows after more r h =
    found_returned w e.event_id (after ++ more) r (process_features w e c' d' (after ++ more))
      (process_features_ends w e c' d' (after ++ more))
      (find-append_found (by_event e.event_id) after more r (
        returned_found v e.event_id rows r (process_features v e c d rows) after
          (process_features_ends v e c d rows) h))

-- Each row counts the insurer's rows before it.
unfoldable pub Numbered : Rows → Rows → Type 0
Numbered seen [] = Unit
Numbered seen (r ∷ rest) =
    (r.prior_insurer_claim_count ≡ length (keep (same_insurer r.input) seen))
    × Numbered (seen ++ r ∷ []) rest

Numbered-append :
    (seen rows : Rows) (r : ClaimFeatureSnapshot)
    → r.prior_insurer_claim_count ≡ length (keep (same_insurer r.input) (seen ++ rows))
    → Numbered seen rows
    → Numbered seen (rows ++ r ∷ [])
unfolding Numbered
Numbered-append seen [] r e h = (
  subst (λ x. r.prior_insurer_claim_count ≡ length (keep (same_insurer r.input) x))
      (append-nil seen) e,
  tt,
)
Numbered-append seen (x ∷ rows) r e h = (
  h.0,
  Numbered-append (seen ++ x ∷ []) rows r
      (subst (λ y. r.prior_insurer_claim_count ≡ length (keep (same_insurer r.input) y))
        (sym (append_assoc seen (x ∷ []) rows)) e)
      h.1,
)

-- The stored contract is folded, which a second folding leaves alone.
folded_insurer :
    (i : ClaimFeatureInput) (r : ClaimFeatureSnapshot)
    → same_insurer (record i { contract_address = lower i.contract_address }) r ≡ same_insurer i r
unfolding same_insurer
folded_insurer i r = rw (lower-lower i.contract_address) refl

snapshot_count :
    (v : Features) (i : ClaimFeatureInput) (rows : Rows)
    → let r = snapshot v i rows in
      r.prior_insurer_claim_count ≡ length (keep (same_insurer r.input) rows)
unfolding snapshot
snapshot_count v i rows =
    let folded : same_insurer (record i { contract_address = lower i.contract_address })
        ≡ same_insurer i =
      λ j r. folded_insurer i r j in
    ap (λ p. length (keep p rows)) (sym folded)

ends-Numbered :
    (v : Features) (event : String) (rows : Rows) (out : Result Error ClaimFeatureSnapshot × Rows)
    → Ends v event rows out
    → Numbered [] rows
    → Numbered [] out.1
ends-Numbered v event rows _ (recalled r old) h = h
ends-Numbered v event rows _ (added i same new) h =
    Numbered-append [] rows (snapshot v i rows) (snapshot_count v i rows) h
ends-Numbered v event rows _ (raised x) h = h

-- The processing of one event after another, whether it returns or raises.
unfoldable pub process_all : Features → List (Message × Claim × DuplicateCheck) → Rows → Rows
process_all v [] rows = rows
process_all v ((e, c, d) ∷ rest) rows = process_all v rest (process_features v e c d rows).1

-- In a table that events of any insurers and contracts fill in any order, each snapshot's count of
-- earlier claims of the insurer is the number of that insurer's rows before it.
pub process_all-Numbered :
    (v : Features) (events : List (Message × Claim × DuplicateCheck)) (rows : Rows)
    → Numbered [] rows
    → Numbered [] (process_all v events rows)
unfolding process_all
process_all-Numbered v [] rows h = h
process_all-Numbered v ((e, c, d) ∷ rest) rows h =
    process_all-Numbered v rest (process_features v e c d rows).1 (
      ends-Numbered v e.event_id rows (process_features v e c d rows)
        (process_features_ends v e c d rows) h)
