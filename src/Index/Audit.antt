-- ===== src/Index/Audit.antt =====
-- The audit trail `claim_index_events`: what the listener's writes make of it.
use decentralized_claims_reg.Prelude.{
  ℕ, List, [], ◌∷◌, ◌++◌, ◌≡◌, ◌≢◌, refl, sym, ap, ◌∙◌, ◌⊎◌, inl, inr, arith, Bool-cases,
  Option-cases,
}
use decentralized_claims_reg.Prelude.Lists.{
  find, update, All, AllPairs, AllPairs-append_one, append-nil, append_assoc,
}
use decentralized_claims_reg.Prelude.Text.{str_eq, eq_str}
use decentralized_claims_reg.Index.Tables.{EventRow, Index, Log, claim_submitted, claim_assessed}
use decentralized_claims_reg.Index.Write.{
  event_of, insert_event, index_claim_submitted, index_claim_assessed, not_after, is_claim, assess,
  check_claim, after_update,
}
use decentralized_claims_reg.Index.Order.{Write, submits, assesses, write, write_all}

abbrev pub UniqueEvents : List EventRow → Type 0
UniqueEvents = AllPairs λ r s. r.event_id ≢ s.event_id

-- The trail `after` is `events` with further ones behind it.
pub record IsExtended (events after : List EventRow) : Type 0 where
  pub more : List EventRow
  pub extends : after ≡ events ++ more
  pub unique : UniqueEvents after

same-IsExtended :
    (events after : List EventRow) → UniqueEvents events → after ≡ events → IsExtended events after
same-IsExtended events after u e = record {
  more = [];
  extends = e ∙ sym (append-nil events);
  unique = rw e u;
}

-- An event is dropped where its identifier is there, and goes to the end where it is not.
Inserted : EventRow → List EventRow → Type 0
Inserted e events =
    (insert_event e events ≡ events)
    ⊎ (All (λ r. r.event_id ≢ e.event_id) events × (insert_event e events ≡ events ++ e ∷ []))

insert_cases : (e : EventRow) (events : List EventRow) → Inserted e events
unfolding Inserted insert_event
insert_cases e [] = inr (tt, refl)
insert_cases e (r ∷ rest) = elim (Bool-cases (str_eq r.event_id e.event_id)) [
  | inl same ↦ rw same (inl refl)
  | inr other ↦ rw other (elim (insert_cases e rest) [
    | inl kept ↦ inl (ap (◌∷◌ r) kept)
    | inr (apart, added) ↦ inr (
      (λ p. absurd (ground (arith, other, eq_str r.event_id e.event_id p)), apart),
      ap (◌∷◌ r) added,
    )
  ])
]

insert-IsExtended :
    (e : EventRow) (events : List EventRow)
    → UniqueEvents events
    → IsExtended events (insert_event e events)
unfolding Inserted
insert-IsExtended e events u = elim (insert_cases e events) [
  | inl kept ↦ same-IsExtended events (insert_event e events) u kept
  | inr (apart, added) ↦ record {
    more = e ∷ [];
    extends = added;
    unique = rw added (AllPairs-append_one (λ r s. r.event_id ≢ s.event_id) events e apart u);
  }
]

assessed_events :
    (s : Index) (l : Log) (status score now : ℕ)
    → ((index_claim_assessed l status score now s).1.events
        ≡ insert_event (event_of l claim_assessed status score now) s.events)
      ⊎ ((index_claim_assessed l status score now s).1.events ≡ s.events)
unfolding index_claim_assessed after_update check_claim
assessed_events s l status score now = elim (Option-cases (find (not_after l) s.claims)) [
  | inr (r, hit) ↦ simp hit (inl refl)
  | inl missed ↦
      elim (Option-cases
        (find (is_claim l) (update (not_after l) (assess l status score now) s.claims))) [
          | inr (r, old) ↦ simp (missed, old) (inl refl)
          | inl absent ↦ simp (missed, absent) (inr refl)
        ]
]

write-IsExtended :
    (s : Index) (w : ℕ × Write) → UniqueEvents s.events → IsExtended s.events (write s w).events
unfolding write index_claim_submitted
write-IsExtended s (now, submits l claimant hash pointer) u =
    insert-IsExtended (event_of l claim_submitted 0 0 now) s.events u
write-IsExtended s (now, assesses l status score) u = elim (assessed_events s l status score now) [
  | inl added ↦ rw added (insert-IsExtended (event_of l claim_assessed status score now) s.events u)
  | inr kept ↦ rw kept (same-IsExtended s.events s.events u refl)
]

-- From a trail with unique event identifiers, whatever logs are written, again or out of order, and
-- whether a write returns or raises, the trail is only added to, each event stays as it is, and
-- identifiers stay unique.
pub write_all-IsExtended :
    (s : Index) (ws : List (ℕ × Write))
    → UniqueEvents s.events
    → IsExtended s.events (write_all s ws).events
unfolding write_all
write_all-IsExtended s [] u = same-IsExtended s.events s.events u refl
write_all-IsExtended s (w ∷ ws) u =
    let first : IsExtended s.events (write s w).events = write-IsExtended s w u in
    let rest : IsExtended (write s w).events (write_all (write s w) ws).events =
      write_all-IsExtended (write s w) ws first.unique in
    record {
      more = first.more ++ rest.more;
      extends =
          rest.extends
          ∙ ap (λ x. x ++ rest.more) first.extends
          ∙ append_assoc s.events first.more rest.more;
      unique = rest.unique;
    }
