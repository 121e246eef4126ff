-- ===== src/Index/Order.antt =====
-- The order of the projection: what the writes of the listener make of a claim's row.
use decentralized_claims_reg.Prelude.{
  ℕ, String, Bool, true, false, Option, none, some, List, [], ◌∷◌, ◌≡◌, refl, sym, ap, ap₂, ◌∙◌,
  ◌&&◌, ◌⊎◌, inl, inr, arith, Bool-cases,
}
use decentralized_claims_reg.Prelude.Lists.{
  find, update, patch, update-none, Grows, Grows-refl, Grows-update_all, Grows-trans,
}
use decentralized_claims_reg.Postgres.{finish}
use decentralized_claims_reg.Index.Tables.{ClaimRow, Index, Log, at_or_before}
use decentralized_claims_reg.Index.Write.{
  submitted_row, merge, is_claim, upsert_claim, index_claim_submitted, assess, not_after,
  check_claim, after_update, index_claim_assessed,
}

-- What the listener writes for one log.
pub data Write : Type 0 where
  submits : Log → String → String → String → Write
  assesses : Log → ℕ → ℕ → Write

unfoldable pub write : Index → ℕ × Write → Index
write s (now, submits l claimant hash pointer) =
    (index_claim_submitted l claimant hash pointer now s).1
write s (now, assesses l status score) = (index_claim_assessed l status score now s).1

unfoldable pub write_all : Index → List (ℕ × Write) → Index
write_all s [] = s
write_all s (w ∷ ws) = write_all (write s w) ws

-- A later version of a claim's row.
pub record Later (r r' : ClaimRow) : Type 0 where
  pub same_claim :
      (r'.chain_id ≡ r.chain_id)
      × (r'.contract_address ≡ r.contract_address)
      × (r'.claim_id ≡ r.claim_id)
  pub not_back :
      at_or_before r.state_block_number r.state_log_index r'.state_block_number r'.state_log_index
      ≡ true

at_or_before_refl : (a b : ℕ) → at_or_before a b a b ≡ true
unfolding at_or_before
at_or_before_refl a b = ground arith

at_or_before_trans :
    (a b c d e f : ℕ)
    → at_or_before a b c d ≡ true
    → at_or_before c d e f ≡ true
    → at_or_before a b e f ≡ true
unfolding at_or_before
at_or_before_trans a b c d e f h k = ground arith

Later-refl : (r : ClaimRow) → Later r r
Later-refl r = record {
  same_claim = (refl, refl, refl);
  not_back = at_or_before_refl r.state_block_number r.state_log_index;
}

Later-trans : (r s t : ClaimRow) → Later r s → Later s t → Later r t
Later-trans r s t h k = record {
  same_claim = ground (arith, h.same_claim, k.same_claim);
  not_back =
      at_or_before_trans r.state_block_number r.state_log_index s.state_block_number
        s.state_log_index t.state_block_number t.state_log_index h.not_back k.not_back;
}

merge-Later : (new old : ClaimRow) → Later old (merge new old)
unfolding merge at_or_before
merge-Later new old = record { same_claim = (refl, refl, refl); not_back = ground arith }

assess-Later :
    (l : Log) (status score now : ℕ) (r : ClaimRow)
    → Later r (patch (not_after l) (assess l status score now) r)
unfolding not_after assess
assess-Later l status score now r = elim (Bool-cases (not_after l r)) [
  | inl t ↦ rw t record { same_claim = (refl, refl, refl); not_back = ground arith }
  | inr t ↦ rw t (Later-refl r)
]

module _ (s t : Index) (same : t.claims ≡ s.claims) where
  checked_claims :
      (row : Option ClaimRow) → (finish (λ e. e) s (check_claim row t)).1.claims ≡ t.claims
  unfolding check_claim
  checked_claims (some r) = refl
  checked_claims none = sym same

after_update_claims :
    (l : Log) (s t : Index) (hit : Option ClaimRow)
    → (hit ≡ none → t.claims ≡ s.claims)
    → (finish (λ e. e) s (after_update l hit t)).1.claims ≡ t.claims
unfolding after_update
after_update_claims l s t (some r) h = refl
after_update_claims l s t none h = checked_claims s t (h refl) (find (is_claim l) t.claims)

-- Whether it returns or raises, the claims it leaves are those of its update.
assessed_claims :
    (s : Index) (l : Log) (status score now : ℕ)
    → (index_claim_assessed l status score now s).1.claims
      ≡ update (not_after l) (assess l status score now) s.claims
unfolding index_claim_assessed
assessed_claims s l status score now =
    after_update_claims l s _ (find (not_after l) s.claims)
      (update-none (not_after l) (assess l status score now) s.claims)

abbrev pub Any : ClaimRow → Type 0
Any r = Unit

upserts :
    (l : Log) (r : ClaimRow) (rows : List ClaimRow) → Grows Later Any rows (upsert_claim l r rows)
unfolding upsert_claim
upserts l r [] = (tt, tt)
upserts l r (x ∷ rest) = elim (Bool-cases (is_claim l x)) [
  | inl t ↦ rw t (merge-Later r x, Grows-refl Later Any rest Later-refl)
  | inr t ↦ rw t (Later-refl x, upserts l r rest)
]

step-Later : (s : Index) (w : ℕ × Write) → Grows Later Any s.claims (write s w).claims
unfolding write index_claim_submitted
step-Later s (now, submits l claimant hash pointer) =
    upserts l (submitted_row l claimant hash pointer now) s.claims
step-Later s (now, assesses l status score) = rw assessed_claims (
    Grows-update_all Later Any (not_after l) (assess l status score now) s.claims
      (assess-Later l status score now))

-- Whatever logs are written, again or out of order, no claim is lost, and the position of a
-- claim's state never goes back.
pub write_all-Later :
    (s : Index) (ws : List (ℕ × Write)) → Grows Later Any s.claims (write_all s ws).claims
unfolding write_all
write_all-Later s [] = Grows-refl Later Any s.claims Later-refl
write_all-Later s (w ∷ ws) =
    Grows-trans Later Any s.claims (write s w).claims (write_all (write s w) ws).claims Later-trans
      (λ y z n l. tt) (step-Later s w) (write_all-Later (write s w) ws)

-- Logs at one position are one log.
abbrev pub SamePosition : Log → Log → Type 0
SamePosition l m = (l.block_number ≡ m.block_number) × (l.log_index ≡ m.log_index)

not_after-assess :
    (l m : Log) (status score now : ℕ) (r : ClaimRow)
    → not_after m (assess l status score now r)
      ≡ (is_claim m r && at_or_before l.block_number l.log_index m.block_number m.log_index)
unfolding not_after is_claim assess
not_after-assess l m status score now r = refl

module _ (l m : Log) (a b c d now : ℕ) (r : ClaimRow) (apart : ¬ SamePosition l m) where
  one_first :
      not_after l r ≡ true
      → not_after m r ≡ true
      → (not_after m (assess l a b now r) ≡ true) × (not_after l (assess m c d now r) ≡ false)
        ⊎ (not_after m (assess l a b now r) ≡ false) × (not_after l (assess m c d now r) ≡ true)
  unfolding not_after assess is_claim at_or_before
  one_first h k = ground arith

  m_blocked :
      not_after l r ≡ true → not_after m r ≡ false → not_after m (assess l a b now r) ≡ false
  unfolding not_after assess is_claim at_or_before
  m_blocked h k = ground arith

assess_again :
    (l m : Log) (a b c d now : ℕ) (r : ClaimRow)
    → assess m c d now (assess l a b now r) ≡ assess m c d now r
unfolding assess
assess_again l m a b c d now r = refl

assess_comm_row :
    (l m : Log) (a b c d now : ℕ) (r : ClaimRow)
    → ¬ SamePosition l m
    → patch (not_after m) (assess m c d now) (patch (not_after l) (assess l a b now) r)
      ≡ patch (not_after l) (assess l a b now) (patch (not_after m) (assess m c d now) r)
assess_comm_row l m a b c d now r h = elim (Bool-cases (not_after l r)) [
  | inl t ↦ elim (Bool-cases (not_after m r)) [
    | inl u ↦ elim (one_first l m a b c d now r h t u) [
      | inl e ↦ rw (t, u, e.0, e.1) (assess_again l m a b c d now r)
      | inr e ↦ rw (t, u, e.0, e.1) (sym (assess_again m l c d a b now r))
    ]
    | inr u ↦ ground (arith, m_blocked l m a b c d now r h t u)
  ]
  | inr t ↦ elim (Bool-cases (not_after m r)) [
    | inl u ↦ ground (arith, m_blocked m l c d a b now r (λ e. h (sym e.0, sym e.1)) u t)
    | inr u ↦ ground arith
  ]
]

update_comm :
    {A : Type 0} (p q : A → Bool) (f g : A → A) (xs : List A)
    → ((x : A) → patch q g (patch p f x) ≡ patch p f (patch q g x))
    → update q g (update p f xs) ≡ update p f (update q g xs)
unfolding update
update_comm p q f g [] h = refl
update_comm p q f g (x ∷ xs) h = ap₂ ◌∷◌ (h x) (update_comm p q f g xs h)

-- Two assessments at different positions, indexed at one time, leave the same claims in either
-- order.
pub index_claim_assessed_comm :
    (s : Index) (l m : Log) (a b c d now : ℕ)
    → ¬ SamePosition l m
    → (index_claim_assessed m c d now (index_claim_assessed l a b now s).1).1.claims
      ≡ (index_claim_assessed l a b now (index_claim_assessed m c d now s).1).1.claims
index_claim_assessed_comm s l m a b c d now h =
    let first : Index = (index_claim_assessed l a b now s).1 in
    let second : Index = (index_claim_assessed m c d now s).1 in
    assessed_claims first m c d now
    ∙ ap (update (not_after m) (assess m c d now)) (assessed_claims s l a b now)
    ∙ update_comm (not_after l) (not_after m) (assess l a b now) (assess m c d now) s.claims
        (λ r. assess_comm_row l m a b c d now r h)
    ∙ sym (ap (update (not_after l) (assess l a b now)) (assessed_claims s m c d now))
    ∙ sym (assessed_claims second l a b now)
