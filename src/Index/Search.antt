-- ===== src/Index/Search.antt =====
-- claim_index_repository.py: `search_events`, whose cursor is the position of the last event read.
-- A row stands for the record that `_event_from_row` makes of it.
use decentralized_claims_reg.Prelude.{
  ℕ, String, Bool, true, Option, none, some, List, [], ◌∷◌, ◌==◌, ltb, leb, ◌&&◌, ◌||◌, not, ◌+◌,
  if◌then◌else◌,
}
use decentralized_claims_reg.Prelude.Lists.{keep, take, length}
use decentralized_claims_reg.Prelude.Text.{str_eq, lower}
use decentralized_claims_reg.Postgres.{Result, ok, err}
use decentralized_claims_reg.Index.Tables.{
  EventType, claim_submitted, claim_assessed, EventRow, Index,
}

-- `(block_number, log_index, event_id)`
pub record Position : Type 0 where
  pub block_number : ℕ
  pub log_index : ℕ
  pub event_id : String

-- The arguments of `search_events`; a number that is not negative needs no check.
pub record Query : Type 0 where
  pub chain_id : ℕ
  pub contract_address : String
  pub claim_id : Option ℕ
  pub transaction_hash : Option String
  pub event_type : Option String
  pub status : Option ℕ
  pub from_block : Option ℕ
  pub to_block : Option ℕ
  pub before : Option Position
  pub limit : ℕ

pub record EventPage : Type 0 where
  pub events : List EventRow
  pub has_more : Bool

abbrev pub event_name : EventType → String
event_name claim_submitted = "ClaimSubmitted"
event_name claim_assessed = "ClaimAssessed"

-- A clause that stands in the statement only where its argument is given.
abbrev pub given {ℓ} : {A : Type ℓ} → Option A → (A → Bool) → Bool
given none p = true
given (some a) p = p a

abbrev pub position : EventRow → Position
position r = record {
  block_number = r.block_number;
  log_index = r.log_index;
  event_id = r.event_id;
}

abbrev pub page_of : ℕ → List EventRow → EventPage
page_of limit events = record { events = take limit events; has_more = ltb limit (length events) }

-- The events are compared as PostgreSQL compares their columns; the order of texts is that of the
-- database's collation.
module _ (text_lt : String → String → Bool) where
  -- `(a, b, c) < (d, e, f)` between rows of columns
  unfoldable pub position_lt : Position → Position → Bool
  position_lt p q =
      ltb p.block_number q.block_number
      || (p.block_number == q.block_number
          && (ltb p.log_index q.log_index
              || (p.log_index == q.log_index && text_lt p.event_id q.event_id)))

  -- the clauses but the cursor's
  unfoldable pub selects : Query → EventRow → Bool
  selects q r =
      r.chain_id == q.chain_id
      && str_eq r.contract_address (lower q.contract_address)
      && given q.claim_id (λ i. r.claim_id == i)
      && given q.transaction_hash (λ t. str_eq r.transaction_hash (lower t))
      && given q.event_type (λ t. str_eq (event_name r.event_type) t)
      && given q.status (λ s. r.status == s)
      && given q.from_block (λ b. leb b r.block_number)
      && given q.to_block (λ b. leb r.block_number b)

  abbrev pub older : Option Position → EventRow → Bool
  older before r = given before (λ p. position_lt (position r) p)

  -- `ORDER BY block_number DESC, log_index DESC, event_id DESC`
  unfoldable pub place : EventRow → List EventRow → List EventRow
  place r [] = r ∷ []
  place r (s ∷ rest) =
      let further = place r rest in
      if position_lt (position s) (position r) then r ∷ s ∷ rest else s ∷ further

  unfoldable pub newest_first : List EventRow → List EventRow
  unfolding place
  newest_first [] = []
  newest_first (r ∷ rest) = place r (newest_first rest)

  -- The statement without its limit.
  unfoldable pub listing : Query → Option Position → List EventRow → List EventRow
  unfolding newest_first
  listing q before rows = newest_first (keep (λ r. selects q r && older before r) rows)

  abbrev pub is_known : String → Bool
  is_known t = str_eq t "ClaimSubmitted" || str_eq t "ClaimAssessed"

  abbrev pub in_order : Option ℕ → Option ℕ → Bool
  in_order (some a) (some b) = leb a b
  in_order _ _ = true

  -- One row more than the limit is read.
  unfoldable pub search_events : Query → Index → Result String EventPage
  unfolding listing
  search_events q s =
      if not (given q.event_type is_known)
      then err "event_type is not supported"
      else if not (given q.status (λ n. ltb n 5))
      then err "status must be between 0 and 4"
      else if not (in_order q.from_block q.to_block)
      then err "from_block cannot be greater than to_block"
      else if not (leb 1 q.limit && leb q.limit 50)
      then err "limit must be between 1 and 50"
      else if not (given q.before (λ p. not (str_eq p.event_id "")))
      then err "event cursor position is invalid"
      else ok (page_of q.limit (take (q.limit + 1) (listing q q.before s.events)))
