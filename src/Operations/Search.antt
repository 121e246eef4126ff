-- ===== src/Operations/Search.antt =====
-- `IndexerOperationsService.search_events`, whose cursor is a text that the browser gives back.
use decentralized_claims_reg.Prelude.{
  ℕ, String, Bool, false, Option, none, some, List, [], ◌∷◌, ◌==◌, not, ◌-◌, ◌%◌, if◌then◌else◌,
}
use decentralized_claims_reg.Prelude.Text.{str_eq, append, decimal, text_length, repeated}
use decentralized_claims_reg.Postgres.{Result, ok, err}
use decentralized_claims_reg.Index.Tables.{EventRow, Index}
use decentralized_claims_reg.Index.Search.{
  Position, Query, EventPage, event_name, in_order, search_events,
}
use decentralized_claims_reg.Scoring.Decode.{Json, text, number, boolean}

-- What the code takes of base64 and JSON; `none` stands for their exceptions, or for no list.
pub record Tools : Type 0 where
  pub urlsafe_b64encode : String → String
  pub without_padding : String → String
  pub b64decode : String → Option String
  pub dumps : List Json → String
  pub loads : String → Option (List Json)

pub record Deployment : Type 0 where
  pub chain_id : ℕ
  pub address : String

-- The arguments of `search_events`.
pub record Filters : Type 0 where
  pub claim_id : Option ℕ
  pub transaction_hash : Option String
  pub event_type : Option String
  pub status : Option String
  pub from_block : Option ℕ
  pub to_block : Option ℕ
  pub cursor : Option String
  pub limit : ℕ

pub record EventResponse : Type 0 where
  pub event_id : String
  pub claim_id : ℕ
  pub event_type : String
  pub block_number : ℕ
  pub transaction_hash : String
  pub log_index : ℕ
  pub event_timestamp : ℕ
  pub status : String
  pub fraud_score : ℕ
  pub indexed_at : ℕ

pub record PageResponse : Type 0 where
  pub items : List EventResponse
  pub page_size : ℕ
  pub next_cursor : Option String

pub data QueryError : Type 0 where
  reversed_blocks unsupported_status invalid_cursor : QueryError
  refused : String → QueryError

-- `STATUS_NAMES[n]`, or `Unknown(n)`
abbrev status_name : ℕ → String
status_name n =
    if n == 0
    then "Submitted"
    else if n == 1
    then "UnderReview"
    else if n == 2
    then "Approved"
    else if n == 3
    then "Rejected"
    else if n == 4
    then "Flagged"
    else append "Unknown(" (append (decimal n) ")")

-- `STATUS_VALUES`
abbrev status_value : String → Option ℕ
status_value s =
    if str_eq s "Submitted"
    then some 0
    else if str_eq s "UnderReview"
    then some 1
    else if str_eq s "Approved"
    then some 2
    else if str_eq s "Rejected"
    then some 3
    else if str_eq s "Flagged"
    then some 4
    else none

abbrev pub event_response : EventRow → EventResponse
event_response e = record {
  event_id = e.event_id;
  claim_id = e.claim_id;
  event_type = event_name e.event_type;
  block_number = e.block_number;
  transaction_hash = e.transaction_hash;
  log_index = e.log_index;
  event_timestamp = e.event_timestamp;
  status = status_name e.status;
  fraud_score = e.fraud_score;
  indexed_at = e.indexed_at;
}

unfoldable pub event_responses : List EventRow → List EventResponse
event_responses [] = []
event_responses (e ∷ events) = event_response e ∷ event_responses events

-- `events[-1]`
unfoldable pub last_event : List EventRow → Option EventRow
last_event [] = none
last_event (e ∷ []) = some e
last_event (e ∷ f ∷ events) = last_event (f ∷ events)

abbrev is_version : Json → Bool
is_version (number n) = n == 1
is_version (boolean b) = b
is_version _ = false

abbrev positioned : Json → Json → Json → Option Position
positioned (number block) (number index) (text i) =
    if str_eq i ""
    then none
    else some (record { block_number = block; log_index = index; event_id = i })
positioned _ _ _ = none

-- the checks of a decoded list
abbrev position_of : List Json → Option Position
position_of (version ∷ block ∷ index ∷ i ∷ []) =
    if is_version version then positioned block index i else none
position_of _ = none

abbrev then_position : Option (List Json) → Option Position
then_position none = none
then_position (some values) = position_of values

abbrev pub cursor_fields : EventRow → List Json
cursor_fields e = number 1 ∷ number e.block_number ∷ number e.log_index ∷ text e.event_id ∷ []

abbrev pub query : Deployment → Filters → Option ℕ → Option Position → Query
query d f status before = record {
  chain_id = d.chain_id;
  contract_address = d.address;
  claim_id = f.claim_id;
  transaction_hash = f.transaction_hash;
  event_type = f.event_type;
  status = status;
  from_block = f.from_block;
  to_block = f.to_block;
  before = before;
  limit = f.limit;
}

abbrev pub statuses : Option String → Result QueryError (Option ℕ)
statuses none = ok none
statuses (some name) = elim (status_value name) [
  | none ↦ err unsupported_status
  | some n ↦ ok (some n)
]

module _ (tools : Tools) where
  -- `_encode_event_cursor`
  unfoldable pub encode_event_cursor : EventRow → String
  encode_event_cursor e =
      tools.without_padding (tools.urlsafe_b64encode (tools.dumps (cursor_fields e)))

  abbrev pub loaded : Option String → Option (List Json)
  loaded none = none
  loaded (some payload) = tools.loads payload

  abbrev pub valid : Option Position → Result QueryError (Option Position)
  valid none = err invalid_cursor
  valid (some p) = ok (some p)

  -- `_decode_event_cursor`
  unfoldable pub decode_event_cursor : Option String → Result QueryError (Option Position)
  decode_event_cursor none = ok none
  decode_event_cursor (some cursor) = valid (
      then_position (
        loaded (tools.b64decode (append cursor (repeated ((4 - text_length cursor % 4) % 4) "=")))))

  abbrev pub cursor_after : EventPage → Option EventRow → Option String
  cursor_after page none = none
  cursor_after page (some e) = if page.has_more then some (encode_event_cursor e) else none

  unfoldable pub page_response : ℕ → EventPage → PageResponse
  unfolding event_responses last_event encode_event_cursor
  page_response limit page = record {
    items = event_responses page.events;
    page_size = limit;
    next_cursor = cursor_after page (last_event page.events);
  }

  module _ (text_lt : String → String → Bool) (d : Deployment) (f : Filters) (s : Index) where
    abbrev paged : Result String EventPage → Result QueryError PageResponse
    paged (err m) = err (refused m)
    paged (ok page) = ok (page_response f.limit page)

    abbrev from_cursor :
        Option ℕ → Result QueryError (Option Position) → Result QueryError PageResponse
    from_cursor status (err e) = err e
    from_cursor status (ok before) = paged (search_events text_lt (query d f status before) s)

    abbrev pub from_status : Result QueryError (Option ℕ) → Result QueryError PageResponse
    from_status (err e) = err e
    from_status (ok status) = from_cursor status (decode_event_cursor f.cursor)

    -- `IndexerOperationsService.search_events`
    unfoldable pub search : Result QueryError PageResponse
    unfolding page_response decode_event_cursor
    search =
        if not (in_order text_lt f.from_block f.to_block)
        then err reversed_blocks
        else from_status (statuses f.status)
