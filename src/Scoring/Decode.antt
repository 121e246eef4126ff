-- ===== src/Scoring/Decode.antt =====
-- packages/integrations/kafka/events.py: the JSON form of a `ClaimSubmittedEvent`, and its checks.
use decentralized_claims_reg.Prelude.{
  ℕ, String, Bool, true, false, Option, none, some, List, [], ◌∷◌, ◌==◌, leb, ◌≤◌, ◌≡◌,
  if◌then◌else◌,
}
use decentralized_claims_reg.Prelude.Text.{str_eq, starts_with}
use decentralized_claims_reg.Postgres.{Result, ok, err}
use decentralized_claims_reg.Index.Tables.{claim_index_event_id}
use decentralized_claims_reg.Listener.Events.{Message}

-- A JSON value, as far as the checks tell values apart.
pub data Json : Type 0 where
  text : String → Json
  number negative : ℕ → Json
  boolean : Bool → Json
  other : Json

abbrev pub Fields : Type 0
Fields = List (String × Json)

pub data Document : Type 0 where
  object : Fields → Document
  no_object : Document

-- What the code takes of Python, over the bytes `B`: `json.loads`, which may raise, `json.dumps`
-- of an object, and whether `strip()` leaves nothing of a text.
pub record Codec (B : Type 0) : Type 0 where
  pub loads : B → Option Document
  pub dumps : Fields → B
  pub is_blank : String → Bool

pub data DecodeError : Type 0 where
  invalid_json no_json_object : DecodeError
  no_text no_integer : String → DecodeError
  unsupported_schema_version : ℕ → DecodeError
  unsupported_event_type : String → DecodeError
  wrong_event_id wrong_data_pointer : DecodeError

abbrev pub Decoded : Type 0 → Type 0
Decoded = Result DecodeError

infixl 5 ◌>>=◌ ◌>>◌
abbrev pub ◌>>=◌ : {A B : Type 0} → Decoded A → (A → Decoded B) → Decoded B
ok a >>= f = f a
err e >>= f = err e

abbrev pub ◌>>◌ : {A B : Type 0} → Decoded A → Decoded B → Decoded B
m >> k = m >>= λ _. k

-- `raw.get(name)`
unfoldable pub field : String → Fields → Option Json
field name [] = none
field name ((key, value) ∷ rest) =
    let further = field name rest in if str_eq key name then some value else further

abbrev pub schema_version : ℕ
schema_version = 1

abbrev pub event_type : String
event_type = "ClaimSubmitted"

module _ {B : Type 0} (codec : Codec B) where
  -- `_required_text`
  abbrev pub required_text : String → Option Json → Decoded String
  required_text name (some (text s)) = if codec.is_blank s then err (no_text name) else ok s
  required_text name _ = err (no_text name)

  -- `_required_int`
  abbrev pub required_int : String → ℕ → Option Json → Decoded ℕ
  required_int name minimum (some (number n)) =
      if leb minimum n then ok n else err (no_integer name)
  required_int name minimum _ = err (no_integer name)

  abbrev pub unless : Bool → DecodeError → Decoded (Unit {0})
  unless true e = ok tt
  unless false e = err e

  unfoldable pub from_fields : Fields → Decoded Message
  from_fields raw = do
    version ← required_int "schema_version" 1 (field "schema_version" raw)
    type ← required_text "event_type" (field "event_type" raw)
    event ← required_text "event_id" (field "event_id" raw)
    chain ← required_int "chain_id" 1 (field "chain_id" raw)
    contract ← required_text "contract_address" (field "contract_address" raw)
    claim ← required_int "claim_id" 0 (field "claim_id" raw)
    claimant ← required_text "claimant" (field "claimant" raw)
    claim_hash ← required_text "claim_hash" (field "claim_hash" raw)
    pointer ← required_text "data_pointer" (field "data_pointer" raw)
    block ← required_int "block_number" 0 (field "block_number" raw)
    block_hash ← required_text "block_hash" (field "block_hash" raw)
    transaction ← required_text "transaction_hash" (field "transaction_hash" raw)
    index ← required_int "log_index" 0 (field "log_index" raw)
    timestamp ← required_int "event_timestamp" 0 (field "event_timestamp" raw)
    unless (version == schema_version) (unsupported_schema_version version)
    unless (str_eq type event_type) (unsupported_event_type type)
    unless (str_eq event (claim_index_event_id chain transaction index)) wrong_event_id
    unless (starts_with "ipfs://" pointer) wrong_data_pointer
    ok (record {
      event_id = event;
      source = record {
        chain_id = chain;
        contract_address = contract;
        claim_id = claim;
        block_number = block;
        block_hash = block_hash;
        transaction_hash = transaction;
        log_index = index;
        event_timestamp = timestamp;
      };
      claimant = claimant;
      claim_hash = claim_hash;
      data_pointer = pointer;
    })

  abbrev pub from_document : Option Document → Decoded Message
  from_document none = err invalid_json
  from_document (some no_object) = err no_json_object
  from_document (some (object raw)) = from_fields raw

  unfoldable pub from_json_bytes : B → Decoded Message
  unfolding from_fields
  from_json_bytes value = from_document (codec.loads value)

  -- `to_json_bytes`: the fields in the order of their names, as `sort_keys` writes them.
  abbrev pub fields_of : Message → Fields
  fields_of m =
      ("block_hash", text m.source.block_hash)
      ∷ ("block_number", number m.source.block_number)
      ∷ ("chain_id", number m.source.chain_id)
      ∷ ("claim_hash", text m.claim_hash)
      ∷ ("claim_id", number m.source.claim_id)
      ∷ ("claimant", text m.claimant)
      ∷ ("contract_address", text m.source.contract_address)
      ∷ ("data_pointer", text m.data_pointer)
      ∷ ("event_id", text m.event_id)
      ∷ ("event_timestamp", number m.source.event_timestamp)
      ∷ ("event_type", text event_type)
      ∷ ("log_index", number m.source.log_index)
      ∷ ("schema_version", number schema_version)
      ∷ ("transaction_hash", text m.source.transaction_hash)
      ∷ []

  unfoldable pub to_json_bytes : Message → B
  to_json_bytes m = codec.dumps (fields_of m)

  -- What decoding asks of an event beside its two constants.
  pub record IsValid (m : Message) : Type 0 where
    pub event_id : codec.is_blank m.event_id ≡ false
    pub contract_address : codec.is_blank m.source.contract_address ≡ false
    pub claimant : codec.is_blank m.claimant ≡ false
    pub claim_hash : codec.is_blank m.claim_hash ≡ false
    pub data_pointer : codec.is_blank m.data_pointer ≡ false
    pub block_hash : codec.is_blank m.source.block_hash ≡ false
    pub transaction_hash : codec.is_blank m.source.transaction_hash ≡ false
    pub chain : 1 ≤ m.source.chain_id
    pub identity :
        m.event_id
        ≡ claim_index_event_id m.source.chain_id m.source.transaction_hash m.source.log_index
    pub pointer : starts_with "ipfs://" m.data_pointer ≡ true
