-- ===== src/Scoring/RoundTrip.antt =====
-- An event that is encoded and decoded again, and what is known of a decoded event.
use decentralized_claims_reg.Prelude.{
  ℕ, String, Bool, true, false, some, none, Option, ◌≡◌, refl, arith, ◌≤◌, leb, ◌==◌, inl, inr,
  Bool-cases, leb→le, subst,
}
use decentralized_claims_reg.Prelude.Text.{starts_with, str_eq, eq_str, eq_iff}
use decentralized_claims_reg.Postgres.{ok, err}
use decentralized_claims_reg.Index.Tables.{claim_index_event_id}
use decentralized_claims_reg.Listener.Events.{Message}
use decentralized_claims_reg.Scoring.Decode.{
  Codec, Fields, Json, text, number, negative, boolean, other, Decoded, DecodeError, ◌>>=◌, unless,
  schema_version, event_type, object, no_object, Document, from_document, IsValid, fields_of, field,
  required_text, required_int, from_fields, from_json_bytes, to_json_bytes,
}

module _ {B : Type 0} (codec : Codec B) where
  decode_fields :
      (m : Message)
      → IsValid codec m
      → codec.is_blank "ClaimSubmitted" ≡ false
      → from_fields codec (fields_of codec m) ≡ ok m
  unfolding from_fields field
  decode_fields m valid constant =
      let minimum : leb 1 m.source.chain_id ≡ true = ground (arith, valid.chain) in
      let zero_ : (n : ℕ) → leb 0 n ≡ true = λ n. ground arith in
      let identity =
        eq_str m.event_id
          (claim_index_event_id m.source.chain_id m.source.transaction_hash m.source.log_index)
          valid.identity in
      simp
        (
          valid.event_id, valid.contract_address, valid.claimant, valid.claim_hash,
          valid.data_pointer, valid.block_hash, valid.transaction_hash, constant, minimum, zero_,
          identity, valid.pointer,
        )
        refl

  -- For an event that passes the checks, where the constant of its type is not blank and `json.loads`
  -- reads the object that `json.dumps` wrote, decoding the encoded event gives the event.
  pub from_json_bytes-to_json_bytes :
      (m : Message)
      → IsValid codec m
      → codec.is_blank "ClaimSubmitted" ≡ false
      → codec.loads (codec.dumps (fields_of codec m)) ≡ some (object (fields_of codec m))
      → from_json_bytes codec (to_json_bytes codec m) ≡ ok m
  unfolding from_json_bytes to_json_bytes
  from_json_bytes-to_json_bytes m valid constant written =
      rw written (decode_fields m valid constant)

  -- A decoded event passed the checks.
  Checked : Decoded Message → Type 0
  Checked (ok m) = IsValid codec m
  Checked (err e) = Unit

  text_then :
      (name : String) (o : Option Json) (f : String → Decoded Message)
      → ((s : String) → codec.is_blank s ≡ false → Checked (f s))
      → Checked (required_text codec name o >>= f)
  unfolding Checked
  text_then name (some (text s)) f h = elim (Bool-cases (codec.is_blank s)) [
    | inl blank ↦ simp blank tt
    | inr full ↦ simp full (h s full)
  ]
  text_then name (some (number n)) f h = tt
  text_then name (some (negative n)) f h = tt
  text_then name (some (boolean n)) f h = tt
  text_then name (some other) f h = tt
  text_then name none f h = tt

  integer_then :
      (name : String) (minimum : ℕ) (o : Option Json) (f : ℕ → Decoded Message)
      → ((n : ℕ) → minimum ≤ n → Checked (f n))
      → Checked (required_int codec name minimum o >>= f)
  unfolding Checked
  integer_then name minimum (some (number n)) f h = elim (Bool-cases (leb minimum n)) [
    | inl enough ↦ simp enough (h n (leb→le minimum n enough))
    | inr low ↦ simp low tt
  ]
  integer_then name minimum (some (text s)) f h = tt
  integer_then name minimum (some (negative n)) f h = tt
  integer_then name minimum (some (boolean n)) f h = tt
  integer_then name minimum (some other) f h = tt
  integer_then name minimum none f h = tt

  unless_then :
      (b : Bool) (e : DecodeError) (f : Unit {0} → Decoded Message)
      → (b ≡ true → Checked (f tt))
      → Checked (unless codec b e >>= f)
  unfolding Checked
  unless_then true e f h = h refl
  unless_then false e f h = tt

  from_fields-Checked : (raw : Fields) → Checked (from_fields codec raw)
  unfolding from_fields Checked
  from_fields-Checked raw =
      integer_then "schema_version" 1 (field "schema_version" raw) _ λ version _.
        text_then "event_type" (field "event_type" raw) _ λ type _.
          text_then "event_id" (field "event_id" raw) _ λ event full_event.
            integer_then "chain_id" 1 (field "chain_id" raw) _ λ chain known.
              text_then "contract_address" (field "contract_address" raw) _
                λ contract full_contract.
                  integer_then "claim_id" 0 (field "claim_id" raw) _ λ claim _.
                    text_then "claimant" (field "claimant" raw) _ λ claimant full_claimant.
                      text_then "claim_hash" (field "claim_hash" raw) _ λ hash full_hash.
                        text_then "data_pointer" (field "data_pointer" raw) _
                          λ pointer full_pointer.
                            integer_then "block_number" 0 (field "block_number" raw) _ λ block _.
                              text_then "block_hash" (field "block_hash" raw) _
                                λ block_hash full_block.
                                  text_then "transaction_hash" (field "transaction_hash" raw) _
                                    λ transaction full_transaction.
                                      integer_then "log_index" 0 (field "log_index" raw) _
                                        λ index _.
                                          integer_then "event_timestamp" 0
                                            (field "event_timestamp" raw) _
                                            λ timestamp _.
                                              unless_then (version == schema_version) _ _ λ _.
                                                unless_then (str_eq type event_type) _ _ λ _.
                                                  unless_then
                                                    (str_eq event (
                                                      claim_index_event_id chain transaction index))
                                                    _ _
                                                    λ same.
                                                      unless_then (starts_with "ipfs://" pointer) _
                                                        _
                                                        λ starts. record {
                                                          event_id = full_event;
                                                          contract_address = full_contract;
                                                          claimant = full_claimant;
                                                          claim_hash = full_hash;
                                                          data_pointer = full_pointer;
                                                          block_hash = full_block;
                                                          transaction_hash = full_transaction;
                                                          chain = known;
                                                          identity =
                                                            (eq_iff event (
                                                            claim_index_event_id chain transaction
                                                            index)).0
                                                            same;
                                                          pointer = starts;
                                                        }

  document-Checked : (o : Option Document) → Checked (from_document codec o)
  unfolding Checked
  document-Checked none = tt
  document-Checked (some no_object) = tt
  document-Checked (some (object raw)) = from_fields-Checked raw

  -- An event that decodes has no blank text, a chain id of at least 1, the identifier of its own log
  -- and an IPFS pointer, whatever the bytes are.
  pub from_json_bytes-IsValid :
      (value : B) (m : Message) → from_json_bytes codec value ≡ ok m → IsValid codec m
  unfolding from_json_bytes Checked
  from_json_bytes-IsValid value m e = subst Checked e (document-Checked (codec.loads value))
