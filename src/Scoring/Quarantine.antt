-- ===== src/Scoring/Quarantine.antt =====
-- Documents that can never be scored, and how the worker gets past them.
use decentralized_claims_reg.Prelude.{
  ℕ, String, Bool, true, false, Option, none, some, List, [], ◌∷◌, ◌++◌, ◌+◌, ◌≡◌, refl, ◌⊎◌, inl,
  inr, Bool-cases, Option-cases,
}
use decentralized_claims_reg.Prelude.Lists.{find, get_elem?}
use decentralized_claims_reg.Prelude.Text.{str_eq, lower, remove_prefix}
use decentralized_claims_reg.Postgres.{Result, ok, err}
use decentralized_claims_reg.Listener.Events.{Message}
use decentralized_claims_reg.Scoring.Assessments.{
  AssessmentRecord, Row, is_completed, by_event, get_by_event_id,
}
use decentralized_claims_reg.Scoring.Duplicates.{Claim}
use decentralized_claims_reg.Scoring.World.{
  Failure, permanent, Principal, insurer_of, authorized_claimant, verified, not_authorized,
  Services, World, DeadLetter,
}
use decentralized_claims_reg.Scoring.Handle.{
  verify_claim_payload, check_identity, read_claim, assess, handle,
}
use decentralized_claims_reg.Scoring.Decode.{Codec, from_json_bytes}
use decentralized_claims_reg.Scoring.Consumer.{
  Attempt, Consumer, next_message, dead_letter, record_rejection, handle_or_quarantine,
  process_next,
}

module _ {C : Type 0} (v : Services C) (e : Message) where
  -- Why the document `payload` of the event is turned away.
  pub data Rejected (payload : String) : Type 0 where
    bad_schema : v.validate_json payload ≡ none → Rejected payload
    refused :
        (c : Claim)
        → v.validate_json payload ≡ some c
        → v.verify_claim c ≡ not_authorized
        → Rejected payload
    other_insurer :
        (c : Claim) (p : Principal)
        → v.validate_json payload ≡ some c
        → v.verify_claim c ≡ verified p
        → str_eq (insurer_of p) c.insurer_id ≡ false
        → Rejected payload
    other_claimant :
        (c : Claim) (p : Principal)
        → v.validate_json payload ≡ some c
        → v.verify_claim c ≡ verified p
        → str_eq (insurer_of p) c.insurer_id ≡ true
        → str_eq (lower (authorized_claimant p)) (lower e.claimant) ≡ false
        → Rejected payload

  -- The event's document is the one of its claim, and it is turned away.
  pub record IsRejected : Type 0 where
    pub payload : String
    pub downloaded : v.download_pointer e.data_pointer ≡ ok payload
    pub same_hash :
        str_eq
          (lower (remove_prefix "0x" (v.keccak payload)))
          (lower (remove_prefix "0x" e.claim_hash))
        ≡ true
    pub reason : Rejected payload

  read_claim_rejected :
      (w : World C)
      → IsRejected
      → (code : String) × (reason : String) × (read_claim v e w ≡ (err (permanent code reason), w))
  unfolding read_claim verify_claim_payload check_identity
  read_claim_rejected w h = elim h.reason [
    | bad_schema bad ↦ simp (h.downloaded, h.same_hash, bad) (_, _, refl)
    | refused c valid differs ↦ simp (h.downloaded, h.same_hash, valid, differs) (_, _, refl)
    | other_insurer c p valid signed differs ↦
        simp (h.downloaded, h.same_hash, valid, signed, differs) (_, _, refl)
    | other_claimant c p valid signed same differs ↦
        simp (h.downloaded, h.same_hash, valid, signed, same, differs) (_, _, refl)
  ]

  Turned : World C → Result Failure (Unit {0}) × World C → Type 0
  Turned w out = (code : String) × (reason : String) × (out ≡ (err (permanent code reason), w))

  assess_rejected :
      (w : World C) (now : ℕ) (r : Option AssessmentRecord)
      → IsRejected
      → Turned w (assess v now e r w)
  unfolding assess Turned
  assess_rejected w now r h =
      let (code, reason, bad) = read_claim_rejected w h in simp bad (code, reason, refl)

  -- A completed event is left alone, any other one fails for good.
  pub handle_rejected :
      (w : World C) (now : ℕ)
      → IsRejected
      → ((x : Row) × (find (by_event e.event_id) w.assessments ≡ some x)
          × (is_completed x.processing_status ≡ true)
          × (handle v now e w ≡ (ok tt, w)))
        ⊎ ((code : String) × (reason : String) × (handle v now e w
              ≡ (err (permanent code reason), w)))
  unfolding handle get_by_event_id Turned
  handle_rejected w now h = elim (Option-cases (find (by_event e.event_id) w.assessments)) [
    | inl new ↦ simp new (inr (assess_rejected w now none h))
    | inr (x, found) ↦ elim (Bool-cases (is_completed x.processing_status)) [
      | inl done ↦ simp (found, done) (inl (x, refl, done, refl))
      | inr open_ ↦ simp (found, open_) (inr (assess_rejected w now (some x.assessment) h))
    ]
  ]

module _ {C B : Type 0} (codec : Codec B) (a : Attempt C) (partition : List B) where
  -- The consumer after an event that is passed over, and the lines of the file.
  abbrev pub passed : Consumer C → List DeadLetter → Consumer C
  passed s lines = record {
    world = record s.world { chain = a.moves s.world.chain; dead_letters = lines };
    offset = s.offset + 1;
  }

  -- The next event is passed over: completed before, or with one line in the file.
  pub data Passes (s : Consumer C) (e : Message) : Result Failure Bool × Consumer C → Type 0 where
    left_alone :
        (x : Row)
        → find (by_event e.event_id) s.world.assessments ≡ some x
        → is_completed x.processing_status ≡ true
        → Passes s e (ok true, passed s s.world.dead_letters)
    filed :
        (code reason : String)
        → Passes s e
            (ok true, passed s (s.world.dead_letters ++ dead_letter a.now e code reason ∷ []))

  -- Where the next event's document is the claim's and its schema, its authorization or an identity is
  -- wrong, and the file and the broker take what they are given, the delivery commits the event's
  -- offset; but for what others did to the chain it changes nothing else if the event was completed
  -- before, and otherwise only the file, which gains one line of the event.
  pub process_next-Passes :
      (s : Consumer C) (value : B) (e : Message)
      → get_elem? partition s.offset ≡ some value
      → from_json_bytes codec value ≡ ok e
      → IsRejected a.services e
      → a.file_written ≡ true
      → a.offset_committed ≡ true
      → Passes s e (process_next codec a partition next_message s)
  unfolding process_next handle_or_quarantine record_rejection
  process_next-Passes s value e next decoded h written committed =
      let w : World C = record s.world { chain = a.moves s.world.chain } in
      elim (handle_rejected a.services e w a.now h) [
        | inl (x, found, complete, done) ↦
            simp (next, decoded, done, committed) (left_alone x found complete)
        | inr (code, reason, bad) ↦
            simp (next, decoded, bad, written, committed) (filed code reason)
      ]
