-- ===== src/Scoring/Settled.antt =====
-- What is known of the messages before the committed offset.
use decentralized_claims_reg.Prelude.{
  String, Option, none, some, List, [], ◌∷◌, ◌++◌, ◌≡◌, refl, sym, ap, ◌∙◌, ◌⊎◌, inl, inr, arith,
  Bool-cases,
}
use decentralized_claims_reg.Prelude.Lists.{
  get_elem?, take, take_next, All, All-imp, All-append, Some, Some-left, Some-last, append-nil,
  append_assoc,
}
use decentralized_claims_reg.Postgres.{Result, ok, err}
use decentralized_claims_reg.Listener.Events.{Message}
use decentralized_claims_reg.Scoring.World.{Failure, permanent, retryable, World, DeadLetter}
use decentralized_claims_reg.Scoring.Handle.{handle}
use decentralized_claims_reg.Scoring.Ends.{handle_ends}
use decentralized_claims_reg.Scoring.Progress.{Grown, Grown-refl, Grown-trans, UniqueEvents}
use decentralized_claims_reg.Scoring.Advance.{Advances, handle-Advances, Done, Done-Grown, Backed}
use decentralized_claims_reg.Scoring.Decode.{Codec, from_json_bytes, Decoded}
use decentralized_claims_reg.Scoring.Consumer.{
  Attempt, Consumer, Poll, timed_out, broker_error, next_message, dead_letter, record_rejection,
  quarantined, handle_or_quarantine, committed, handle_decoded, received, process_next, consume,
}

module _ {C : Type 0} where
  -- The event is assessed, or its rejection is on file.
  abbrev pub Settled : Message → World C → Type 0
  Settled m w = Done m.event_id w.assessments ⊎ Some (λ d. d.event_id ≡ m.event_id) w.dead_letters

  -- What lasts from `w` to `w'`.
  pub record Onward (w w' : World C) : Type 0 where
    pub unique : UniqueEvents w'.assessments
    pub grown : Grown w.assessments w'.assessments
    pub more : List DeadLetter
    pub letters : w'.dead_letters ≡ w.dead_letters ++ more
    pub backed : Backed w.assessments w.writes → Backed w'.assessments w'.writes

  Onward-same :
      (w w' : World C)
      → w'.assessments ≡ w.assessments
      → w'.dead_letters ≡ w.dead_letters
      → w'.writes ≡ w.writes
      → UniqueEvents w.assessments
      → Onward w w'
  Onward-same w w' a d c u = record {
    unique = rw a u;
    grown = rw a (Grown-refl w.assessments);
    more = [];
    letters = d ∙ sym (append-nil w.dead_letters);
    backed = rw (a, c) (λ h. h);
  }

  Onward-trans : (w x y : World C) → Onward w x → Onward x y → Onward w y
  Onward-trans w x y h k = record {
    unique = k.unique;
    grown = Grown-trans w.assessments x.assessments y.assessments h.grown k.grown;
    more = h.more ++ k.more;
    letters =
        k.letters ∙ ap (λ d. d ++ k.more) h.letters ∙ append_assoc w.dead_letters h.more k.more;
    backed = λ b. k.backed (h.backed b);
  }

  Settled-Onward : (m : Message) (w w' : World C) → Onward w w' → Settled m w → Settled m w'
  Settled-Onward m w w' h (inl done) =
      inl (Done-Grown m.event_id w.assessments w'.assessments h.grown done)
  Settled-Onward m w w' h (inr filed) =
      inr (rw h.letters (Some-left (λ d. d.event_id ≡ m.event_id) w.dead_letters h.more filed))

  -- How the handling of the event may end.
  HandledEnds : Message → World C → Result Failure (Unit {0}) × World C → Type 0
  HandledEnds e w out = Onward w out.1 × (out.0 ≡ ok tt → Settled e out.1)

  module _ (a : Attempt C) (e : Message) (w : World C) where
    advanced :
        (out : Result Failure (Unit {0}) × World C) → Advances e.event_id w out → Onward w out.1
    advanced out h = record {
      unique = h.unique;
      grown = h.grown;
      more = [];
      letters = h.letters ∙ sym (append-nil w.dead_letters);
      backed = h.backed;
    }

    rejection_ends :
        (code reason : String) (u : World C)
        → Onward w u
        → HandledEnds e w (record_rejection a e code reason u)
    unfolding record_rejection HandledEnds
    rejection_ends code reason u h = elim (Bool-cases a.file_written) [
      | inr lost ↦ simp lost (h, λ k. absurd (ground arith))
      | inl filed ↦ simp filed (
        record {
          unique = h.unique;
          grown = h.grown;
          more = h.more ++ dead_letter a.now e code reason ∷ [];
          letters =
              ap (λ d. d ++ dead_letter a.now e code reason ∷ []) h.letters
              ∙ append_assoc w.dead_letters h.more (dead_letter a.now e code reason ∷ []);
          backed = h.backed;
        },
        λ _. inr (
            Some-last (λ d. d.event_id ≡ e.event_id) u.dead_letters
              (dead_letter a.now e code reason) refl),
      )
    ]

    quarantined_ends :
        (out : Result Failure (Unit {0}) × World C)
        → Advances e.event_id w out
        → HandledEnds e w (quarantined a e out)
    unfolding HandledEnds
    quarantined_ends (ok tt, u) h = (advanced (ok tt, u) h, λ _. inl (h.done refl))
    quarantined_ends (err (permanent code reason), u) h =
        rejection_ends code reason u (advanced (err (permanent code reason), u) h)
    quarantined_ends (err (retryable m), u) h =
        (advanced (err (retryable m), u) h, λ k. absurd (ground arith))

    handle_or_quarantine_ends :
        UniqueEvents w.assessments → HandledEnds e w (handle_or_quarantine a e w)
    unfolding handle_or_quarantine
    handle_or_quarantine_ends u = quarantined_ends (handle a.services a.now e w) (
        handle-Advances a.services a.now e w (handle a.services a.now e w) u
          (handle_ends a.services a.now e w))

  -- What others do to the chain leaves the rest alone.
  after_move :
      (c : C) (w : World C) (out : Result Failure (Unit {0}) × World C) (e : Message)
      → HandledEnds e (record w { chain = c }) out
      → HandledEnds e w out
  unfolding HandledEnds
  after_move c w out e (o, settled) = (
    record {
      unique = o.unique;
      grown = o.grown;
      more = o.more;
      letters = o.letters;
      backed = o.backed;
    },
    settled,
  )

module _ {C B : Type 0} (codec : Codec B) (partition : List B) where
  -- The message decodes to an event that is assessed, or whose rejection is on file.
  abbrev pub Handled : World C → B → Type 0
  Handled w value = (m : Message) × (from_json_bytes codec value ≡ ok m) × Settled m w

  pub record IsSound (s : Consumer C) : Type 0 where
    pub unique : UniqueEvents s.world.assessments
    pub backed : Backed s.world.assessments s.world.writes
    pub handled : All (Handled s.world) (take s.offset partition)

  Handled-Onward :
      (w w' : World C) (values : List B)
      → Onward w w'
      → All (Handled w) values
      → All (Handled w') values
  Handled-Onward w w' values h =
      All-imp (Handled w) (Handled w') values
        (λ value (m, e, settled). (m, e, Settled-Onward m w w' h settled))

  moved-IsSound :
      (s : Consumer C) (w : World C)
      → IsSound s
      → Onward s.world w
      → IsSound (record { world = w; offset = s.offset })
  moved-IsSound s w h o = record {
    unique = o.unique;
    backed = o.backed h.backed;
    handled = Handled-Onward s.world w (take s.offset partition) o h.handled;
  }

  StepEnds : Consumer C → Consumer C → Type 0
  StepEnds s t = IsSound t × Grown s.world.assessments t.world.assessments

  module _ (a : Attempt C) (s : Consumer C) (h : IsSound s) where
    committed_ends :
        (value : B) (e : Message) (out : Result Failure (Unit {0}) × World C)
        → get_elem? partition s.offset ≡ some value
        → from_json_bytes codec value ≡ ok e
        → HandledEnds e s.world out
        → StepEnds s (committed a s out).1
    unfolding HandledEnds StepEnds
    committed_ends value e (err x, w) here_ decoded (o, settled) = (moved-IsSound s w h o, o.grown)
    committed_ends value e (ok tt, w) here_ decoded (o, settled) =
        elim (Bool-cases a.offset_committed) [
          | inr lost ↦ simp lost (moved-IsSound s w h o, o.grown)
          | inl done ↦ simp done (
            record {
              unique = o.unique;
              backed = o.backed h.backed;
              handled = rw (take_next s.offset partition value here_) (
                  All-append (Handled w) (take s.offset partition) (value ∷ [])
                    (Handled-Onward s.world w (take s.offset partition) o h.handled)
                    ((e, decoded, settled refl), tt));
            },
            o.grown,
          )
        ]

    decoded_ends :
        (value : B) (out : Decoded Message)
        → get_elem? partition s.offset ≡ some value
        → from_json_bytes codec value ≡ out
        → StepEnds s (handle_decoded codec a out s).1
    unfolding StepEnds
    decoded_ends value (err x) here_ decoded = (h, Grown-refl s.world.assessments)
    decoded_ends value (ok e) here_ decoded =
        committed_ends value e
          (handle_or_quarantine a e (record s.world { chain = a.moves s.world.chain })) here_
          decoded
          (after_move (a.moves s.world.chain) s.world
            (handle_or_quarantine a e (record s.world { chain = a.moves s.world.chain })) e
            (handle_or_quarantine_ends a e (record s.world { chain = a.moves s.world.chain })
              h.unique))

    received_ends :
        (o : Option B) → get_elem? partition s.offset ≡ o → StepEnds s (received codec a o s).1
    unfolding StepEnds
    received_ends none here_ = (h, Grown-refl s.world.assessments)
    received_ends (some value) here_ = decoded_ends value (from_json_bytes codec value) here_ refl

    process_next_ends : (p : Poll) → StepEnds s (process_next codec a partition p s).1
    unfolding process_next StepEnds
    process_next_ends timed_out = (h, Grown-refl s.world.assessments)
    process_next_ends broker_error = (h, Grown-refl s.world.assessments)
    process_next_ends next_message = received_ends (get_elem? partition s.offset) refl

  -- From a worker whose committed messages are handled, whatever the chain, IPFS, the model, the file and the
  -- broker do, over restarts: every message before the committed offset decodes to an event that is
  -- completed or stands in the dead-letter file, every call of the chain carries the decision of the row of its event,
  -- and event identifiers stay unique.
  pub consume-IsSound :
      (attempts : List (Attempt C × Poll)) (s : Consumer C)
      → IsSound s
      → IsSound (consume codec partition attempts s)
  unfolding consume StepEnds
  consume-IsSound [] s h = h
  consume-IsSound ((a, p) ∷ rest) s h =
      consume-IsSound rest (process_next codec a partition p s).1 (process_next_ends a s h p).0

  -- From such a worker, over any deliveries, no assessment is lost, each keeps its event, its claim and its
  -- decision, and one that is completed does not change at all.
  pub consume-Grown :
      (attempts : List (Attempt C × Poll)) (s : Consumer C)
      → IsSound s
      → Grown s.world.assessments (consume codec partition attempts s).world.assessments
  unfolding consume StepEnds
  consume-Grown [] s h = Grown-refl s.world.assessments
  consume-Grown ((a, p) ∷ rest) s h =
      let (sound, grown) = process_next_ends a s h p in
      Grown-trans s.world.assessments (process_next codec a partition p s).1.world.assessments
        (consume codec partition rest (process_next codec a partition p s).1).world.assessments
        grown (consume-Grown rest (process_next codec a partition p s).1 sound)
