-- ===== src/Scoring/Once.antt =====
-- How often the worker assesses one claim on the chain.
use decentralized_claims_reg.Prelude.{
  ℕ, true, false, Option, none, some, List, [], ◌∷◌, ◌++◌, ◌≡◌, ◌≢◌, subst, arith, inl, inr,
  Bool-cases,
}
use decentralized_claims_reg.Prelude.Lists.{
  get_elem?, All, All-imp, All-append, AllPairs, AllPairs-append_one,
}
use decentralized_claims_reg.Postgres.{Result, ok, err}
use decentralized_claims_reg.Listener.Events.{Message}
use decentralized_claims_reg.Scoring.Assessments.{AssessmentRecord}
use decentralized_claims_reg.Scoring.World.{
  Failure, permanent, retryable, World, Write, ChainClaim, ChainAssessment,
}
use decentralized_claims_reg.Scoring.Handle.{handle, call}
use decentralized_claims_reg.Scoring.Ends
use decentralized_claims_reg.Scoring.Ends.{WriteEnds, HandleEnds, handle_ends}
use decentralized_claims_reg.Scoring.Decode.{Codec, Decoded, from_json_bytes}
use decentralized_claims_reg.Scoring.Consumer.{
  Attempt, Consumer, Poll, timed_out, broker_error, next_message, record_rejection, quarantined,
  handle_or_quarantine, committed, handle_decoded, received, process_next, consume,
}

-- What a contract promises of a claim that is assessed (`Assessed c i`): it does not read as
-- Submitted, a write that returns assesses its claim, and neither writes nor what others do undo it.
pub record IsLawful {C : Type 0} (Assessed : C → ℕ → Type 0) (a : Attempt C) : Type 0 where
  pub reads :
      (c : C) (i : ℕ) (x : ChainClaim)
      → Assessed c i
      → a.services.registry.get_claim c i ≡ ok x
      → x.status ≢ 0
  pub assesses :
      (c : C) (i s f : ℕ) (x : ChainAssessment) (k : C)
      → a.services.registry.assess_claim c i s f ≡ (ok x, k)
      → Assessed k i
  pub keeps :
      (c : C) (i s f j : ℕ) → Assessed c j → Assessed (a.services.registry.assess_claim c i s f).1 j
  pub moves_on : (c : C) (j : ℕ) → Assessed c j → Assessed (a.moves c) j

-- After a call that returned, no further call is made for the claim.
abbrev pub NoRepeat : Write → Write → Type 0
NoRepeat x y = x.returned ≡ true → x.claim_id ≢ y.claim_id

module _ {C : Type 0} (Assessed : C → ℕ → Type 0) where
  abbrev Stands : C → Write → Type 0
  Stands c x = x.returned ≡ true → Assessed c x.claim_id

  -- The calls so far do not repeat, and the chain holds those that returned.
  pub record IsOnce (c : C) (ws : List Write) : Type 0 where
    pub apart : AllPairs NoRepeat ws
    pub standing : All (Stands c) ws

  module _ (a : Attempt C) (law : IsLawful Assessed a) where
    -- A further call for a claim that read as Submitted.
    called-IsOnce :
        (c k : C) (x : Write) (ws : List Write) (claim : ChainClaim)
        → a.services.registry.get_claim c x.claim_id ≡ ok claim
        → claim.status ≡ 0
        → ((j : ℕ) → Assessed c j → Assessed k j)
        → Stands k x
        → IsOnce c ws
        → IsOnce k (ws ++ x ∷ [])
    called-IsOnce c k x ws claim read submitted keep new h = record {
      apart =
          AllPairs-append_one NoRepeat ws x
            (All-imp (Stands c) (λ y. NoRepeat y x) ws
              (λ y stands back same.
                law.reads c x.claim_id claim (subst (Assessed c) same (stands back)) read submitted)
              h.standing)
            h.apart;
      standing =
          All-append (Stands k) ws (x ∷ [])
            (All-imp (Stands c) (Stands k) ws (λ y stands back. keep y.claim_id (stands back))
              h.standing)
            (new, tt);
    }

    abbrev Once : World C → Type 0
    Once w = IsOnce w.chain w.writes

    write-Once :
        (now : ℕ) (e : Message) (u : World C) (r : AssessmentRecord)
        (out : Result Failure (Unit {0}) × World C)
        → WriteEnds a.services now e u r out
        → Once u
        → Once out.1
    write-Once now e u r _ (Ends.unread m x) h = h
    write-Once now e u r _ (Ends.assessed c y k read submitted done) h =
        called-IsOnce u.chain k (call a.services e r true) u.writes c read submitted
          (λ j on.
            subst (λ out. Assessed out.1 j) done (law.keeps u.chain e.source.claim_id _ _ j on))
          (λ _. law.assesses u.chain e.source.claim_id _ _ y k done) h
    write-Once now e u r _ (Ends.unassessed c m k read submitted failed) h =
        called-IsOnce u.chain k (call a.services e r false) u.writes c read submitted
          (λ j on.
            subst (λ out. Assessed out.1 j) failed (law.keeps u.chain e.source.claim_id _ _ j on))
          (λ back. absurd (ground arith)) h
    write-Once now e u r _ (Ends.matched c read x y) h = h
    write-Once now e u r _ (Ends.conflicting c read x y) h = h

    handle-Once :
        (now : ℕ) (e : Message) (w : World C) (out : Result Failure (Unit {0}) × World C)
        → HandleEnds a.services now e w out
        → Once w
        → Once out.1
    handle-Once now e w _ (Ends.already x found done) h = h
    handle-Once now e w _ (Ends.stopped x f s) h = h
    handle-Once now e w _ (Ends.written f s r t out ready ends) h =
        write-Once now e (record w { assessments = t; fingerprints = f; snapshots = s }) r out ends
          h

    quarantine-Once :
        (e : Message) (out : Result Failure (Unit {0}) × World C)
        → Once out.1
        → Once (quarantined a e out).1
    unfolding record_rejection
    quarantine-Once e (ok x, w) h = h
    quarantine-Once e (err (permanent code reason), w) h = elim (Bool-cases a.file_written) [
      | inl filed ↦ simp filed h
      | inr lost ↦ simp lost h
    ]
    quarantine-Once e (err (retryable m), w) h = h

    commit-Once :
        (s : Consumer C) (out : Result Failure (Unit {0}) × World C)
        → Once out.1
        → Once (committed a s out).1.world
    commit-Once s (err x, w) h = h
    commit-Once s (ok x, w) h = elim (Bool-cases a.offset_committed) [
      | inl done ↦ simp done h
      | inr lost ↦ simp lost h
    ]

    module _ {B : Type 0} (codec : Codec B) (s : Consumer C) (h : Once s.world) where
      decoded-Once : (m : Decoded Message) → Once (handle_decoded codec a m s).1.world
      unfolding handle_or_quarantine
      decoded-Once (err x) = h
      decoded-Once (ok e) =
          let w : World C = record s.world { chain = a.moves s.world.chain } in
          let moved : Once w = record {
            apart = h.apart;
            standing =
                All-imp (Stands s.world.chain) (Stands w.chain) s.world.writes
                  (λ x stands back. law.moves_on s.world.chain x.claim_id (stands back)) h.standing;
          } in
          commit-Once s (handle_or_quarantine a e w) (
            quarantine-Once e (handle a.services a.now e w) (
              handle-Once a.now e w (handle a.services a.now e w) (handle_ends a.services a.now e w)
                moved))

      received-Once : (o : Option B) → Once (received codec a o s).1.world
      received-Once none = h
      received-Once (some value) = decoded-Once (from_json_bytes codec value)

      process_next-Once :
          (partition : List B) (p : Poll) → Once (process_next codec a partition p s).1.world
      unfolding process_next
      process_next-Once partition timed_out = h
      process_next-Once partition broker_error = h
      process_next-Once partition next_message = received-Once (get_elem? partition s.offset)

  -- Where the chain keeps to the contract's promises at every delivery, the worker makes no further
  -- call for a claim once a call for it has returned, over redeliveries and restarts.
  pub consume-IsOnce :
      {B : Type 0} (codec : Codec B) (partition : List B) (attempts : List (Attempt C × Poll))
      (s : Consumer C)
      → All (λ (a, p). IsLawful Assessed a) attempts
      → IsOnce s.world.chain s.world.writes
      → let w = (consume codec partition attempts s).world in IsOnce w.chain w.writes
  unfolding consume
  consume-IsOnce codec partition [] s laws h = h
  consume-IsOnce codec partition ((a, p) ∷ rest) s laws h =
      consume-IsOnce codec partition rest (process_next codec a partition p s).1 laws.1
        (process_next-Once a laws.0 codec s h partition p)
