-- ===== src/Scoring/Advance.antt =====
-- What the handling of one event does to the assessments, the calls of the chain and the file.
use decentralized_claims_reg.Prelude.{
  ℕ, String, Bool, true, false, Option, List, [], ◌∷◌, ◌++◌, ◌≡◌, refl, sym, ap, ◌∙◌, subst, arith,
}
use decentralized_claims_reg.Prelude.Lists.{
  update, All, All-imp, All-append, Some, Some-update, find-Some, Grows-Some,
}
use decentralized_claims_reg.Prelude.Text.{eq_str}
use decentralized_claims_reg.Postgres.{Result, ok, err}
use decentralized_claims_reg.Listener.Events.{Message}
use decentralized_claims_reg.Scoring.Assessments.{
  AssessmentRecord, Row, is_completed, by_event, complete, fail,
}
use decentralized_claims_reg.Scoring.World.{Services, World, Write, Failure, desired_status}
use decentralized_claims_reg.Scoring.Handle.{call}
use decentralized_claims_reg.Scoring.Ends
use decentralized_claims_reg.Scoring.Ends.{Ready, WriteEnds, HandleEnds}
use decentralized_claims_reg.Scoring.Progress.{
  Progress, Added, Grown, Grown-refl, Grown-trans, UniqueEvents, UniqueEvents-update, update-Grown,
  complete-Progress, fail-Progress, IsReady, Ready-IsReady, found_event,
}

-- The row of the event is completed.
abbrev pub Done : String → List Row → Type 0
Done event = Some λ r. (r.event_id ≡ event) × (is_completed r.processing_status ≡ true)

-- The call carries the decision that a row of its event has.
abbrev pub Backs : Write → Row → Type 0
Backs x r =
    (r.event_id ≡ x.event_id)
    × (desired_status r.decision.status ≡ x.status)
    × (r.decision.fraud_score ≡ x.fraud_score)

abbrev pub Backed : List Row → List Write → Type 0
Backed rows = All λ x. Some (Backs x) rows

Backs-Progress : (x : Write) (r r' : Row) → Progress r r' → Backs x r → Backs x r'
Backs-Progress x r r' p b = (
  p.same_event ∙ b.0,
  ap (λ d. desired_status d.status) p.same_decision ∙ b.1,
  ap (λ d. d.fraud_score) p.same_decision ∙ b.2,
)

pub Backed-Grown :
    (rows ts : List Row) (ws : List Write) → Grown rows ts → Backed rows ws → Backed ts ws
Backed-Grown rows ts ws g =
    All-imp (λ x. Some (Backs x) rows) (λ x. Some (Backs x) ts) ws
      (λ x. Grows-Some Progress Added (Backs x) (Backs x) rows ts (Backs-Progress x) g)

pub Done-Grown :
    (event : String) (rows ts : List Row) → Grown rows ts → Done event rows → Done event ts
Done-Grown event rows ts g =
    Grows-Some Progress Added
      (λ r. (r.event_id ≡ event) × (is_completed r.processing_status ≡ true))
      (λ r. (r.event_id ≡ event) × (is_completed r.processing_status ≡ true)) rows ts
      (λ r r' p h. (
        p.same_event ∙ h.0,
        subst (λ x. is_completed x.processing_status ≡ true) (sym (p.kept h.1)) h.1,
      ))
      g

module _ (event : String) (rows t : List Row) (r : AssessmentRecord)
    (ready : IsReady event r rows t) (f : Row → Row)
    (same : (x : Row) → (f x).event_id ≡ x.event_id)
    (keeps : (x : Row) → is_completed x.processing_status ≡ false → Progress x (f x)) where
  finished-Grown : Grown rows (update (by_event event) f t)
  finished-Grown =
      Grown-trans rows t (update (by_event event) f t) ready.grown
        (update-Grown event f keeps t ready.pending)

  finished_unique : UniqueEvents (update (by_event event) f t)
  finished_unique = UniqueEvents-update event f t same ready.unique

  -- A call made with the decision is backed by its row.
  finished-Backed :
      (ws : List Write) (x : Write)
      → x.event_id ≡ event
      → x.status ≡ desired_status r.status
      → x.fraud_score ≡ r.fraud_score
      → Backed rows ws
      → Backed (update (by_event event) f t) (ws ++ x ∷ [])
  finished-Backed ws x a b c h =
      All-append (λ x. Some (Backs x) (update (by_event event) f t)) ws (x ∷ [])
        (Backed-Grown rows _ ws finished-Grown h)
        (
          Grows-Some Progress Added (λ y. (y.event_id ≡ event) × (y.decision ≡ r.decision))
              (Backs x) t _
              (λ y y' p k. Backs-Progress x y y' p (
                k.0 ∙ sym a,
                ap (λ d. desired_status d.status) k.1 ∙ sym b,
                ap (λ d. d.fraud_score) k.1 ∙ sym c,
              ))
              (update-Grown event f keeps t ready.pending) ready.held,
          tt,
        )

completed-Done :
    (event : String) (rows t : List Row) (r : AssessmentRecord) (hash : Option String)
    (block : Option ℕ) (now : ℕ)
    → IsReady event r rows t
    → Done event (update (by_event event) (complete hash block now) t)
unfolding complete
completed-Done event rows t r hash block now ready =
    Some-update (λ y. (y.event_id ≡ event) × (y.decision ≡ r.decision))
      (λ y. (y.event_id ≡ event) × (is_completed y.processing_status ≡ true)) (by_event event)
      (complete hash block now) t (λ y k. rw (eq_str y.event_id event k.0) (k.0, refl)) ready.held

complete_event :
    (hash : Option String) (block : Option ℕ) (now : ℕ) (r : Row)
    → (complete hash block now r).event_id ≡ r.event_id
unfolding complete
complete_event hash block now r = refl

fail_event : (m : String) (now : ℕ) (r : Row) → (fail m now r).event_id ≡ r.event_id
unfolding fail
fail_event m now r = refl

module _ {C : Type 0} where
  pub record Advances (event : String) (w : World C) (out : Result Failure (Unit {0}) × World C)
      : Type 0 where
    pub unique : UniqueEvents out.1.assessments
    pub grown : Grown w.assessments out.1.assessments
    pub letters : out.1.dead_letters ≡ w.dead_letters
    pub backed : Backed w.assessments w.writes → Backed out.1.assessments out.1.writes
    pub done : out.0 ≡ ok tt → Done event out.1.assessments

  module _ (event : String) (w : World C) (t : List Row) (r : AssessmentRecord)
      (ready : IsReady event r w.assessments t) (f : Row → Row)
      (same : (x : Row) → (f x).event_id ≡ x.event_id)
      (keeps : (x : Row) → is_completed x.processing_status ≡ false → Progress x (f x)) where
    finished-Advances :
        (res : Result Failure (Unit {0})) (u : World C)
        → u.assessments ≡ update (by_event event) f t
        → u.dead_letters ≡ w.dead_letters
        → (Backed w.assessments w.writes → Backed (update (by_event event) f t) u.writes)
        → (res ≡ ok tt → Done event (update (by_event event) f t))
        → Advances event w (res, u)
    finished-Advances res u a d b c = record {
      unique = rw a (finished_unique event w.assessments t r ready f same keeps);
      grown = rw a (finished-Grown event w.assessments t r ready f same keeps);
      letters = d;
      backed = rw a b;
      done = rw a c;
    }

  module _ (v : Services C) (now : ℕ) (e : Message) (w u : World C) (r : AssessmentRecord)
      (t : List Row) (ready : IsReady e.event_id r w.assessments t) (rows : u.assessments ≡ t)
      (calls : u.writes ≡ w.writes) (letters : u.dead_letters ≡ w.dead_letters) where
    failed-Advances :
        (x : Failure) (m : String) (ws : List Write) (c : C)
        → (Backed w.assessments w.writes → Backed (update (by_event e.event_id) (fail m now) t) ws)
        → Advances e.event_id w (
          err x,
          record u {
            assessments = update (by_event e.event_id) (fail m now) u.assessments;
            writes = ws;
            chain = c;
          },
        )
    failed-Advances x m ws c b =
        finished-Advances e.event_id w t r ready (fail m now) (fail_event m now)
          (fail-Progress m now) (err x) _ (ap (update (by_event e.event_id) (fail m now)) rows)
          letters b (λ k. absurd (ground arith))

    completed-Advances :
        (hash : Option String) (block : Option ℕ) (ws : List Write) (c : C)
        → (Backed w.assessments w.writes
            → Backed (update (by_event e.event_id) (complete hash block now) t) ws)
        → Advances e.event_id w (
          ok tt,
          record u {
            assessments = update (by_event e.event_id) (complete hash block now) u.assessments;
            writes = ws;
            chain = c;
          },
        )
    completed-Advances hash block ws c b =
        finished-Advances e.event_id w t r ready (complete hash block now)
          (complete_event hash block now) (complete-Progress hash block now) (ok tt) _
          (ap (update (by_event e.event_id) (complete hash block now)) rows) letters b
          (λ _. completed-Done e.event_id w.assessments t r hash block now ready)

    module _ (f : Row → Row) (same : (x : Row) → (f x).event_id ≡ x.event_id)
        (keeps : (x : Row) → is_completed x.processing_status ≡ false → Progress x (f x)) where
      same_calls :
          Backed w.assessments w.writes → Backed (update (by_event e.event_id) f t) u.writes
      same_calls h = rw calls (
          Backed-Grown w.assessments _ w.writes
            (finished-Grown e.event_id w.assessments t r ready f same keeps) h)

      new_call :
          (b : Bool)
          → Backed w.assessments w.writes
          → Backed (update (by_event e.event_id) f t) (u.writes ++ call v e r b ∷ [])
      new_call b h = rw calls (
          finished-Backed e.event_id w.assessments t r ready f same keeps w.writes (call v e r b)
            refl refl refl h)

    write-Advances :
        (out : Result Failure (Unit {0}) × World C)
        → WriteEnds v now e u r out
        → Advances e.event_id w out
    write-Advances _ (Ends.unread m x) =
        failed-Advances _ m u.writes u.chain
          (same_calls (fail m now) (fail_event m now) (fail-Progress m now))
    write-Advances _ (Ends.assessed c a k x y z) =
        completed-Advances _ _ _ k
          (new_call _ (complete_event _ _ now) (complete-Progress _ _ now) true)
    write-Advances _ (Ends.unassessed c m k x y z) =
        failed-Advances _ m _ k
          (new_call (fail m now) (fail_event m now) (fail-Progress m now) false)
    write-Advances _ (Ends.matched c x y z) =
        completed-Advances _ _ u.writes u.chain
          (same_calls _ (complete_event _ _ now) (complete-Progress _ _ now))
    write-Advances _ (Ends.conflicting c x y z) =
        failed-Advances _ _ u.writes u.chain (same_calls _ (fail_event _ now) (fail-Progress _ now))

  pub handle-Advances :
      (v : Services C) (now : ℕ) (e : Message) (w : World C)
      (out : Result Failure (Unit {0}) × World C)
      → UniqueEvents w.assessments
      → HandleEnds v now e w out
      → Advances e.event_id w out
  handle-Advances v now e w _ u (Ends.already x found finished) = record {
    unique = u;
    grown = Grown-refl w.assessments;
    letters = refl;
    backed = λ h. h;
    done = λ _.
        find-Some (λ r. (r.event_id ≡ e.event_id) × (is_completed r.processing_status ≡ true))
          (by_event e.event_id) w.assessments x found
          (found_event e.event_id w.assessments x found, finished);
  }
  handle-Advances v now e w _ u (Ends.stopped x f s) = record {
    unique = u;
    grown = Grown-refl w.assessments;
    letters = refl;
    backed = λ h. h;
    done = λ k. absurd (ground arith);
  }
  handle-Advances v now e w _ u (Ends.written f s r t out ready ends) =
      write-Advances v now e w (record w { assessments = t; fingerprints = f; snapshots = s }) r t
        (Ready-IsReady v now e w.assessments r t u ready) refl refl refl out ends
