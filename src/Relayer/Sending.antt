-- ===== src/Relayer/Sending.antt =====
-- Broadcasts and receipts of the relayer, as calls of the repository that it has grounds for.
use decentralized_claims_reg.Prelude.{
  ℕ, String, Bool, true, false, Option, none, some, List, [], ◌∷◌, ◌++◌, ◌≡◌, refl, ◌∙◌, inl, inr,
  arith, ◌||◌, not, Option-cases,
}
use decentralized_claims_reg.Postgres.{Result, ok, err, ◌>>=◌, ◌>>◌, pure, raise, gets, modify}
use decentralized_claims_reg.Gasless.Records.{Submission, state_eq, signed, confirmed, authorized}
use decentralized_claims_reg.Gasless.Relay.{
  in_flight, mark_broadcast, list_relay_transaction_hashes,
}
use decentralized_claims_reg.Gasless.Run.{Call, broadcasts, step}
use decentralized_claims_reg.Postgres.Rules.{Result-cases}
use decentralized_claims_reg.Relayer.Worker.{
  blockchain, Receipt, Worker, Effect, in_store, ask, blank, text_of, broadcast_record, or_next,
  first_receipt, receipt_for_any_attempt,
}
use decentralized_claims_reg.Relayer.Traces.{
  IsRun-same, Ended, ask_answer, Traces, bind_Traces, when_Traces, still, store_Traces, ask-Traces,
  call_Traces,
}
use decentralized_claims_reg.Relayer.Grounds.{Found, MayBroadcast, Grounded}

pub is_signed : (r : Submission) → state_eq r.state signed ≡ true → r.state ≡ signed
is_signed r h = ground arith

pub is_authorized : (r : Submission) → state_eq r.state authorized ≡ true → r.state ≡ authorized
is_authorized r h = ground arith

pub negated_twice : (b : Bool) → not b ≡ false → b ≡ true
negated_twice b h = ground arith

pub not_confirmed :
    (r : Submission) → not (in_flight r.state) ≡ false → state_eq r.state confirmed ≡ false
unfolding in_flight
not_confirmed r h = ground arith

module _ (k : Worker) (now : ℕ) where
  abbrev pub J : ℕ × Call → Type 0
  J = Grounded k now

  abbrev pub Steps : {A : Type 0} → Effect A → Type 0
  Steps = Traces J

  -- What is known of the receipt that was looked for.
  abbrev pub Seen : Option Receipt → Type 0
  Seen none = Unit
  Seen (some receipt) = Found k receipt

  pub mark_Traces : (i : ℕ) → MayBroadcast k i → Steps (in_store (mark_broadcast i now))
  unfolding step
  mark_Traces i h = call_Traces J (mark_broadcast i now) (now, broadcasts i) (refl, h) (λ s. refl)

  hashes_Traces : (i : ℕ) → Steps (in_store (list_relay_transaction_hashes i))
  unfolding list_relay_transaction_hashes
  hashes_Traces i = store_Traces J (list_relay_transaction_hashes i) (λ s. IsRun-same J s _ refl)

  answered_now :
      (r : Submission) (a : Result String (Unit {0}))
      → Ended
          (gets (λ w. k.chain.send w.sent (text_of r.raw_transaction) (text_of r.transaction_hash)))
          a
      → (sent : List String) × (k.chain.send sent
            (text_of r.raw_transaction)
            (text_of r.transaction_hash)
          ≡ a)
  answered_now r a (w, x, e) = (w.sent, ground (arith, e))

  pub broadcast_record-Traces :
      (r : Submission) → r.state ≡ signed → Steps (broadcast_record k now r)
  unfolding broadcast_record
  broadcast_record-Traces r state =
      let answer : Effect (Result String (Unit {0})) =
        gets (λ w. k.chain.send w.sent (text_of r.raw_transaction) (text_of r.transaction_hash)) in
      let log : Effect (Unit {0}) =
        modify (λ w. record w { sent = w.sent ++ text_of r.raw_transaction ∷ [] }) in
      let mark : Effect Submission = in_store (mark_broadcast r.submission_id now) in
      let after : Result String (Unit {0}) → Effect Submission = λ a. (do ask (λ _. a); mark) in
      when_Traces J (blank r.raw_transaction || blank r.transaction_hash)
        (raise (blockchain "Persisted relay transaction is incomplete"))
        (answer >>= λ a. log >> after a)
        (λ _.
          still J {A = Submission} (err (blockchain "Persisted relay transaction is incomplete")))
        (λ _.
          bind_Traces J answer (λ a. log >> after a) (λ w. IsRun-same J w.outbox w.outbox refl)
            λ a ended.
              bind_Traces J log (λ _. after a) (λ w. IsRun-same J w.outbox w.outbox refl)
                λ _ _.
                  bind_Traces J (ask (λ _. a)) (λ _. mark) (ask-Traces J (λ _. a))
                    λ u told. mark_Traces r.submission_id (
                      let (sent, e) = answered_now r a ended in
                      let (later, d) = ask_answer (λ _. a) u told in
                      record {
                        row = r;
                        same_row = refl;
                        is_signed = state;
                        taken = inl (sent, e ∙ d);
                      }))

  or_next-Traces :
      (o : Option Receipt) (m : Effect (Option Receipt)) → Steps m → Steps (or_next o m)
  or_next-Traces none m h = h
  or_next-Traces (some r) m h = still J (ok (some r))

  first_receipt-Traces : (hashes : List String) → Steps (first_receipt k hashes)
  unfolding first_receipt
  first_receipt-Traces [] = still J {A = Option Receipt} (ok none)
  first_receipt-Traces (h ∷ rest) =
      bind_Traces J (ask (λ sent. k.chain.receipt sent h))
        (λ found. or_next found (first_receipt k rest)) (ask-Traces J _)
        λ o _. or_next-Traces o (first_receipt k rest) (first_receipt-Traces rest)

  pub receipt_Traces : (r : Submission) → Steps (receipt_for_any_attempt k r)
  unfolding receipt_for_any_attempt
  receipt_Traces r =
      bind_Traces J (in_store (list_relay_transaction_hashes r.submission_id)) (first_receipt k)
        (hashes_Traces r.submission_id) (λ hashes _. first_receipt-Traces hashes)

  first_receipt-Seen :
      (hashes : List String) (o : Option Receipt) → Ended (first_receipt k hashes) o → Seen o
  unfolding first_receipt
  first_receipt-Seen hashes none ended = tt
  first_receipt-Seen [] (some receipt) (w, x, e) = absurd (ground (arith, e))
  first_receipt-Seen (h ∷ rest) (some receipt) (w, x, e) =
      elim (Result-cases (k.chain.receipt w.sent h)) [
        | inr (m, failed) ↦ absurd (ground (arith, failed, e))
        | inl (o, told) ↦ elim (Option-cases o) [
          | inl none_ ↦
              first_receipt-Seen rest (some receipt) (w, x, ground (arith, told, none_, e))
          | inr (found, is) ↦ (w.sent, h, ground (arith, told, is, e))
        ]
      ]

  pub receipt_Seen :
      (r : Submission) (o : Option Receipt) → Ended (receipt_for_any_attempt k r) o → Seen o
  unfolding receipt_for_any_attempt list_relay_transaction_hashes
  receipt_Seen r o (w, x, e) = first_receipt-Seen _ o (w, x, e)

  pub done : Steps (pure tt)
  done = still J {A = Unit {0}} (ok tt)

  pub failed_with : (m : String) → Steps {A = Unit {0}} (raise (blockchain m))
  failed_with m = still J {A = Unit {0}} (err (blockchain m))
