-- ===== src/Gasless/Run.antt =====
-- The API and the relayer as clients of the tables: one call after another, in any order. The
-- locks that each operation takes make its transaction one step.
use decentralized_claims_reg.Prelude.{ℕ, String, Bool, List, [], ◌∷◌}
use decentralized_claims_reg.Postgres.{Result}
use decentralized_claims_reg.Gasless.Records.{Request, Outbox, SignedRelayTransaction, Error}
use decentralized_claims_reg.Gasless.Prepare.{
  Limits, ForwardRequest, begin_preparation, mark_prepared, mark_preparation_failed,
  get_for_credential,
}
use decentralized_claims_reg.Gasless.Relay.{
  authorize, list_relay_candidates, persist_signed_transaction, mark_broadcast,
  persist_replacement_transaction, mark_confirmed, record_relay_error,
}

pub data Call : Type 0 where
  begins : Request → Limits → Call
  is_prepared : ℕ → ForwardRequest → Call
  fails : ℕ → String → Call
  reads : ℕ → String → Call
  authorizes : ℕ → String → String → Call
  lists : ℕ → Call
  signs : ℕ → String → ℕ → (ℕ → Result Error SignedRelayTransaction) → Call
  broadcasts : ℕ → Call
  replaces : ℕ → (ℕ → ℕ → ℕ → Result Error SignedRelayTransaction) → Call
  confirms : ℕ → String → ℕ → ℕ → Call
  errs : ℕ → String → Bool → Call

-- The state after a call at the time `now`, whether it returns or raises.
unfoldable pub step : Outbox → ℕ × Call → Outbox
step s (now, begins q l) = (begin_preparation q l now s).1
step s (now, is_prepared i f) = (mark_prepared i f now s).1
step s (now, fails i code) = (mark_preparation_failed i code now s).1
step s (now, reads i c) = (get_for_credential i c now s).1
step s (now, authorizes i c signature) = (authorize i c signature now s).1
step s (now, lists limit) = (list_relay_candidates limit now s).1
step s (now, signs i relayer pending sign) =
    (persist_signed_transaction i relayer pending sign now s).1
step s (now, broadcasts i) = (mark_broadcast i now s).1
step s (now, replaces i sign) = (persist_replacement_transaction i sign now s).1
step s (now, confirms i hash block claim) = (mark_confirmed i hash block claim now s).1
step s (now, errs i code terminal) = (record_relay_error i code terminal now s).1

unfoldable pub run : Outbox → List (ℕ × Call) → Outbox
run s [] = s
run s (c ∷ cs) = run (step s c) cs

abbrev pub empty : Outbox
empty = record { submissions = []; nonces = []; attempts = [] }
