-- ===== src/Gasless/Lifecycle.antt =====
-- What holds of a submission over any history of calls.
use decentralized_claims_reg.Prelude.{ℕ, String, Bool, true, false, some, List, [], ◌∷◌, ◌≡◌, ◌≤◌}
use decentralized_claims_reg.Prelude.Lists.{All, Grows-All}
use decentralized_claims_reg.Gasless.Records.{
  State, preparing, prepared, authorized, signed, broadcast, confirmed, failed, expired, Submission,
  Outbox,
}
use decentralized_claims_reg.Gasless.Moves
use decentralized_claims_reg.Gasless.Moves.{Move, IsNew}
use decentralized_claims_reg.Gasless.Phase.{Phase, Move-Phase, IsNew-Phase}
use decentralized_claims_reg.Gasless.Ids.{UniqueIds}
use decentralized_claims_reg.Gasless.Refine.{Follows, step-Follows}
use decentralized_claims_reg.Gasless.Run.{Call, step, run}

-- The diagram of the module comment, with the replacement of a transaction that is stuck.
infix 40 ◌⟶◌ ◌⟶*◌
pub data ◌⟶◌ : State → State → Type 0 where
  prepare_ok : preparing ⟶ prepared
  sign_off : prepared ⟶ authorized
  sign_for_relay : authorized ⟶ signed
  send : signed ⟶ broadcast
  bump : broadcast ⟶ signed
  mine_early : signed ⟶ confirmed
  mine : broadcast ⟶ confirmed
  lose_lease : preparing ⟶ failed
  reject : authorized ⟶ failed
  reject_signed : signed ⟶ failed
  reject_sent : broadcast ⟶ failed
  lapse_prepared : prepared ⟶ expired
  lapse_authorized : authorized ⟶ expired

pub data ◌⟶*◌ (s : State) : State → Type 0 where
  here : s ⟶* s
  then : {t u : State} → s ⟶* t → t ⟶ u → s ⟶* u

-- Terminal states.
abbrev pub terminal : State → Bool
terminal confirmed = true
terminal failed = true
terminal expired = true
terminal _ = false

-- What no later call changes of a row.
pub record Lasting (r r' : Submission) : Type 0 where
  pub same_request : r'.request ≡ r.request
  pub frozen : terminal r.state ≡ true → r' ≡ r
  pub signature_kept : (x : String) → r.insurer_signature ≡ some x → r'.insurer_signature ≡ some x
  pub nonce_kept : (n : ℕ) → r.relayer_nonce ≡ some n → r'.relayer_nonce ≡ some n
  pub attempts_grow : r.relay_attempts ≤ r'.relay_attempts
  pub way : r.state ⟶* r'.state

module _ (r r' : Submission) (h : Phase r) where
  -- what the moves of a row leave alone, but for the way of its state
  Kept : Type 0
  Kept =
      (r'.request ≡ r.request)
      × (terminal r.state ≡ true → r' ≡ r)
      × ((x : String) → r.insurer_signature ≡ some x → r'.insurer_signature ≡ some x)
      × ((n : ℕ) → r.relayer_nonce ≡ some n → r'.relayer_nonce ≡ some n)
      × (r.relay_attempts ≤ r'.relay_attempts)

pub record IsConsistent (s : Outbox) : Type 0 where
  pub unique : UniqueIds s.submissions
  pub phases : All Phase s.submissions

-- A row that began after the history did.
abbrev pub Begun : Submission → Type 0
Begun r = preparing ⟶* r.state

step-IsConsistent : (s : Outbox) (c : ℕ × Call) → IsConsistent s → IsConsistent (step s c)
step-IsConsistent s c h =
    let f : Follows s (step s c) = step-Follows s h.unique c in
    record {
      unique = f.unique;
      phases =
          Grows-All Phase Move IsNew Phase s.submissions (step s c).submissions
            (λ x y k m. Move-Phase m k) (λ y. IsNew-Phase) h.phases f.grows;
    }

-- From consistent tables, whatever calls the API and the relayer make, identifiers stay unique, and
-- every row keeps to its state's columns: in `preparing` none of the request's columns is set (hash,
-- pointer, call data, forwarder nonce, gas, deadline), and from `prepared` to `confirmed` all of them
-- are; a signature is there from `authorized` to `confirmed` and not before; a nonce and raw bytes are
-- from `signed` to `confirmed`, no raw bytes before or in `expired`, and no nonce without raw bytes.
pub run-IsConsistent :
    (s : Outbox) (cs : List (ℕ × Call)) → IsConsistent s → IsConsistent (run s cs)
unfolding run
run-IsConsistent s [] h = h
run-IsConsistent s (c ∷ cs) h = run-IsConsistent (step s c) cs (step-IsConsistent s c h)
