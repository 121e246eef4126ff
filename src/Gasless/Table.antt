-- ===== src/Gasless/Table.antt =====
-- The SQL statements of gasless_submission_repository.py as actions on the tables.
use decentralized_claims_reg.Prelude.{
  ℕ, String, Bool, Option, none, some, List, [], ◌∷◌, ◌++◌, ◌==◌, ltb, ◌&&◌, ◌||◌, if◌then◌else◌,
}
use decentralized_claims_reg.Prelude.Lists.{find, update}
use decentralized_claims_reg.Prelude.Text.{str_eq, lower}
use decentralized_claims_reg.Postgres.{Action, ok, raise, modify, when◌run◌otherwise◌, transaction}
use decentralized_claims_reg.Gasless.Records.{
  Submission, NonceRow, Attempt, SignedRelayTransaction, Outbox, Error, storage_unavailable,
  chain_error,
}

abbrev pub Tx : Type 0 → Type 0
Tx = Action Outbox Error

-- `PostgresDatabase.cursor` lets storage errors through and hides every other exception.
abbrev pub translate : Error → Error
translate (chain_error m) = storage_unavailable
translate e = e

abbrev pub cursor : {A : Type 0} → Tx A → Tx A
cursor = transaction translate

abbrev pub by_id : ℕ → Submission → Bool
by_id i r = r.submission_id == i

abbrev pub select : (Submission → Bool) → Tx (Option Submission)
select p s = (ok (find p s.submissions), s)

abbrev pub update_where : (Submission → Bool) → (Submission → Submission) → Tx (Unit {0})
update_where p f s = (ok tt, record s { submissions = update p f s.submissions })

abbrev pub returned {ℓ} : {A : Type ℓ} → (A → A) → Option A → Option A
returned f none = none
returned f (some x) = some (f x)

-- `UPDATE … RETURNING *` and `fetchone`
abbrev pub update_returning :
    (Submission → Bool) → (Submission → Submission) → Tx (Option Submission)
update_returning p f s =
    (ok (returned f (find p s.submissions)), record s { submissions = update p f s.submissions })

abbrev pub insert_unless : Option Submission → Submission → Tx Submission
insert_unless none r s = (ok r, record s { submissions = s.submissions ++ r ∷ [] })
insert_unless (some taken) r s = raise storage_unavailable s

-- `INSERT … RETURNING *`; a second row with the primary key is refused. The two unique indexes
-- of the table are not checked here: `begin_preparation` looks for both before it inserts. The table's
-- `CHECK`s on lengths and on `chain_id` are left out: a row that they refuse is inserted here.
abbrev pub insert_submission : Submission → Tx Submission
insert_submission r s = insert_unless (find (by_id r.submission_id) s.submissions) r s

abbrev pub attempt_clash : Attempt → Attempt → Bool
attempt_clash a b =
    (a.submission_id == b.submission_id && a.attempt_number == b.attempt_number)
    || str_eq a.transaction_hash b.transaction_hash

abbrev pub attempt : ℕ → ℕ → SignedRelayTransaction → Attempt
attempt i k t = record {
  submission_id = i;
  attempt_number = k;
  transaction = t;
  broadcast_at = none;
}

abbrev pub insert_attempt_unless : Option Attempt → Attempt → Tx (Unit {0})
insert_attempt_unless none a =
    when ltb 0 a.max_fee_per_gas && ltb 0 a.max_priority_fee_per_gas
    run modify (λ s. record s { attempts = s.attempts ++ a ∷ [] })
    otherwise raise storage_unavailable
insert_attempt_unless (some taken) a = raise storage_unavailable

-- The table's keys, and its checks that both fees are positive.
abbrev pub insert_attempt : ℕ → ℕ → SignedRelayTransaction → Tx (Unit {0})
insert_attempt i k t s =
    insert_attempt_unless (find (attempt_clash (attempt i k t)) s.attempts) (attempt i k t) s

-- `lower(relayer_address) = lower(%s)` in one chain
abbrev pub same_stream : ℕ → String → NonceRow → Bool
same_stream chain relayer n =
    n.chain_id == chain && str_eq (lower n.relayer_address) (lower relayer)

abbrev pub or_zero : Option NonceRow → ℕ
or_zero none = 0
or_zero (some n) = n.next_nonce

-- The stream's next nonce, 0 where it has no row.
unfoldable pub next_nonce : ℕ → String → List NonceRow → ℕ
next_nonce chain relayer ns = or_zero (find (same_stream chain relayer) ns)

-- `ON CONFLICT (chain_id, relayer_address) DO UPDATE`, on the lower-case address that is stored
unfoldable pub put_nonce : ℕ → String → ℕ → List NonceRow → List NonceRow
put_nonce chain relayer n [] =
    record { chain_id = chain; relayer_address = lower relayer; next_nonce = n } ∷ []
put_nonce chain relayer n (m ∷ ms) =
    if m.chain_id == chain && str_eq m.relayer_address (lower relayer)
    then record m { next_nonce = n } ∷ ms
    else m ∷ put_nonce chain relayer n ms
