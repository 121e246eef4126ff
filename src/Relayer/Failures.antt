-- ===== src/Relayer/Failures.antt =====
-- How the relayer's failures end.
use decentralized_claims_reg.Prelude.{
  ℕ, String, Bool, true, false, none, some, ◌≡◌, refl, arith, if◌then◌else◌,
}
use decentralized_claims_reg.Prelude.Lists.{find}
use decentralized_claims_reg.Prelude.Text.{lower, str_eq, contains, contains_part}
use decentralized_claims_reg.Postgres.{ok, err}
use decentralized_claims_reg.Gasless.Records.{
  state_eq, Submission, authorized, chain_error, storage_unavailable,
}
use decentralized_claims_reg.Gasless.Table.{by_id}
use decentralized_claims_reg.Gasless.Relay.{reserved_nonce, persist_signed_transaction}
use decentralized_claims_reg.Relayer.Worker.{
  Worker, World, store, Signer, sign_authorized, advance, record_failure, process, markers,
  retryable, classify, failure,
}

-- For an authorized row of the tables without raw bytes, when the chain gives a signer and a
-- pending nonce and the signer fails on the reserved nonce, processing ends with a storage error,
-- and the tables and the sent bytes stay as they were.
pub process-storage_unavailable :
    (k : Worker) (now pending : ℕ) (w : World) (r : Submission) (sign : Signer) (m : String)
    → r.state ≡ authorized
    → r.raw_transaction ≡ none
    → find (by_id r.submission_id) w.outbox.submissions ≡ some r
    → k.chain.prepare_relay_signer w.sent r none ≡ ok sign
    → k.chain.pending_nonce w.sent ≡ ok pending
    → sign (reserved_nonce pending r k.chain.address w.outbox) ≡ err (chain_error m)
    → process k now r w ≡ (err (store storage_unavailable), w)
unfolding process advance sign_authorized persist_signed_transaction record_failure
process-storage_unavailable k now pending w r sign m state raw found prepared head fails =
    let held : state_eq r.state authorized ≡ true = (rw state refl) in
    simp (held, prepared, head, found, raw, fails)

part : (s : String) → contains "target does not match" s ≡ true → contains "does not match" s ≡ true
part s h = contains_part "target " "does not match" s h

record OtherCode (c : String × Bool) : Type 0 where
  other : str_eq c.0 "deployment_mismatch" ≡ false

another :
    {b : Bool} {d : String × Bool} (code : String) (terminal : Bool)
    → str_eq code "deployment_mismatch" ≡ false
    → (b ≡ false → OtherCode d)
    → OtherCode (if b then (code, terminal) else d)
another {b = true} code terminal h k = record { other = h }
another {b = false} code terminal h k = k refl

last_code : OtherCode ("relay_dependency_unavailable", false)
last_code = record { other = refl }

no_marker : (s : String) → OtherCode (retryable s)
no_marker s = another {b = contains "network fees exceed" s} "fee_cap_exceeded" false refl λ _.
    another {b = contains "nonce was consumed" s} "relayer_nonce_conflict" false refl
      (λ _. last_code)

classified : (s : String) → OtherCode (classify s markers)
unfolding classify
classified s =
    another {b = contains "invalid, expired, or uses a stale nonce" s} "authorization_invalid" true
      refl
      λ _. another {b = contains "reverted on-chain" s} "relay_reverted" true refl λ _.
        another {b = contains "did not emit exactly one" s} "receipt_event_missing" true refl λ _.
          another {b = contains "does not match" s} "receipt_event_mismatch" true refl λ unmatched.
            let deeper : contains "target does not match" s ≡ false = ground (arith, part s) in
            rw deeper (
              another {b = contains "exceeds the configured gas cap" s}
                "transaction_gas_cap_exceeded" true refl (λ _. no_marker s))

-- No failure is reported as `deployment_mismatch`: what contains its marker contains the marker
-- before it in the table.
pub failure-deployment_mismatch : (m : String) → str_eq (failure m).0 "deployment_mismatch" ≡ false
unfolding failure
failure-deployment_mismatch m = (classified (lower m)).other
