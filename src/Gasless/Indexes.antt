-- ===== src/Gasless/Indexes.antt =====
-- The unique indexes over any calls on the tables.
use decentralized_claims_reg.Prelude.{ℕ, List, [], ◌∷◌}
use decentralized_claims_reg.Gasless.Records.{Outbox}
use decentralized_claims_reg.Gasless.Ids.{UniqueIds}
use decentralized_claims_reg.Gasless.Keys.{HasKeys}
use decentralized_claims_reg.Gasless.Run.{Call, step, run}
use decentralized_claims_reg.Gasless.Refine.{Follows, step-Follows}

-- From tables with unique identifiers, over any calls, no two submissions of one credential have the
-- same idempotency key, and no two active submissions have the same chain, forwarder and signer but
-- for letter case, where neither was so before: the operations themselves keep both unique indexes.
pub run-HasKeys :
    (s : Outbox) (cs : List (ℕ × Call))
    → UniqueIds s.submissions
    → HasKeys s.submissions
    → HasKeys (run s cs).submissions
unfolding run
run-HasKeys s [] u h = h
run-HasKeys s (c ∷ cs) u h =
    let f : Follows s (step s c) = step-Follows s u c in
    run-HasKeys (step s c) cs f.unique (f.keys h)
