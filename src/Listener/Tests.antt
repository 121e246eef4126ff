-- ===== src/Listener/Tests.antt =====
-- Concrete runs of the listener.
use decentralized_claims_reg.Prelude.{
  ℕ, String, true, false, some, List, [], ◌∷◌, ◌++◌, ◌≡◌, ◌==◌, max, arith, refl, none, inl, inr,
  leb, ◌&&◌, Option,
}
use decentralized_claims_reg.Postgres.{ok}
use decentralized_claims_reg.Index.Tables.{EventType, claim_submitted, claim_assessed}
use decentralized_claims_reg.Listener.Poller.{
  Poller, safe_head, process_latest, drain, process_to_safe_head,
}
use decentralized_claims_reg.Prelude.Text.{lower}
use decentralized_claims_reg.Index.Write.{
  is_deployment, put_checkpoint, advance, save_checkpoint, load_checkpoint, get_status,
  index_claim_submitted, record_event, insert_event, upsert_claim, submitted_row,
}
use decentralized_claims_reg.Listener.Drain.{
  Outcome, process_to_safe_head-Outcome, process_to_safe_head_reaches,
}
use decentralized_claims_reg.Listener.Events.{
  ChainLog, Event, submitted, assessed, World, Services, process_range, entries, dispatch_all,
  dispatch, recover, handle, handle_claim_submitted, verified_payload, check_download, check_hash,
  publish, message, event_log, in_chain_order, place_event,
}
use decentralized_claims_reg.Listener.Verified.{RangeEnds, process_range_settles}
use decentralized_claims_reg.Listener.Delivery.{block}
use decentralized_claims_reg.Listener.Ranges.{bound}
use decentralized_claims_reg.Listener.Lossless.{IsSound, IsLossless, run-IsLossless}
use decentralized_claims_reg.Listener.Loop.{
  Config, Round, Happening, polls, restarts, Listener, run,
}
use decentralized_claims_reg.Prelude.Lists.{All, All-imp, Some, keep, find}

-- A poller that notes its ranges and its checkpoints.
abbrev poller : Poller (List (ℕ × ℕ) × List ℕ) String
poller = record {
  process_range = λ from to s. (ok tt, (s.0 ++ (from, to) ∷ [], s.1));
  save = λ b s. (ok tt, (s.0, s.1 ++ b ∷ []));
  confirmation_blocks = 12;
  max_block_range = some 50;
}

abbrev unpolled : List (ℕ × ℕ) × List ℕ
unpolled = ([], [])

process_to_safe_head-Outcome_example :
    Outcome poller 150 20 unpolled (process_to_safe_head poller (λ k. k == 2) 150 20 unpolled)
process_to_safe_head-Outcome_example =
    process_to_safe_head-Outcome poller 150 (λ k. k == 2) 20 unpolled (omega arith)

process_to_safe_head_reaches_example :
    (process_to_safe_head poller (λ _. false) 150 20 unpolled).0
    ≡ ok (max 20 (safe_head poller 150))
process_to_safe_head_reaches_example =
    process_to_safe_head_reaches poller 150 (λ a b u v e h. absurd cc) (λ b u v e h. absurd cc) 20
      unpolled (omega arith)

abbrev chain_log : ℕ → ChainLog
chain_log block = record {
  claim_id = block;
  block_number = block;
  block_hash = "0xb";
  transaction_hash = "0xA1";
  log_index = 0;
  timestamp = 50;
}

-- A good submission, one whose document does not hash to the anchored value, and an assessment.
abbrev logs : EventType → ℕ → ℕ → List Event
logs claim_submitted from to =
    submitted (chain_log 21) "0xC" "good" "ipfs://a"
    ∷ submitted (chain_log 23) "0xC" "bad" "ipfs://b"
    ∷ []
logs claim_assessed from to = assessed (chain_log 22) 1 10 ∷ []

abbrev services : Services
services = record {
  chain_id = 1;
  contract_address = "0xC0";
  get_logs = logs;
  download_pointer = λ pointer. ok pointer;
  keccak = λ payload. "good";
  has_indexer = false;
  has_dead_letter = true;
  publisher = some (λ topic m. true);
}

abbrev silent : World
silent = record {
  index = record { events = []; claims = []; checkpoints = [] };
  topic = [];
  dead_letters = [];
}

process_range_settles_example :
    RangeEnds services silent 21 70 (process_range services 9 21 70 silent)
process_range_settles_example = process_range_settles services 9 silent 21 70

-- The submissions of the chain, of which the second has a document that is not the anchored one.
abbrev submissions : List Event
submissions =
    submitted (chain_log 21) "0xC" "good" "ipfs://a"
    ∷ submitted (chain_log 73) "0xC" "bad" "ipfs://b"
    ∷ []

abbrev logs_between : EventType → ℕ → ℕ → List Event
logs_between claim_submitted from to =
    keep (λ e. leb from (block e) && leb (block e) to) submissions
logs_between claim_assessed from to = []

abbrev config : Config
config = record {
  chain_id = 1;
  contract_address = "0xC0";
  keccak = λ payload. "good";
  has_indexer = true;
  has_dead_letter = true;
  confirmation_blocks = 12;
  max_block_range = some 50;
  origin = 20;
}

abbrev round : Option ℕ → Round
round latest = record {
  latest = latest;
  should_stop = λ k. k == 3;
  now = 9;
  get_logs = logs_between;
  download_pointer = λ pointer. ok pointer;
  acknowledges = λ topic m. true;
}

abbrev idle : Listener
idle = record { last_processed = 0; world = silent }

-- A poll, one that the node does not answer, a restart and another poll.
abbrev history : List Happening
history = polls (round (some 80)) ∷ polls (round none) ∷ restarts ∷ polls (round (some 95)) ∷ []

every : (xs : List Event) → All (λ e. Some (λ f. f ≡ e) xs) xs
every [] = tt
every (x ∷ xs) = (inl refl, All-imp _ _ xs (λ e k. inr k) (every xs))

round-IsSound : (latest : Option ℕ) → IsSound config submissions (polls (round latest))
round-IsSound latest head from to known deep =
    every (keep (λ e. leb from (block e) && leb (block e) to) submissions)

run-IsLossless_example : IsLossless config submissions (run config (restarts ∷ history) idle)
unfolding find
run-IsLossless_example =
    run-IsLossless config submissions (omega arith) history idle refl
      (round-IsSound (some 80), (round-IsSound none, (tt, (round-IsSound (some 95), tt))))

-- Without a dead-letter file the second range fails: the checkpoint has the first one, and the
-- process goes on from where its poll began.
abbrev strict : Config
strict = record config { has_dead_letter = false }

failed_poll :
    let l = run strict (restarts ∷ polls (round (some 90)) ∷ []) idle in
    (l.last_processed ≡ 20) × (bound strict l.world ≡ 70)
unfolding run process_to_safe_head drain process_latest process_range entries dispatch_all dispatch
    recover handle handle_claim_submitted verified_payload check_download check_hash publish message
    event_log in_chain_order place_event keep find is_deployment put_checkpoint advance
    save_checkpoint load_checkpoint get_status index_claim_submitted record_event insert_event
    upsert_claim submitted_row lower
failed_poll = (refl, refl)
