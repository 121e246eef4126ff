-- ===== src/Lib.antt =====
-- Decentralized Claims Registry: a model of the Python services and what holds of it.
--
-- Sponsored submissions. The API (apps/backend/app) and the relayer
-- (apps/relayer/gasless_relayer.py) share three tables and meet only in the repository
-- packages/integrations/postgres/gasless_submission_repository.py. Gasless/Records has the rows,
-- Gasless/Table the SQL statements as actions on the tables, Gasless/Prepare the operations
-- begin_preparation, mark_prepared, mark_preparation_failed and get_for_credential, and
-- Gasless/Relay and its child Transit authorize, list_relay_candidates,
-- persist_signed_transaction, mark_broadcast, list_relay_transaction_hashes,
-- persist_replacement_transaction, mark_confirmed and record_relay_error, each under its own name.
-- Gasless/Run makes a history of them: an operation takes row and advisory locks, so its
-- transaction is one step, and a history is any sequence of calls. Gasless/Cases and
-- Gasless/RelayCases say what each operation may commit; Moves, Refine, Keys, Indexes, Phase,
-- Lifecycle and Nonces build on these. Begin, Authorize and Candidates are about one operation
-- each.
--
-- Relayer. Relayer/Worker is GaslessRelayWorker of apps/relayer/gasless_relayer.py: its methods
-- under their names, over the repository and over Chain, the record of what it asks of
-- apps/backend/app/gasless_blockchain.py, whose answers are arbitrary. Relayer/Grounds says
-- when it may make which call of the repository, Traces, Sending and Calls are about that, and Failures
-- is about its errors.
--
-- Claim index. Index/Tables and Index/Write are the tables and the writes of
-- packages/integrations/postgres/claim_index_repository.py, Index/Order, Index/Checkpoint
-- and Index/Audit are about them. Index/Search is its search_events, where the order of texts, the
-- database's collation, is a parameter; Index/Collation has the one called "C", and Index/Newest
-- and Index/Pages are about reading page by page. Index/Claims has list_claims and
-- get_claim, Index/Lookup is about reading what was written, and Index/Snapshot has
-- get_operations_snapshot and record_reconciliation.
--
-- Listener. Listener/Poller is ConfirmedBlockPoller of apps/listener/claims_listener.py over any
-- processor and checkpoint; its loop runs on fuel, one for each block behind the safe head, and a
-- chunk is a block or more. Listener/Events is ClaimEventProcessor: the queries for logs, the
-- IPFS download, the hash and Kafka's acknowledgement are parameters (Services). Listener/Drain
-- and Listener/Verified are about the two. Listener/Loop is the loop of main with the checkpoint
-- of the claim index, over rounds in which each adapter answers as it likes, failures and restarts;
-- a process that dies inside a range leaves what an exception there would. Keeping, Delivery,
-- Ranges and Lossless are about that. A block number is a natural number, so a checkpoint
-- before block 0 is not modelled.
--
-- Scoring. Scoring/Handle is ClaimScoringHandler of packages/integrations/kafka/scoring_worker.py,
-- over the boundaries and the state of Scoring/World; Scoring/Consumer has the quarantine, the
-- dead-letter file and KafkaClaimEventConsumer of packages/integrations/kafka/events.py on one
-- partition, and Scoring/Decode the JSON form of an event. A failure ends the process, so the next
-- message is the one at the committed offset; what others do to the chain between two deliveries
-- is part of a delivery. Scoring/Assessments, Scoring/Duplicates and Scoring/Features are the
-- repositories of packages/integrations/postgres with packages/duplicates/detector.py and
-- feature_processor.py. The document's schema, its signature, the model, the digests and the
-- arithmetic of floats are parameters, and a float that is only copied stands as its text.
-- Reading and Ends say how one event ends, Progress, Advance, Settled and Once build on these;
-- Quarantine is about the documents that are turned away.
--
-- Reconciliation. Reconcile is ClaimIndexReconciler of apps/listener/reconcile_claim_index.py. It
-- reads Index/Claims.list_claims page by page, over one state of the index, as the listener is
-- stopped, and the contract at the checkpoint's block, which is a parameter. The loop runs on fuel,
-- one round for each claim and one more. Reconcile/Reading is about that loop, Matching and Rows
-- lead to Agreement.
--
-- Claimants. Claimant/Challenges is
-- packages/integrations/postgres/claimant_auth_repository.py, one step for each operation, as its
-- locks are held to the end, with challenge errors replaced by storage errors on the way out;
-- Claimant/Sessions is ClaimantSessionManager of
-- apps/backend/app/claimant_auth.py over it. Tools has what comes from Python, web3 and eth_account:
-- checksums, the recovery of a signer, base64, JSON and HMAC. create_session reads a challenge in
-- one transaction (recover_wallet) and spends it in another (consume_for_session); a history may run
-- the second half of a call later, after other requests. Replay, RoundTrip, Limits and Limited are
-- about requests and their histories; Keeping carries what holds of the table through a request.
--
-- Migrations. Migrations is packages/integrations/postgres/migrations/runner.py, with what a
-- migration's SQL does to the schema as a parameter; Migrations/Upgrade is about its upgrade.
--
-- Operations. Operations/Search is IndexerOperationsService of
-- apps/backend/app/indexer_operations.py over Index/Search, with base64 and JSON as parameters;
-- Operations/Paging is about its cursors. Operations/Health is its snapshot over Index/Snapshot,
-- where the chain's head is none when its client raised; Reports and Audits are about that.
--
-- Transactions. Postgres has packages/integrations/postgres/database.py: an action on the tables
-- returns or raises, cursor rolls the tables back on an exception, and what is no storage error
-- becomes one.
--
-- Conventions. A UUID is a number; a timestamp counts microseconds since the epoch; now is the
-- argument of a call, so the clocks of the API and of the database are one. Addresses and
-- hashes are texts; lower folds ASCII letters. Integers are unbounded, as in Python; the columns
-- NUMERIC(78, 0) are wide enough for what the chain produces. Logging and metrics are left out,
-- and an outage of the database is not modelled.
--
-- Not modelled. Behind the HTTP API (apps/backend/app): gasless_service.py, service.py and main.py,
-- which string the modelled repositories together with adapters for one request; submission_auth.py,
-- assessor_outcomes.py, policy_eligibility.py and claim_permits.py, which check credentials, policies
-- and signatures of a request against settings, and assessor_outcome_repository.py, a table of
-- revisions that no other part here reads; they would make the library too large to check as one.
-- blockchain.py and gasless_blockchain.py call an Ethereum node, packages/integrations/ipfs a network:
-- what they answer is a parameter. packages/model trains and scores over numeric libraries;
-- benchmarks, scripts and the demo are no part of the running program.
pub mod Prelude
pub mod Postgres
pub mod Gasless
pub mod Index
pub mod Listener
pub mod Relayer
pub mod Scoring
pub mod Reconcile
pub mod Claimant
pub mod Migrations
pub mod Operations
