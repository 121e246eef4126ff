-- ===== src/Gasless.antt =====
-- packages/integrations/postgres/gasless_submission_repository.py, the outbox of sponsored
-- submissions.
pub mod Records
pub mod Table
pub mod Prepare
pub mod Relay
pub mod Cases
pub mod RelayCases
pub mod Ids
pub mod Moves
pub mod Keys
pub mod Run
pub mod Refine
pub mod Indexes
pub mod Phase
pub mod Lifecycle
pub mod Nonces
pub mod Begin
pub mod Authorize
pub mod Candidates
pub mod Tests
