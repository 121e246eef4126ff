-- ===== src/Index.antt =====
-- The claim index: packages/integrations/postgres/claim_index_repository.py.
pub mod Tables
pub mod Write
pub mod Order
pub mod Checkpoint
pub mod Audit
pub mod Search
pub mod Snapshot
pub mod Newest
pub mod Pages
pub mod Collation
pub mod Claims
pub mod Lookup
pub mod Tests
