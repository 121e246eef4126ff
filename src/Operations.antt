-- ===== src/Operations.antt =====
-- The operator's view of the claim index: apps/backend/app/indexer_operations.py.
pub mod Search
pub mod Health
pub mod Paging
pub mod Reports
pub mod Audits
pub mod Tests
