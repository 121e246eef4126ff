-- ===== src/Claimant.antt =====
-- Wallet sessions of claimants: claimant_auth_repository.py and apps/backend/app/claimant_auth.py.
pub mod Challenges
pub mod Sessions
pub mod Keeping
pub mod Replay
pub mod RoundTrip
pub mod Limits
pub mod Limited
pub mod Tests
