-- ===== src/Listener.antt =====
-- The blockchain listener: apps/listener/claims_listener.py.
pub mod Poller
pub mod Drain
pub mod Events
pub mod Verified
pub mod Loop
pub mod Keeping
pub mod Delivery
pub mod Ranges
pub mod Lossless
pub mod Tests
