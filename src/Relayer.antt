-- ===== src/Relayer.antt =====
-- The relayer: apps/relayer/gasless_relayer.py.
pub mod Worker
pub mod Traces
pub mod Grounds
pub mod Sending
pub mod Calls
pub mod Failures
pub mod Tests
