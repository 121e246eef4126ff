-- ===== src/Gasless/Nonces.antt =====
-- The nonces of the relayer's account.
pub mod Stream
pub mod Rows
pub mod Sign
pub mod History
