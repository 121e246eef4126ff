-- ===== src/Relayer/Calls.antt =====
-- The relayer as a client of the repository.
use decentralized_claims_reg.Relayer.Worker.{Worker}
