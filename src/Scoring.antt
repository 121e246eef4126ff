-- ===== src/Scoring.antt =====
-- packages/integrations/kafka/scoring_worker.py and what it keeps: assessments, incident
-- fingerprints, feature snapshots, the dead-letter file and the consumer's offset.
pub mod Assessments
pub mod Duplicates
pub mod Features
pub mod World
pub mod Handle
pub mod Reading
pub mod Ends
pub mod Progress
pub mod Advance
pub mod Decode
pub mod RoundTrip
pub mod Consumer
pub mod Settled
pub mod Once
pub mod Quarantine
pub mod Tests
