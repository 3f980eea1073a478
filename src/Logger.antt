-- ===== src/Logger.antt =====
-- pkg/logger: the aggregation of log lines.
pub mod Message
pub mod Entry
pub mod Aggregator
pub mod Batches
pub mod Screen
