-- ===== src/Engine.antt =====
-- cmd: the commands of the engine over the pipeline.
pub mod Registration
pub mod Targets
pub mod Groups
pub mod Images
pub mod Cache
