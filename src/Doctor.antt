-- ===== src/Doctor.antt =====
-- The diagnosis of the host.
pub mod Check
pub mod Parallel
pub mod Summary
pub mod Surroundings
pub mod Runtime
pub mod VolumeConfig
pub mod VolumeRun
pub mod VolumeTest
