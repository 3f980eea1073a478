-- ===== src/Pipeline.antt =====
-- pkg/build: the build steps of a pipeline, their order, a run of them, and the images they need.
pub mod Step
pub mod Insert
pub mod Images
pub mod Run
