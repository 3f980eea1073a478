-- ===== src/Python.antt =====
-- pkg/python: the steps that build and package Python programs.
pub mod Builder
pub mod Step
