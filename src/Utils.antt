-- ===== src/Utils.antt =====
-- Values from the environment, and the search for files.
pub mod Environment
pub mod Values
pub mod Files
