-- ===== src/Svc.antt =====
-- What is known of the repository under build.
pub mod Git
