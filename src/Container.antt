-- ===== src/Container.antt =====
-- The build's parameters, and the operations of a container (pkg/container).
pub mod Build
pub mod Secret
pub mod Service
pub mod Action
pub mod Lifecycle
pub mod Images
pub mod Intermediate
pub mod Tar
