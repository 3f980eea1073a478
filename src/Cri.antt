-- ===== src/Cri.antt =====
-- The container runtime's data and interface (pkg/cri/types, pkg/cri/utils, pkg/cri/critest).
pub mod Platform
pub mod Manager
pub mod Image
pub mod Socket
pub mod Mock
