-- ===== src/Discovery.antt =====
-- pkg/autodiscovery: the projects that the program finds below a directory, and their builds.
pub mod Project
pub mod Language
pub mod GoProjects
pub mod PythonProjects
pub mod JavaProjects
pub mod Collection
