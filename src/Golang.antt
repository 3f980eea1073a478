-- ===== src/Golang.antt =====
-- pkg/golang: the steps that build, check and package Go programs.
pub mod Script
pub mod Alpine
pub mod Variant
