-- ===== src/Network.antt =====
-- Addresses of the host as containers see them, and what is forwarded into containers.
pub mod Address
pub mod SshForward
