-- ===== src/Kv.antt =====
-- pkg/kv: the key-value store that builds share over HTTP, its tokens, its server and its client.
pub mod Store
pub mod Token
pub mod Server
pub mod Client
