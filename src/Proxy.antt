-- ===== src/Proxy.antt =====
-- proxy/: the server between the applications and Postgres.
pub mod Session
pub mod Scram
pub mod Auth
pub mod Server
pub mod Lifecycle
