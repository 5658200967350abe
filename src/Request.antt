-- ===== src/Request.antt =====
-- src/request/mod.rs: from a connection's bytes to requests.
pub mod Encodings
pub mod Parse
pub mod Reader
mod Tests
