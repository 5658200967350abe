-- ===== src/Server.antt =====
-- src/main.rs: the buffers, the settings and the connections of the server.
pub mod Buffers
pub mod Settings
pub mod Connection
mod Tests
