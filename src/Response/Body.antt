-- ===== src/Response/Body.antt =====
-- src/response/body.rs: the bytes of an entry as they go on the wire.
pub mod Writes
pub mod Contract
pub mod Counts
pub mod Finds
pub mod Native
pub mod Decoded
pub mod Inflated
pub mod EntryBody
