-- ===== src/Response.antt =====
-- src/response/: the answers to requests.
pub mod Status
pub mod Entry
pub mod Coding
pub mod Body
pub mod Stream
pub mod Listing
pub mod Head
pub mod Replies
pub mod NotModified
pub mod Serve
pub mod Keeps
pub mod Tests
pub mod Samples
