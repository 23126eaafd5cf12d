-- ===== src/Protocol/Responses.antt =====
-- internal/protocol/responses.go: the Responses protocol, as an entry.
pub mod Input
pub mod Output
pub mod Writer
mod Tests
