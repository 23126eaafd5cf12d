-- ===== src/Protocol/Anthropic.antt =====
-- internal/protocol/anthropic.go: the Anthropic Messages protocol.
pub mod Reasons
pub mod Blocks
pub mod Messages
pub mod Upstream
pub mod Response
pub mod Writer
pub mod Parser
mod Tests
