-- ===== src/Protocol.antt =====
-- internal/protocol: the intermediate representation, and the conversions of the three protocols.
pub mod Ir
pub mod Fold
pub mod Anthropic
pub mod OpenAi
pub mod Responses
mod Tests
