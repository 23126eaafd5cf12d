-- ===== src/Protocol/OpenAi.antt =====
-- internal/protocol/openai.go: OpenAI's chat format.
pub mod Parser
pub mod Writer
pub mod ToolChoice
pub mod Request
pub mod Response
