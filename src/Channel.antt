-- ===== src/Channel.antt =====
-- internal/channel: the choice of API keys, and the health check of channels.
pub mod Keys
pub mod Health
pub mod Detect
pub mod Probe
pub mod Trials
mod Tests
