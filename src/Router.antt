-- ===== src/Router.antt =====
-- internal/router: routing a request to a channel, with retries.
pub mod Order
pub mod Types
pub mod Loop
pub mod Chat
pub mod Verdicts
mod Tests
