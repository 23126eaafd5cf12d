-- ===== src/Api.antt =====
-- internal/api and internal/auth: what stands in front of /v1.
pub mod Auth
pub mod Errors
pub mod Handler
pub mod Models
mod Tests
