-- ===== src/Upstream.antt =====
-- internal/upstream: the errors of the upstream adapters.
pub mod Errors
pub mod Adapters
