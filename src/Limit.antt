-- ===== src/Limit.antt =====
-- The limit on attempts to sign in: internal/api/rate_limit.go.
pub mod Buckets
pub mod Passes
pub mod Tests
