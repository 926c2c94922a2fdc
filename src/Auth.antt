-- ===== src/Auth.antt =====
-- Signing in and out.
pub mod Storage
pub mod Signing
pub mod Setup
pub mod Pages
pub mod Tests
