-- ===== src/Theme.antt =====
-- The theme of the pages.
pub mod Storage
pub mod Reload
pub mod Colors
pub mod Document
pub mod Styles
pub mod Tokens
pub mod Tests
