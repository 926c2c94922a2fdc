-- ===== src/Api.antt =====
-- The requests of the client and the routes of the backend.
pub mod Calls
pub mod Routes
pub mod Reaching
pub mod Tests
