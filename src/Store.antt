-- ===== src/Store.antt =====
-- The servers as the backend keeps them: internal/api/server_handler.go, internal/models/server.go and
-- internal/api/connection.go.
pub mod Records
pub mod Saving
pub mod Answers
pub mod Dialing
pub mod Rows
pub mod Lawful
pub mod Sound
pub mod Requests
pub mod Secrets
pub mod Dialled
pub mod RoundTrip
pub mod Tests
