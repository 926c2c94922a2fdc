-- ===== src/Relay.antt =====
-- The backend's end of a terminal session: internal/api/terminal_handler.go.
pub mod Shell
pub mod Order
pub mod EndToEnd
pub mod Tests
