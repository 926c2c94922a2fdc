-- ===== src/Terminal.antt =====
-- The browser's end of a terminal session: ui/src/hooks/useTerminalConnection.ts.
pub mod Frames
pub mod State
pub mod Handlers
pub mod Page
pub mod Quiet
pub mod Queue
pub mod Delivery
pub mod Invariant
pub mod Lifecycle
pub mod Timers
pub mod Progress
pub mod Wakeup
pub mod Failure
pub mod Palette
pub mod View
pub mod Tests
