-- ===== src/Rdp.antt =====
-- The page of a remote desktop.
pub mod Client
pub mod Sessions
pub mod Sizes
pub mod Target
pub mod Address
pub mod Frame
pub mod Arrival
pub mod InStep
pub mod Tests
