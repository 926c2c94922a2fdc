-- ===== src/Touch.antt =====
-- Scrolling a terminal by touch.
pub mod Gesture
pub mod Scrolling
pub mod Tests
