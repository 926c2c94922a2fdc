-- ===== src/Tabs.antt =====
-- The tabs of the workspace: ui/src/pages/MainPage.tsx and ui/src/components/TerminalTabs.tsx.
pub mod Workspace
pub mod Keys
pub mod Laws
pub mod Life
pub mod Font
pub mod Status
pub mod Tests
