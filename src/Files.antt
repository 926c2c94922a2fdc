-- ===== src/Files.antt =====
-- The file manager: ui/src/hooks/useDirectory.ts and ui/src/components/FileManager.tsx.
pub mod Directory
pub mod Requests
pub mod Listing
pub mod Capture
pub mod Paths
pub mod Crumbs
pub mod Size
pub mod Manager
pub mod Download
pub mod Transfers
pub mod Tests
