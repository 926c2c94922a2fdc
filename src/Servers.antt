-- ===== src/Servers.antt =====
-- The servers: the form of a server and the list in the sidebar.
pub mod Form
pub mod Opening
pub mod KeyEntry
pub mod Credentials
pub mod Sidebar
pub mod Groups
pub mod Folding
pub mod Ordered
pub mod Shown
pub mod LongPress
pub mod Actions
pub mod Shells
pub mod Patterns
pub mod Texts
pub mod Backend
pub mod Contract
pub mod Fingerprints
pub mod HostKeys
pub mod Accepted
pub mod Resolving
pub mod Stored
pub mod Tests
