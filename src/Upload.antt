-- ===== src/Upload.antt =====
-- `Upload` of internal/sftpclient/client.go, on a file server that is a parameter.
pub mod Remote
pub mod Publish
pub mod Keeping
pub mod Filling
pub mod Atomic
pub mod Done
pub mod Tests
