-- ===== src/Archive.antt =====
-- requestlog.go: the archive of requests and of their attempts.
pub mod Redact
pub mod Report
pub mod Attempt
pub mod Capture
pub mod Recorder
pub mod Writer
