-- ===== src/Classify.antt =====
-- classify.go: from an upstream fault to a failure, and from a failure to what the client sees.
pub mod Codec
pub mod Http
pub mod Sse
pub mod Surface
pub mod ForPath
pub mod Writers
