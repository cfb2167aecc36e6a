-- ===== src/Responses.antt =====
-- The OpenAI Responses wire: responses.go.
pub mod Fault
pub mod Unicode
pub mod Event
pub mod Delta
pub mod Coalesce
pub mod Reader
pub mod Wire
