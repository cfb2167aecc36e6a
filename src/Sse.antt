-- ===== src/Sse.antt =====
-- sse.go: framing, validation and the transactional capture of a stream.
pub mod Parser
pub mod Validator
pub mod Spool
pub mod Wire
pub mod Capture
pub mod ToolJson
pub mod Anthropic
pub mod Usage
pub mod Normalizer
pub mod Replay
pub mod AnthropicLive
