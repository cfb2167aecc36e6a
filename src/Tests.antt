-- ===== src/Tests.antt =====
-- Tests of the model on small inputs, and each theorem at a concrete input.
mod Sse
mod Streams
mod Anthropic
mod Handling
mod Routes
mod Failures
mod Responses
mod Gemini
mod Errors
mod Live
mod Archive
mod Start
mod Replay
