-- ===== src/Gemini.antt =====
-- The Gemini wire: gemini.go and gemini_errors.go.
pub mod Decimal
pub mod Object
pub mod Wire
pub mod Errors
