-- ===== src/Config.antt =====
-- The settings of main.go's `config` that the modelled code reads. Durations are nanoseconds.
pub mod Env
use steady_proxy.Base.{ℕ, Bool, List, Text}

pub record Config : Type 0 where
  pub max_buffer_mem : ℕ
  pub max_response_bytes : ℕ
  pub validate_json : Bool
  pub normalize_tool_json : Bool
  pub sdk_retry_cap : ℕ
  pub tx_local_retries : ℕ
  pub local_backoff_cap : ℕ
  pub claude_refusal_fallbacks : List Text
  pub responses_early_commit : Bool
  pub keepalive : ℕ
  pub wf_keepalive : ℕ
  pub responses_keepalive : ℕ
  pub responses_buffer : ℕ
  pub gemini_buffer : ℕ
