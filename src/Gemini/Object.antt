-- ===== src/Gemini/Object.antt =====
-- The messages of Gemini: the request's settings and the chunks of a stream (gemini.go). A message
-- is read field by field, in order; a later field of either spelling replaces an earlier one.
use steady_proxy.Base.{
  ℕ, Bool, ◌||◌, List, [], ◌∷◌, Option, none, some, ◌>>=◌, guard, ℤ, pos, is_positive, Text, text,
  length, str_eq, trim_space, to_lower, ◌==◌, if◌then◌else◌,
}
use steady_proxy.Gemini.Decimal.{GeminiLib, is_null, gemini_int32, enum_name}
use steady_proxy.Headers.{member}
use steady_proxy.Json.{JsonLib}

-- `geminiRequestSettings`.
pub record Settings : Type 0 where
  pub candidate_count : ℤ
  pub thinking_level : Text

abbrev pub new_settings : Settings
new_settings = record { candidate_count = pos 1; thinking_level = [] }

-- `geminiUsage`.
pub record Usage : Type 0 where
  pub prompt_token_count : ℤ
  pub cached_content_token_count : ℤ
  pub candidates_token_count : Option ℤ
  pub thoughts_token_count : Option ℤ

-- `geminiCandidate`; `content` is the number of its parts.
pub record Candidate : Type 0 where
  pub index : ℤ
  pub finish_reason : Text
  pub content : Option ℕ

-- `geminiChunk`; `prompt_feedback` is its block reason, and a candidate may be null.
pub record Chunk : Type 0 where
  pub candidates : List (Option Candidate)
  pub prompt_feedback : Option Text
  pub usage_metadata : Option Usage
  pub model_version : Text
  pub error_raw : Text

-- Either spelling of a field.
unfoldable pub named : Text → Text → Text → Bool
named name a b = str_eq name a || str_eq name b

-- A nullable message.
nullable {ℓ} : {A : Type ℓ} → (Text → Option A) → Text → Option (Option A)
nullable read raw =
    let value = read raw >>= λ a. some (some a) in if is_null raw then some none else value

all_some {ℓ} : {A : Type ℓ} → (Text → Option A) → List Text → Option (List A)
all_some read [] = some []
all_some read (raw ∷ raws) = do a ← read raw; rest ← all_some read raws; some (a ∷ rest)

module _ (json : JsonLib) (lib : GeminiLib) where
  fold_fields {ℓ} : {S : Type ℓ} → (Text → Text → S → Option S) → List (Text × Text) → S → Option S
  fold_fields on_field [] s = some s
  fold_fields on_field ((name, value) ∷ fields) s =
      on_field name value s >>= fold_fields on_field fields

  -- `geminiObject`, from a state to one.
  pub gemini_object {ℓ} : {S : Type ℓ} → (Text → Text → S → Option S) → Text → S → Option S
  unfolding fold_fields
  gemini_object on_field raw s =
      let walked = json.entries raw >>= λ fields. fold_fields on_field fields s in
      if is_null raw then some s else walked

  -- A string; null is the empty one.
  unfoldable pub string_field : Text → Option Text
  string_field raw = json.as_string raw >>= λ s. some (elim s [ none ↦ [] | some t ↦ t ])

  -- `geminiThinkingLevel`: what is no level is none.
  thinking_level : Text → Text
  unfolding string_field member
  thinking_level raw =
      let level = to_lower (trim_space (elim (string_field raw) [ none ↦ [] | some t ↦ t ])) in
      if member level (text "minimal" ∷ text "low" ∷ text "medium" ∷ text "high" ∷ [])
      then level
      else []

  thinking_field : Text → Text → Text → Option Text
  unfolding thinking_level named
  thinking_field name value level = some (
      if named name (text "thinkingLevel") (text "thinking_level")
      then thinking_level value
      else level)

  config_field : Text → Text → Settings → Option Settings
  unfolding thinking_field named
  config_field name value c =
      let counted = gemini_int32 lib value >>= λ n. some (record c { candidate_count = n }) in
      let thought = gemini_object thinking_field value [] >>= λ level.
      some (record c { thinking_level = level }) in
      if named name (text "candidateCount") (text "candidate_count")
      then counted
      else if named name (text "thinkingConfig") (text "thinking_config")
      then thought
      else some c

  -- `geminiRequestConfig`: a later one replaces an earlier one.
  settings_field : Text → Text → Settings → Option Settings
  unfolding config_field named
  settings_field name value s =
      let config = gemini_object config_field value new_settings in
      if named name (text "generationConfig") (text "generation_config") then config else some s

  -- `geminiSettingsOf`.
  pub gemini_settings_of : Text → Settings
  unfolding settings_field
  gemini_settings_of body = elim (gemini_object settings_field body new_settings) [
    | none ↦ new_settings
    | some s ↦ if is_positive s.candidate_count then s else record s { candidate_count = pos 1 }
  ]

  -- `geminiEnum`.
  pub gemini_enum : List Text → Text → Option Text
  unfolding string_field enum_name
  gemini_enum names [] = gemini_int32 lib [] >>= λ n. some (enum_name names n)
  gemini_enum names (c ∷ raw) =
      let number = gemini_int32 lib (c ∷ raw) >>= λ n. some (enum_name names n) in
      if c == b'"' then string_field (c ∷ raw) else number

  -- `geminiFinishReasons` and `geminiBlockReasons`.
  gemini_finish_reasons : List Text
  gemini_finish_reasons =
      text "FINISH_REASON_UNSPECIFIED"
      ∷ text "STOP"
      ∷ text "MAX_TOKENS"
      ∷ text "SAFETY"
      ∷ text "RECITATION"
      ∷ text "OTHER"
      ∷ []

  gemini_block_reasons : List Text
  gemini_block_reasons =
      text "BLOCK_REASON_UNSPECIFIED"
      ∷ text "SAFETY"
      ∷ text "OTHER"
      ∷ text "BLOCKLIST"
      ∷ text "PROHIBITED_CONTENT"
      ∷ []

  -- `geminiPart`: an object, whatever it holds.
  part : Text → Option (Unit {0})
  part [] = none
  part (c ∷ raw) = guard (c == b'{')

  -- A slice; null is the empty one.
  pub slice {ℓ} : {A : Type ℓ} → (Text → Option A) → Text → Option (List A)
  unfolding all_some
  slice read raw = do
    items ← json.as_list raw
    all_some read (elim items [ none ↦ [] | some raws ↦ raws ])

  content_field : Text → Text → ℕ → Option ℕ
  unfolding slice part
  content_field name value n =
      let parts = slice part value >>= λ ps. some (length ps) in
      if str_eq name (text "parts") then parts else some n

  candidate_field : Text → Text → Candidate → Option Candidate
  unfolding gemini_enum gemini_finish_reasons content_field nullable named
  candidate_field name value c =
      let indexed = gemini_int32 lib value >>= λ n. some (record c { index = n }) in
      let finished =
        gemini_enum gemini_finish_reasons value >>= λ r. some (record c { finish_reason = r }) in
      let filled = nullable (λ raw. gemini_object content_field raw 0) value >>= λ parts.
      some (record c { content = parts }) in
      if str_eq name (text "index")
      then indexed
      else if named name (text "finishReason") (text "finish_reason")
      then finished
      else if str_eq name (text "content")
      then filled
      else some c

  -- `geminiCandidate`.
  candidate : Text → Option Candidate
  unfolding candidate_field
  candidate raw =
      gemini_object candidate_field raw
        (record { index = pos 0; finish_reason = []; content = none })

  feedback_field : Text → Text → Text → Option Text
  unfolding gemini_enum gemini_block_reasons named
  feedback_field name value reason =
      let blocked = gemini_enum gemini_block_reasons value in
      if named name (text "blockReason") (text "block_reason") then blocked else some reason

  -- The switch of `geminiUsage` on the field's name, with the field's number.
  count_of : Text → Text → ℤ → Usage → Usage
  unfolding named
  count_of name value n u =
      let count : Option ℤ = if str_eq value (text "null") then none else some n in
      if named name (text "promptTokenCount") (text "prompt_token_count")
      then record u { prompt_token_count = n }
      else if named name (text "cachedContentTokenCount") (text "cached_content_token_count")
      then record u { cached_content_token_count = n }
      else if named name (text "candidatesTokenCount") (text "candidates_token_count")
      then record u { candidates_token_count = count }
      else record u { thoughts_token_count = count }

  usage_field : Text → Text → Usage → Option Usage
  unfolding count_of named
  usage_field name value u =
      let counted = gemini_int32 lib value >>= λ n. some (count_of name value n u) in
      if named name (text "promptTokenCount") (text "prompt_token_count")
        || named name (text "cachedContentTokenCount") (text "cached_content_token_count")
        || named name (text "candidatesTokenCount") (text "candidates_token_count")
        || named name (text "thoughtsTokenCount") (text "thoughts_token_count")
      then counted
      else some u

  -- `geminiUsage`.
  usage : Text → Option Usage
  unfolding usage_field
  usage raw = gemini_object usage_field raw (record {
    prompt_token_count = pos 0;
    cached_content_token_count = pos 0;
    candidates_token_count = none;
    thoughts_token_count = none;
  })

  chunk_field : Text → Text → Chunk → Option Chunk
  unfolding slice candidate feedback_field usage nullable named string_field
  chunk_field name value c =
      let candidates =
        slice (nullable candidate) value >>= λ cs. some (record c { candidates = cs }) in
      let feedback = nullable (λ raw. gemini_object feedback_field raw []) value >>= λ f.
      some (record c { prompt_feedback = f }) in
      let counted = nullable usage value >>= λ u. some (record c { usage_metadata = u }) in
      let versioned = string_field value >>= λ v. some (record c { model_version = v }) in
      if str_eq name (text "candidates")
      then candidates
      else if named name (text "promptFeedback") (text "prompt_feedback")
      then feedback
      else if named name (text "usageMetadata") (text "usage_metadata")
      then counted
      else if named name (text "modelVersion") (text "model_version")
      then versioned
      else if str_eq name (text "error")
      then some (record c { error_raw = value })
      else some c

  -- `geminiChunk`.
  unfoldable pub gemini_chunk : Text → Option Chunk
  unfolding chunk_field gemini_object all_some nullable slice candidate feedback_field usage
      candidate_field gemini_enum gemini_finish_reasons content_field gemini_block_reasons part
      usage_field count_of fold_fields
  gemini_chunk raw = gemini_object chunk_field raw (record {
    candidates = [];
    prompt_feedback = none;
    usage_metadata = none;
    model_version = [];
    error_raw = [];
  })
