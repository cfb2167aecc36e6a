-- ===== src/Fallback.antt =====
-- The choice of a fallback model, from main.go. `strings.EqualFold` is a parameter.
pub mod Actions
pub mod Models
use steady_proxy.Base.{
  ℕ, suc, Bool, true, false, not, ◌&&◌, ◌||◌, List, [], ◌∷◌, ◌++◌, Option, none, some, Text, text,
  is_nil, str_eq, contains, to_lower, trim_space, ◌==◌, if◌then◌else◌,
}
use steady_proxy.Failure.{Failure, orig_status_of, orig_type_of}
use steady_proxy.Headers.{split_at, member}
use steady_proxy.Sse.Capture.{refusal_fallback_code}

-- `isClaudeModel`.
unfoldable pub is_claude_model : Text → Bool
is_claude_model model = contains (to_lower model) (text "claude")

-- `isClaudeFallbackAccountError`.
unfoldable pub is_claude_fallback_account_error : Failure → Bool
is_claude_fallback_account_error f =
    let st = orig_status_of f in
    let kind = orig_type_of f in
    st == 401
    || st == 402
    || st == 403
    || str_eq kind (text "authentication_error")
    || str_eq kind (text "billing_error")
    || str_eq kind (text "permission_error")

-- `isModelSafeguardRefusal`.
unfoldable pub is_model_safeguard_refusal : Failure → Bool
is_model_safeguard_refusal f =
    let msg = to_lower f.message in
    not (f.transient || is_claude_fallback_account_error f)
    && (contains msg (text "safeguards flagged this message")
        || contains msg (text "safeguards flagged this session")
        || contains msg (text "claude code can't respond to this request with fable"))

-- `claudeFallbackDisposition`.
pub data Disposition : Type 0 where
  fallback_stop fallback_next fallback_original : Disposition

-- The model does not exist upstream.
unfoldable pub is_missing_model : Failure → Bool
is_missing_model f =
    orig_status_of f == 404
    || str_eq (orig_type_of f) (text "not_found_error")
    || str_eq f.orig_code (text "model_not_found")
    || contains (to_lower f.message) (text "model_not_found")

-- The request itself is at fault.
unfoldable pub is_bad_request : Failure → Bool
is_bad_request f =
    str_eq (orig_type_of f) (text "invalid_request_error")
    || str_eq (orig_type_of f) (text "request_too_large")
    || orig_status_of f == 413

-- The original model refused, or its stream was cut.
unfoldable pub is_refusal : Failure → Bool
is_refusal f =
    str_eq f.code refusal_fallback_code
    || str_eq f.code (text "sse_stream_disconnect")
    || is_model_safeguard_refusal f

-- `claudeFallbackAction`.
unfoldable pub claude_fallback_action : Failure → Disposition
claude_fallback_action f =
    if is_claude_fallback_account_error f
    then fallback_stop
    else if is_refusal f
    then fallback_next
    else if str_eq (orig_type_of f) (text "rate_limit_error")
    then fallback_original
    else if is_missing_model f
    then fallback_next
    else if is_bad_request f
    then fallback_stop
    else if orig_status_of f == 429 || str_eq f.code (text "spool_error")
    then fallback_original
    else if f.transient
    then fallback_next
    else fallback_stop

-- What `loadClaudeRefusalFallbacks` returns: the models, or the error of a removed setting or of
-- an entry that names no Claude model.
pub data Loaded : Type 0 where
  models : List Text → Loaded
  removed_setting : Loaded
  not_claude : Text → Loaded

-- The loop over the entries; `unique` are the models so far.
pub load_entries : List Text → List Text → Loaded
load_entries unique [] = models unique
load_entries unique (entry ∷ entries) =
    let model = trim_space entry in
    let same = load_entries unique entries in
    let more = load_entries (unique ++ model ∷ []) entries in
    if not (is_claude_model model)
    then not_claude model
    else if member model unique
    then same
    else more

abbrev pub default_models : List Text
default_models =
    text "claude-fable-latest" ∷ text "claude-opus-latest" ∷ text "claude-sonnet-latest" ∷ []

module _ (equal_fold : Text → Text → Bool) where
  load_value : Text → Loaded
  unfolding load_entries
  load_value v =
      if is_nil v
        || equal_fold v (text "off")
        || equal_fold v (text "none")
        || equal_fold v (text "disabled")
      then models []
      else load_entries [] (split_at b',' v)

  -- The removed setting, then the present one.
  load_from : Option Text → Option Text → Loaded
  unfolding load_value
  load_from (some v) new = removed_setting
  load_from none none = models default_models
  load_from none (some v) = load_value (trim_space v)

  -- `loadClaudeRefusalFallbacks`.
  unfoldable pub load_claude_refusal_fallbacks : (Text → Option Text) → Loaded
  unfolding load_from
  load_claude_refusal_fallbacks lookup =
      load_from (lookup (text "PROXY_REFUSAL_FALLBACK_MODEL"))
        (lookup (text "PROXY_CLAUDE_REFUSAL_FALLBACK_MODELS"))

-- `nextFallback`: the rest of the list from the index on, up to the first model that is not the
-- client's own; the index moves there.
unfoldable pub next_fallback : Text → List Text → ℕ → ℕ × Option Text
next_fallback first [] i = (i, none)
next_fallback first (m ∷ ms) i =
    let rest = next_fallback first ms (suc i) in if str_eq m first then rest else (i, some m)
