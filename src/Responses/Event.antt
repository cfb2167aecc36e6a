-- ===== src/Responses/Event.antt =====
-- How responses.go reads the JSON of an event: the envelope, its type, a terminal snapshot and the
-- two forms of an error.
use steady_proxy.Base.{
  Bool, true, false, not, ◌&&◌, ◌||◌, List, [], ◌∷◌, Option, none, some, Text, text, is_nil, str_eq,
  trim_space, has_prefix, if◌then◌else◌,
}
use steady_proxy.Headers.{member}
use steady_proxy.Json.{
  Value, scalar, array, object, Items, no_items, item, Fields, no_fields, field, JsonLib, lookup,
  put, or_empty,
}
use steady_proxy.Responses.Unicode.{valid_responses_json_unicode}
use steady_proxy.Sse.Parser.{Event}

-- A key of an object is there.
abbrev has_key : Text → Fields → Bool
has_key k no_fields = false
has_key k (field n v fs) = str_eq n k || has_key k fs

-- `consumeUniqueResponsesJSONValue`: no object holds a key twice, at any depth.
unfoldable mutual
  pub unique_value : Value → Bool
  unique_value scalar = true
  unique_value (array xs) = unique_items xs
  unique_value (object fs) = unique_fields fs

  pub unique_items : Items → Bool
  unique_items no_items = true
  unique_items (item v xs) = unique_value v && unique_items xs

  pub unique_fields : Fields → Bool
  unique_fields no_fields = true
  unique_fields (field k v fs) = not (has_key k fs) && unique_value v && unique_fields fs

-- The fields that Codex knows: these may not stand twice in an envelope.
known_field : Text → Bool
unfolding member
known_field k = member k (
    text "type"
    ∷ text "headers"
    ∷ text "metadata"
    ∷ text "response"
    ∷ text "error"
    ∷ text "item"
    ∷ text "item_id"
    ∷ text "call_id"
    ∷ text "delta"
    ∷ text "text"
    ∷ text "summary_index"
    ∷ text "content_index"
    ∷ text "safety_buffering"
    ∷ [])

abbrev is_there : Option Text → Bool
is_there none = false
is_there (some v) = true

module _ (json : JsonLib) where
  -- `uniqueResponsesJSONValue`.
  unfoldable pub unique_responses_json_value : Text → Bool
  unique_responses_json_value s = elim (json.shape s) [ none ↦ false | some v ↦ unique_value v ]

  -- The loop of `decodeResponsesObject` over the entries.
  decode_entries : Bool → List (Text × Text) → List (Text × Text) → Option (List (Text × Text))
  unfolding known_field
  decode_entries unique_nested fields [] = some fields
  decode_entries unique_nested fields ((k, v) ∷ es) =
      let rest = decode_entries unique_nested (put k v fields) es in
      let duplicate = is_there (lookup k fields) in
      if duplicate && (unique_nested || known_field k)
      then none
      else if unique_nested && not (unique_responses_json_value v)
      then none
      else rest

  -- `decodeResponsesObject`.
  unfoldable pub decode_responses_object : Text → Bool → Option (List (Text × Text))
  unfolding decode_entries
  decode_responses_object s unique_nested =
      let read : Option (List (Text × Text)) = elim (json.entries s) [
        | none ↦ none
        | some es ↦ decode_entries unique_nested [] es
      ] in
      if valid_responses_json_unicode json s then read else none

  -- `responsesObject`; empty for what is no object.
  unfoldable pub responses_object : Text → List (Text × Text)
  responses_object raw = elim (json.as_map raw) [ none ↦ [] | some m ↦ m ]

  -- `responsesString`.
  unfoldable pub responses_string : Text → Text
  responses_string raw = elim (json.as_string raw) [ some (some s) ↦ s | _ ↦ [] ]

  -- `m[k]`.
  abbrev pub at_key : Text → List (Text × Text) → Text
  at_key k m = or_empty (lookup k m)

  -- `responsesRequiredInteger`.
  unfoldable pub responses_required_integer : Text → Bool
  responses_required_integer raw = elim (json.as_int raw) [ some (some n) ↦ true | _ ↦ false ]

  -- An optional field of a type that Codex wants: absent, null or of that type.
  optional_string : List (Text × Text) → Text → Bool
  optional_string m k = elim (lookup k m) [
    | none ↦ true
    | some raw ↦ elim (json.as_string raw) [ none ↦ false | some s ↦ true ]
  ]

  optional_int : List (Text × Text) → Text → Bool
  optional_int m k = elim (lookup k m) [
    | none ↦ true
    | some raw ↦ elim (json.as_int raw) [ none ↦ false | some s ↦ true ]
  ]

  typed_envelope : List (Text × Text) → Bool
  unfolding optional_string optional_int
  typed_envelope m =
      optional_string m (text "item_id")
      && optional_string m (text "call_id")
      && optional_string m (text "delta")
      && optional_string m (text "text")
      && optional_int m (text "summary_index")
      && optional_int m (text "content_index")

  -- `responsesEventType`; the empty text for a frame that Codex skips.
  unfoldable pub responses_event_type : Event → Text
  unfolding typed_envelope
  responses_event_type ev = elim (decode_responses_object ev.data_text false) [
    | none ↦ []
    | some m ↦ if typed_envelope m then responses_string (at_key (text "type") m) else []
  ]

  -- A value that is absent or null.
  unset : Text → Bool
  unset raw = is_nil raw || str_eq raw (text "null")

  valid_detail : List (Text × Text) → Text → Text → Bool
  unfolding unset
  valid_detail usage k f =
      let raw = at_key k usage in
      unset raw || responses_required_integer (at_key f (responses_object raw))

  valid_usage : List (Text × Text) → Bool
  unfolding valid_detail
  valid_usage usage =
      responses_required_integer (at_key (text "input_tokens") usage)
      && responses_required_integer (at_key (text "output_tokens") usage)
      && responses_required_integer (at_key (text "total_tokens") usage)
      && valid_detail usage (text "input_tokens_details") (text "cached_tokens")
      && valid_detail usage (text "output_tokens_details") (text "reasoning_tokens")

  -- `responsesCompletedValid`.
  unfoldable pub responses_completed_valid : Event → Bool
  unfolding valid_usage unset
  responses_completed_valid ev = elim (decode_responses_object ev.data_text false) [
    | none ↦ false
    | some m ↦
        let raw = at_key (text "response") m in
        let response = responses_object raw in
        let usage = at_key (text "usage") response in
        unique_responses_json_value raw
        && not (is_nil (responses_string (at_key (text "id") response)))
        && (unset usage || valid_usage (responses_object usage))
  ]

  -- `responsesTerminalValid`.
  unfoldable pub responses_terminal_valid : Event → Text → Bool
  responses_terminal_valid ev t =
      let response = responses_object (at_key (text "response") (responses_object ev.data_text)) in
      let details = responses_object (at_key (text "incomplete_details") response) in
      let interrupted =
        str_eq (responses_string (at_key (text "reason") details)) (text "interrupted") in
      if str_eq t (text "response.incomplete") && not interrupted
      then true
      else responses_completed_valid ev

  -- `firstNonEmpty`.
  first_non_empty : Text → Text → Text
  first_non_empty a b = if is_nil a then b else a

  -- `parseResponsesError`: type, code and message.
  unfoldable pub parse_responses_error : Event → Text → Text × Text × Text
  unfolding first_non_empty
  parse_responses_error ev t =
      let top = responses_object ev.data_text in
      let is_failed = str_eq t (text "response.failed") in
      let m = if is_failed then responses_object (at_key (text "response") top) else top in
      let e = responses_object (at_key (text "error") m) in
      let code = responses_string (at_key (text "code") e) in
      let msg = responses_string (at_key (text "message") e) in
      (
        responses_string (at_key (text "type") e),
        if is_failed
            then code
            else first_non_empty code (responses_string (at_key (text "code") m)),
        if is_failed
            then msg
            else first_non_empty msg (responses_string (at_key (text "message") m)),
      )

-- `isResponsesErrorFrame`.
unfoldable pub is_responses_error_frame : Text → Bool
is_responses_error_frame t = str_eq t (text "error") || str_eq t (text "response.failed")

-- `strings.HasSuffix`.
has_suffix : Text → Text → Bool
has_suffix [] p = is_nil p
has_suffix (c ∷ s) p = str_eq (c ∷ s) p || has_suffix s p

-- `isResponsesOutputEvent`.
pub is_responses_output_event : Text → Bool
unfolding has_suffix
is_responses_output_event t =
    has_prefix t (text "response.output_item")
    || has_prefix t (text "response.content_part")
    || has_prefix t (text "response.output_text")
    || has_prefix t (text "response.output_audio")
    || has_prefix t (text "response.function_call")
    || has_prefix t (text "response.custom_tool_call")
    || has_prefix t (text "response.reasoning")
    || has_prefix t (text "response.refusal")
    || has_prefix t (text "response.") && has_suffix t (text ".delta")

-- `isCodexRecoverableError`.
unfoldable pub is_codex_recoverable_error : Text → Bool
is_codex_recoverable_error code = str_eq (trim_space code) (text "context_length_exceeded")
