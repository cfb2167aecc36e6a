-- ===== src/Archive/Redact.antt =====
-- What the archive hides of a request: `maskHeadersWithNames`, `redactQueryWithNames` and the two
-- that write URLs (requestlog.go). The values of headers are bytes, the texts of a URL are code
-- points. net/url is a parameter.
pub mod Secrecy
use steady_proxy.Base.{
  ℕ, ◌-◌, Bool, true, false, ◌&&◌, List, [], ◌∷◌, ◌++◌, map, Option, none, some, Text, text, is_nil,
  length, drop, cut, to_lower, trim_slashes, leb, ◌==◌, if◌then◌else◌, any,
}
use steady_proxy.Failure.{Header}
use steady_proxy.Headers.{member, split_at}

-- `apiSecretHeaders`.
abbrev api_secret_headers : List Text
api_secret_headers =
    text "authorization"
    ∷ text "x-api-key"
    ∷ text "api-key"
    ∷ text "x-stainless-api-key"
    ∷ text "anthropic-api-key"
    ∷ text "openai-api-key"
    ∷ text "x-goog-api-key"
    ∷ text "proxy-authorization"
    ∷ []

unfoldable pub is_secret_header : Text → Bool
is_secret_header k = member (to_lower k) api_secret_headers

-- `maskHeader`, at a key that is secret or not.
unfoldable pub mask_header : Text → Text → Text
unfolding is_secret_header
mask_header name value =
    if is_secret_header name
    then (if leb 8 (length value)
        then text "***redacted (..." ++ (drop (length value - 4) value ++ text ")***")
        else text "***redacted***")
    else value

-- The entry of a secret header; `Add` makes none where there is no value.
masked_onto : Text → List Text → Header → Header
masked_onto k [] h = h
masked_onto k (v ∷ vs) h = (k, v ∷ vs) ∷ h

-- `maskHeadersWithNames`; the keys are canonical.
unfoldable pub mask_headers_with_names : Header → Header × List Text
unfolding masked_onto
mask_headers_with_names [] = ([], [])
mask_headers_with_names ((k, vs) ∷ h) =
    let (out, redacted) = mask_headers_with_names h in
    if is_secret_header k
    then (masked_onto k (map (mask_header k) vs) out, k ∷ redacted)
    else ((k, vs) ∷ out, redacted)

-- `maskHeaders`.
pub mask_headers : Header → Header
mask_headers h = (mask_headers_with_names h).0

-- `apiSecretQueryNames`.
abbrev api_secret_query_names : List Text
api_secret_query_names =
    text "api_key"
    ∷ text "apikey"
    ∷ text "api-key"
    ∷ text "api_secret"
    ∷ text "apisecret"
    ∷ text "api-secret"
    ∷ text "api_token"
    ∷ text "apitoken"
    ∷ text "api-token"
    ∷ text "key"
    ∷ text "x-api-key"
    ∷ text "x_api_key"
    ∷ text "anthropic_api_key"
    ∷ text "anthropic-api-key"
    ∷ text "openai_api_key"
    ∷ text "openai-api-key"
    ∷ text "x-goog-api-key"
    ∷ text "x_goog_api_key"
    ∷ text "access_token"
    ∷ text "accesstoken"
    ∷ text "access-token"
    ∷ text "refresh_token"
    ∷ text "refreshtoken"
    ∷ text "refresh-token"
    ∷ text "id_token"
    ∷ text "idtoken"
    ∷ text "id-token"
    ∷ text "auth_token"
    ∷ text "authtoken"
    ∷ text "auth-token"
    ∷ text "bearer_token"
    ∷ text "bearertoken"
    ∷ text "bearer-token"
    ∷ text "client_secret"
    ∷ text "clientsecret"
    ∷ text "client-secret"
    ∷ text "authorization"
    ∷ []

unfoldable pub is_secret_name : Text → Bool
is_secret_name name = member (to_lower name) api_secret_query_names

-- `strings.Join`.
unfoldable pub join : Text → List Text → Text
join sep [] = []
join sep (s ∷ []) = s
join sep (s ∷ t ∷ ss) = s ++ (sep ++ join sep (t ∷ ss))

-- The name of a part, which ends at its first `=`.
unfoldable pub name_part : Text → Text
name_part part = elim (cut part (text "=")) [ some (name, value) ↦ name | none ↦ part ]

unfoldable pub redacted_part : Text → Text
redacted_part part = elim (cut part (text "=")) [
  | some (name, value) ↦ (name ++ text "=") ++ text "REDACTED"
  | none ↦ part ++ text "=REDACTED"
]

-- A parsed URL: its user, and its text by its user.
pub record Url : Type 0 where
  pub user : Option Text
  pub print_with : Option Text → Text

-- What the archive takes from net/url and from sort: `url.QueryUnescape`, `url.Parse`,
-- `URL.EscapedPath` and `sort.Strings`.
pub record UrlLib : Type 0 where
  pub query_unescape : Text → Option Text
  pub parse_url : Text → Option Url
  pub escaped_path : Text → Text
  pub sort_strings : List Text → List Text

pub masked_user : Option Text → Option Text
masked_user none = none
masked_user (some u) = some (text "***redacted***")

module _ (lib : UrlLib) where
  -- The loop over the parts: what they become and the names that are redacted.
  unfoldable pub redact_parts : List Text → Option (List Text × List Text)
  redact_parts [] = some ([], [])
  redact_parts (part ∷ parts) = elim (lib.query_unescape (name_part part)) [
    | none ↦ none
    | some name ↦ elim (redact_parts parts) [
      | none ↦ none
      | some (out, names) ↦
          if is_secret_name name
          then some (redacted_part part ∷ out, name ∷ names)
          else some (part ∷ out, names)
    ]
  ]

  rejoined : Text → Option (List Text × List Text) → Text × List Text
  rejoined raw none = (text "[redacted: unparseable query]", text "*" ∷ [])
  rejoined raw (some (parts, names)) =
      if is_nil names then (raw, []) else (join (text "&") parts, names)

  -- `redactQueryWithNames`.
  unfoldable pub redact_query_with_names : Text → Text × List Text
  unfolding rejoined
  redact_query_with_names raw =
      if is_nil raw then ([], []) else rejoined raw (redact_parts (split_at b'&' raw))

  -- `redactedUpstreamURL`, by the setting of the upstream.
  unfoldable pub redacted_upstream_url : Text → Text → Text → Text
  unfolding masked_user
  redacted_upstream_url upstream path raw_query = elim (lib.parse_url upstream) [
    | none ↦ text "[redacted: invalid upstream URL]"
    | some u ↦
        trim_slashes (u.print_with (masked_user u.user))
        ++ (lib.escaped_path path
            ++ (if is_nil raw_query then [] else text "?" ++ (redact_query_with_names raw_query).0))
  ]

  -- A raw URI with its query redacted.
  requery : Text → Text → Text → Text
  requery raw_uri path query = elim (cut raw_uri (text "?")) [
    | some (before, after) ↦ before ++ (text "?" ++ query)
    | none ↦ path ++ (text "?" ++ query)
  ]

  -- `redactedRequestURI`.
  unfoldable pub redacted_request_uri : Text → Text → Text → Text
  unfolding requery
  redacted_request_uri raw_uri path raw_query =
      if is_nil raw_uri
      then (if is_nil raw_query
          then path
          else path ++ (text "?" ++ (redact_query_with_names raw_query).0))
      else if is_nil raw_query
      then raw_uri
      else if is_nil (redact_query_with_names raw_query).1
      then raw_uri
      else requery raw_uri path (redact_query_with_names raw_query).0
