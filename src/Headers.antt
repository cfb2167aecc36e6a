-- ===== src/Headers.antt =====
-- The headers that pass the proxy: main.go, "headers". A header map is a list of keys with their
-- values; the source's loop over a Go map goes through the same entries in no fixed order.
pub mod EndToEnd
use steady_proxy.Base.{
  ℕ, Bool, true, false, not, ◌&&◌, ◌||◌, List, [], ◌∷◌, ◌++◌, map, Text, text, is_nil, any, concat,
  str_eq, to_lower, trim_space, ◌==◌, if◌then◌else◌,
}
use steady_proxy.Failure.{Header}

-- `strings.Split v ","`.
unfoldable pub cons_to_first : ℕ → List Text → List Text
cons_to_first c [] = (c ∷ []) ∷ []
cons_to_first c (s ∷ ss) = (c ∷ s) ∷ ss

unfoldable pub split_at : ℕ → Text → List Text
unfolding cons_to_first
split_at b [] = [] ∷ []
split_at b (c ∷ s) = let rest = split_at b s in if c == b then [] ∷ rest else cons_to_first c rest

unfoldable pub member : Text → List Text → Bool
member t = any (str_eq t)

-- `hopByHop`.
hop_by_hop : List Text
hop_by_hop =
    text "connection"
    ∷ text "proxy-connection"
    ∷ text "keep-alive"
    ∷ text "transfer-encoding"
    ∷ text "te"
    ∷ text "trailer"
    ∷ text "upgrade"
    ∷ text "proxy-authorization"
    ∷ text "proxy-authenticate"
    ∷ []

-- `stripFromClient`.
strip_from_client : List Text
strip_from_client =
    text "x-gateway-error-stage" ∷ text "x-gateway-error-code" ∷ text "x-gateway-retryable" ∷ []

-- `Header.Values` at a canonical key.
values : Header → Text → List Text
values [] key = []
values ((k, vs) ∷ h) key = if str_eq k key then vs else values h key

named : List Text → List Text
named [] = []
named (t ∷ ts) =
    let rest = named ts in
    let name = to_lower (trim_space t) in if is_nil name then rest else name ∷ rest

-- `connectionTokens`.
unfoldable pub connection_tokens : Header → List Text
unfolding named values split_at
connection_tokens h = named (concat (map (split_at b',') (values h (text "Connection"))))

-- The entries that pass a test on the lowered key.
unfoldable pub keep : (Text → Bool) → Header → Header
keep p [] = []
keep p ((k, vs) ∷ h) = let rest = keep p h in if p (to_lower k) then (k, vs) ∷ rest else rest

pub forwards : List Text → Text → Bool
unfolding member hop_by_hop strip_from_client
forwards drop k = not (
    member k hop_by_hop
    || member k strip_from_client
    || member k drop
    || str_eq k (text "host")
    || str_eq k (text "content-length"))

-- `copyForwardHeaders` into an empty map.
unfoldable pub copy_forward_headers : Header → Header
copy_forward_headers src = keep (forwards (connection_tokens src)) src

pub returns : List Text → Bool → Text → Bool
unfolding member hop_by_hop
returns drop preserve_length k = not (
    member k hop_by_hop
    || member k drop
    || (str_eq k (text "content-length") && not preserve_length))

-- `safeResponseHeaders`.
unfoldable pub safe_response_headers : Header → Bool → Header
safe_response_headers src preserve_length =
    keep (returns (connection_tokens src) preserve_length) src

-- `Header.Set`, with the lowered key of the entries that it replaces.
unfoldable pub set_header : Text → Text → Text → Header → Header
set_header key low v h = (key, v ∷ []) ∷ keep (λ k. not (str_eq k low)) h

-- The headers of the upstream request, as `roundTrip` sets them.
unfoldable pub upstream_headers : Header → Header
unfolding set_header
upstream_headers src =
    set_header (text "Accept-Encoding") (text "accept-encoding") (text "identity")
      (copy_forward_headers src)
