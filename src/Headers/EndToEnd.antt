-- ===== src/Headers/EndToEnd.antt =====
-- Which headers pass.
use steady_proxy.Base.{
  Bool, not, ◌||◌, List, [], ◌∷◌, ◌++◌, any-append, ◌≡◌, refl, arith, Text, text, str_eq,
  str_eq_iff, str_eq_comm, to_lower, if◌then◌else◌,
}
use steady_proxy.Failure.{Header, get}
use steady_proxy.Headers.{
  connection_tokens, keep, forwards, member, hop_by_hop, strip_from_client, copy_forward_headers,
  upstream_headers,
}

-- A header stands in a map with a value list that is read first.
get-keep :
    (p : Text → Bool) (h : Header) (k : Text)
    → get (keep p h) k ≡ (if p (to_lower k) then get h k else [])
unfolding keep get
get-keep p [] k = ground arith
get-keep p ((j, vs) ∷ h) k = ground (arith, str_eq_iff j k, get-keep p h k)

-- The headers that end at the proxy: the hop-by-hop ones of HTTP, those that a gateway speaks to the
-- proxy with, and two that the upstream request sets itself.
pub proxy_owned : List Text
proxy_owned =
    text "connection"
    ∷ text "proxy-connection"
    ∷ text "keep-alive"
    ∷ text "transfer-encoding"
    ∷ text "te"
    ∷ text "trailer"
    ∷ text "upgrade"
    ∷ text "proxy-authorization"
    ∷ text "proxy-authenticate"
    ∷ text "x-gateway-error-stage"
    ∷ text "x-gateway-error-code"
    ∷ text "x-gateway-retryable"
    ∷ text "host"
    ∷ text "content-length"
    ∷ []

proxy_owned_split :
    proxy_owned ≡ hop_by_hop ++ (strip_from_client ++ (text "host" ∷ text "content-length" ∷ []))
unfolding proxy_owned hop_by_hop strip_from_client
proxy_owned_split = refl

forwards_lem :
    (drop : List Text) (k : Text) → forwards drop k ≡ not (member k drop || member k proxy_owned)
unfolding forwards
forwards_lem drop k = rw proxy_owned_split (
    ground (
      arith,
      any-append (str_eq k) hop_by_hop
          (strip_from_client ++ (text "host" ∷ text "content-length" ∷ [])),
      any-append (str_eq k) strip_from_client (text "host" ∷ text "content-length" ∷ []),
    ))

copy_forward_headers-get :
    (src : Header) (k : Text)
    → get (copy_forward_headers src) k ≡ (
        if member (to_lower k) (connection_tokens src) || member (to_lower k) proxy_owned
        then []
        else get src k)
unfolding copy_forward_headers
copy_forward_headers-get src k =
    let drop = connection_tokens src in
    ground (arith, get-keep (forwards drop) src k, forwards_lem drop (to_lower k))

-- Read upstream, `Accept-Encoding` is `identity`; a header is empty if the client's `Connection`
-- header names it or if it is one of those that end at the proxy, the verdict that a gateway gives
-- among them, or an `Accept-Encoding` of the client; any other header is read as the client sent it.
pub upstream_headers-get :
    (src : Header) (k : Text)
    → get (upstream_headers src) k ≡ (
        if str_eq k (text "Accept-Encoding")
        then text "identity"
        else if str_eq (to_lower k) (text "accept-encoding")
            || member (to_lower k) (connection_tokens src)
            || member (to_lower k) proxy_owned
        then []
        else get src k)
unfolding upstream_headers get
upstream_headers-get src k = ground (
  arith,
  str_eq_comm (text "Accept-Encoding") k,
  get-keep (λ j. not (str_eq j (text "accept-encoding"))) (copy_forward_headers src) k,
  copy_forward_headers-get src k,
)
