-- ===== src/Failure.antt =====
-- The `failure` of classify.go, HTTP headers, and the readings of a failure that the handler logs
-- and surfaces. An HTTP status is a natural number; 0 stands for none, as in the source.
use steady_proxy.Base.{
  ℕ, Bool, false, not, ◌||◌, List, [], ◌∷◌, ◌++◌, Option, none, Text, text, is_nil, any, str_eq,
  contains, ◌==◌, if◌then◌else◌, pos,
}
use steady_proxy.Number.{itoa}

-- `http.Header`: canonical keys with their values.
abbrev pub Header : Type 0
Header = List (Text × List Text)

first_value : List Text → Text
first_value [] = []
first_value (v ∷ vs) = v

-- `Header.Get` at a canonical key: the first value, or the empty text.
unfoldable pub get : Header → Text → Text
unfolding first_value
get [] key = []
get ((k, vs) ∷ h) key = if str_eq k key then first_value vs else get h key

-- `upstreamReply`.
pub record UpstreamReply : Type 0 where
  pub status : ℕ
  pub header : Header
  pub body : Text

-- `failure`.
pub record Failure : Type 0 where
  pub transient : Bool
  pub fast_retry : Bool
  pub delivered : Bool
  pub status : ℕ
  pub orig_status : ℕ
  pub atype : Text
  pub code : Text
  pub orig_type : Text
  pub orig_code : Text
  pub message : Text
  pub retry_after : ℕ
  pub upstream : Option UpstreamReply

-- The zero value.
abbrev pub zero_failure : Failure
zero_failure = record {
  transient = false;
  fast_retry = false;
  delivered = false;
  status = 0;
  orig_status = 0;
  atype = [];
  code = [];
  orig_type = [];
  orig_code = [];
  message = [];
  retry_after = 0;
  upstream = none;
}

-- `statusFor`.
unfoldable pub status_for : Failure → ℕ
status_for f = if f.status == 0 then 502 else f.status

-- `msgFor`.
pub msg_for : Failure → Text
msg_for f =
    if is_nil f.message
    then text "steady-proxy" ++ text ": upstream failure"
    else text "steady-proxy" ++ (text ": " ++ f.message)

-- `statusField`.
pub status_field : ℕ → ℕ → Text
status_field orig surfaced =
    if surfaced == 0 || orig == surfaced
    then itoa (pos orig)
    else itoa (pos orig) ++ (text "->" ++ itoa (pos surfaced))

-- `origStatusOf`.
unfoldable pub orig_status_of : Failure → ℕ
unfolding status_for
orig_status_of f = if not (f.orig_status == 0) then f.orig_status else status_for f

-- `origTypeOf`.
unfoldable pub orig_type_of : Failure → Text
orig_type_of f = if not (is_nil f.orig_type) then f.orig_type else f.atype

-- `anyContains`.
unfoldable pub any_contains : Text → List Text → Bool
any_contains s subs = any (contains s) subs
