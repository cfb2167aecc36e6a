-- ===== src/Handler/Reading.antt =====
-- How bodies are read (main.go): `readBody`, `prefixCapture`, `readHTTPErrorBody`, `spoolSink` and
-- `bufferNonSSE`. A body is the pieces that its reads yield, and then its end or an error.
pub mod Agreement
use steady_proxy.Base.{
  ℕ, zero, suc, ◌+◌, ◌-◌, ◌^◌, Bool, true, false, not, ◌&&◌, List, [], ◌∷◌, ◌++◌, concat, Option,
  none, some, ℤ, pos, Text, text, length, take, leb, ltb, ◌==◌, if◌then◌else◌, ◌⊎◌, inl, inr,
  pos_part,
}
use steady_proxy.Config.{Config}
use steady_proxy.Failure.{Failure, zero_failure}
use steady_proxy.Sse.Spool.{Spool, new_spool, write, WriteError, no_error, too_large, disk_fault}

-- A body as its reader meets it; `fault` is none where it ends with EOF.
pub record Stream : Type 0 where
  pub pieces : List Text
  pub fault : Option Text

-- What `readBody` returns.
pub data BodyRead : Type 0 where
  read_whole : Text → BodyRead
  too_big : BodyRead
  read_failed : Text → BodyRead

ended : Text → Option Text → BodyRead
ended body none = read_whole body
ended body (some err) = read_failed err

-- `ReadAll` of a `MaxBytesReader`: a byte behind the limit is an error.
read_capped : ℕ → Text → List Text → Option Text → BodyRead
unfolding ended
read_capped limit held [] fault = ended held fault
read_capped limit held (p ∷ ps) fault =
    let rest = read_capped limit (held ++ p) ps fault in
    if ltb limit (length held + length p) then too_big else rest

-- `readBody`, by the limit, the declared length (none for -1) and the body.
unfoldable pub read_body : ℕ → Option ℕ → Stream → BodyRead
unfolding read_capped
read_body limit none s = read_capped limit [] s.pieces s.fault
read_body limit (some n) s = if ltb limit n then too_big else read_capped limit [] s.pieces s.fault

-- `httpErrorBodyBytes`.
unfoldable pub http_error_body_bytes : ℕ
http_error_body_bytes = 2 ^ 20

-- `ReadAll` of a `LimitReader`: it stops where the limit is met, and asks for no more.
unfoldable pub read_limited : ℕ → List Text → Option Text → Text × Option Text
read_limited room [] fault = ([], if room == 0 then none else fault)
read_limited room (p ∷ ps) fault =
    let rest = read_limited (room - length p) ps fault in
    if leb room (length p) then (take room p, none) else (p ++ rest.0, rest.1)

-- `prefixCapture.Write`.
unfoldable pub prefix_write : ℕ → Text → Text → Text
prefix_write max buf b =
    let room = max - length buf in
    if ltb 0 room then (if leb (length b) room then buf ++ b else buf ++ take room b) else buf

-- `io.Copy` to the prefix.
unfoldable pub copy_prefix : ℕ → Text → List Text → Text
copy_prefix max buf [] = buf
copy_prefix max buf (p ∷ ps) = copy_prefix max (prefix_write max buf p) ps

-- What `readHTTPErrorBody` returns.
pub record ErrorBody : Type 0 where
  pub bytes : Text
  pub complete : Bool
  pub fault : Option Text

-- `readHTTPErrorBody`, with a limit, without an archive.
unfoldable pub read_bounded : ℕ → Stream → ErrorBody
read_bounded max s =
    let (b, err) = read_limited (suc max) s.pieces s.fault in
    if ltb max (length b)
    then record { bytes = take max b; complete = false; fault = err }
    else record { bytes = b; complete = true; fault = err }

-- So too with an archive, which takes the whole body.
unfoldable pub read_archived : ℕ → Stream → ErrorBody
read_archived max s = record {
  bytes = copy_prefix max [] s.pieces;
  complete = leb (length (concat s.pieces)) max;
  fault = s.fault;
}

-- `readHTTPErrorBody`, by whether the request is archived.
unfoldable pub read_http_error_body : Bool → Stream → ErrorBody
read_http_error_body archived s =
    if archived then read_archived http_error_body_bytes s else read_bounded http_error_body_bytes s

-- Why `bufferNonSSE` fails: its spool, the idle timer while the request goes on, or the upstream.
pub data BufferFault : Type 0 where
  spool_fault : WriteError → BufferFault
  idle_fault : BufferFault
  read_fault : Text → BufferFault

module _ (cfg : Config) (disk : Text → Text → Option Text) where
  -- The copy into a `spoolSink`, which keeps the error of its spool.
  copy_spool : Spool → List Text → Spool × WriteError
  copy_spool sp [] = (sp, no_error)
  copy_spool sp (p ∷ ps) =
      let (next, err) = write cfg disk sp p in
      let rest = copy_spool next ps in
      elim err [
        | no_error ↦ rest
        | too_large ↦ (next, too_large)
        | disk_fault m ↦ (next, disk_fault m)
      ]

  of_end : Bool → Spool → Option Text → Spool ⊎ BufferFault
  of_end idle sp none = inl sp
  of_end idle sp (some err) = inr (if idle then idle_fault else read_fault err)

  -- `bufferNonSSE`; `idle` is that the idle timer has fired and the request goes on.
  unfoldable pub buffer_non_sse : Bool → Stream → Spool ⊎ BufferFault
  unfolding copy_spool of_end
  buffer_non_sse idle s =
      let (sp, err) = copy_spool new_spool s.pieces in
      elim err [
        | no_error ↦ of_end idle sp s.fault
        | too_large ↦ inr (spool_fault too_large)
        | disk_fault m ↦ inr (spool_fault (disk_fault m))
      ]

-- The failure of a stalled upstream.
pub upstream_idle : Failure
upstream_idle = record zero_failure {
  transient = true;
  status = 504;
  atype = text "timeout_error";
  code = text "upstream_idle";
  message = text "upstream stalled with no bytes";
}
