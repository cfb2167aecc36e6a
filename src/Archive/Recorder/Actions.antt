-- ===== src/Archive/Recorder/Actions.antt =====
-- What happens to the recorder of a request (requestlog.go), as steps on it.
use steady_proxy.Base.{ℕ, List, [], ◌∷◌, ◌++◌, Option, Text}
use steady_proxy.Config.{Config}
use steady_proxy.Failure.{Failure, Header}
use steady_proxy.Sse.Wire.{CaptureStats, ReadError}
use steady_proxy.AccessLog.{BodyLib}
use steady_proxy.Archive.Capture.{TempFiles}
use steady_proxy.Archive.Recorder.{
  Recorder, begin_attempt, finish_current_attempt, note_attempt_response_headers, write_response,
  note_response_read_error, note_attempt_failure, note_attempt_result, note_attempt_retry,
  note_attempt_stats, note_delivered_answer, note_proxy_retries, note_model_swap, note,
}

-- What the handler does with the recorder of a request, in any order.
pub data Action : Type 0 where
  began : ℕ → Text → Text → ℕ → Action
  finished : ℕ → Action
  headers : ℕ → Header → Action
  wrote : Text → Action
  read_error : Option ReadError → Action
  failed : Failure → Text → Action
  result : Text → Action
  retry : Text → ℕ → Action
  stats : CaptureStats → Action
  delivered : Text → Option CaptureStats → Action
  retries : ℕ → Action
  swapped : Text → Text → Text → Action
  noted : Text → ℕ → ℕ → Text → Action

-- The bodies of the attempts that are begun.
abbrev pub body_of : Action → List Text
body_of (began now body req_who n) = body ∷ []
body_of _ = []

abbrev pub bodies : List Action → List Text
bodies [] = []
bodies (a ∷ acts) = body_of a ++ bodies acts

module _ (cfg : Config) (files : TempFiles) (digest : Text → Text) (lib : BodyLib) where
  unfoldable pub step : Action → Recorder → Recorder
  step (began now body req_who n) = begin_attempt digest lib now body req_who n
  step (finished now) = finish_current_attempt digest now
  step (headers st h) = note_attempt_response_headers st h
  step (wrote p) = write_response cfg files p
  step (read_error e) = note_response_read_error e
  step (failed f t) = note_attempt_failure f t
  step (result t) = note_attempt_result t
  step (retry t wait) = note_attempt_retry t wait
  step (stats st) = note_attempt_stats st
  step (delivered who st) = note_delivered_answer who st
  step (retries n) = note_proxy_retries n
  step (swapped reason from to) = note_model_swap reason from to
  step (noted outcome orig surfaced code) = note outcome orig surfaced code

  unfoldable pub run : List Action → Recorder → Recorder
  run [] rec = rec
  run (a ∷ acts) rec = run acts (step a rec)
