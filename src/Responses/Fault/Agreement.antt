-- ===== src/Responses/Fault/Agreement.antt =====
-- One error has one verdict, in-band and over HTTP.
use steady_proxy.Base.{ℕ, true, false, ◌||◌, Text, to_lower, ltb, leb, ◌==◌, ◌≡◌, arith}
use steady_proxy.Classify.Http.{Verdict, unknown, transient, permanent}
use steady_proxy.Failure.{Failure}
use steady_proxy.Responses.Fault.{
  Fault, fault_rejected, responses_ident, responses_rejected_status, fault_of_type,
  responses_fault_of, verdict_of, responses_error_verdict, failure_of, classify_responses_error,
}

-- A fault that rejects the caller names its status.
abbrev Named : Text → Fault → Type 0
Named t fault_rejected = ltb 400 (responses_rejected_status t) ≡ true
Named t _ = Unit

fault_of_type-Named : (t msg : Text) → Named t (fault_of_type t msg)
unfolding fault_of_type responses_rejected_status
fault_of_type-Named t msg = ground arith

responses_fault_of-Named : (t c msg : Text) → Named t (responses_fault_of t c msg)
unfolding responses_fault_of
responses_fault_of-Named t c msg = ground (arith, fault_of_type-Named t msg)

-- What the two classifiers make of one error: over HTTP no verdict against what the stream's
-- classifier says, and in the stream a status that fits.
abbrev pub Agrees : Verdict → Failure → Type 0
Agrees transient f = (f.transient ≡ true) × ((f.status == 429 || leb 500 f.status) ≡ true)
Agrees permanent f = (f.transient ≡ false) × ((f.status == 400 || f.status == 429) ≡ true)
Agrees unknown f = (f.transient || f.status == 401 || f.status == 403 || f.status == 404) ≡ true

module _ (message_delay : Text → ℕ) where
  failure_of-Agrees :
      (fault : Fault) (t c msg : Text)
      → Named t fault
      → Agrees (verdict_of fault) (failure_of message_delay fault t c msg)
  unfolding failure_of verdict_of responses_rejected_status
  failure_of-Agrees fault_rejected t c msg h = ground (arith, h)
  failure_of-Agrees _ t c msg h = ground arith

  -- Whatever an upstream error says: where the rule for HTTP bodies finds it transient, the stream's
  -- classifier retries it, with status 429 or 5xx; where the rule finds it permanent, the stream's
  -- classifier does not, with status 400 or 429; and where the rule leaves it to the HTTP status, the
  -- stream's classifier retries it unless it gives it 401, 403 or 404.
  pub classify_responses_error-Agrees :
      (atype code msg body_lower : Text)
      → Agrees
          (responses_error_verdict atype code msg body_lower)
          (classify_responses_error message_delay atype code msg)
  unfolding responses_error_verdict classify_responses_error
  classify_responses_error-Agrees atype code msg body_lower =
      let t = responses_ident atype in
      let c = responses_ident code in
      failure_of-Agrees (responses_fault_of t c (to_lower msg)) t c msg
        (responses_fault_of-Named t c (to_lower msg))
