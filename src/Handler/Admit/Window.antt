-- ===== src/Handler/Admit/Window.antt =====
-- Which requests are held back, and for how long.
use steady_proxy.Base.{
  ℕ, Bool, true, false, [], ◌∷◌, Text, text, is_nil, str_eq, str_eq_iff, if◌then◌else◌, ◌≡◌, refl,
  arith,
}
use steady_proxy.Config.{Config}
use steady_proxy.Json.{JsonLib}
use steady_proxy.Gemini.Decimal.{GeminiLib}
use steady_proxy.Route.{is_messages_path, is_responses_path, is_gemini_path, gemini_target}
use steady_proxy.Route.Disjoint.{count_true, routes_disjoint}
use steady_proxy.AccessLog.{BodyLib, is_workflow_agent}
use steady_proxy.Archive.Attempt.{Incoming}
use steady_proxy.Handler.Reading.{read_whole}
use steady_proxy.Handler.Admit.{
  keepalive_window, Plan, held, Deadlines, is_gemini_stream, is_transactional, window_of, plan,
  with_body, admit,
}
use steady_proxy.Transport.{buffer_deadline}
use steady_proxy.Version.{VersionInfo}

str_eq-full : (s : Text) (c : ℕ) (t : Text) → str_eq s (c ∷ t) ≡ true → is_nil s ≡ false
unfolding str_eq
str_eq-full [] c t h = cc
str_eq-full (x ∷ s) c t h = refl

module _ (cfg : Config) (lib : BodyLib) (json : JsonLib) (gemini : GeminiLib)
    (alt : Text → Text) where
  -- The window that a route owns: the one of its wire and mode, and no other's.
  abbrev pub owned_window : Text → Text → ℕ
  owned_window path body =
      if is_messages_path path
      then (if is_workflow_agent lib body then cfg.wf_keepalive else cfg.keepalive)
      else if is_responses_path path
      then (if cfg.responses_early_commit then cfg.responses_keepalive else cfg.responses_buffer)
      else cfg.gemini_buffer

  is_gemini_stream-path :
      (r : Incoming)
      → is_gemini_stream cfg lib json gemini alt r ≡ true
      → is_gemini_path r.path ≡ true
  unfolding is_gemini_stream is_gemini_path
  is_gemini_stream-path r h =
      ground (arith, h, str_eq-full (gemini_target r.path).1 b's' (text "treamGenerateContent"))

  transactional-window :
      (r : Incoming) (body : Text)
      → is_transactional cfg lib json gemini alt r body ≡ true
      → (r.method ≡ text "POST")
        × (count_true
              (is_messages_path r.path ∷ is_responses_path r.path ∷ is_gemini_path r.path ∷ [])
            ≡ 1)
        × (window_of cfg lib json gemini alt r body ≡ owned_window r.path body)
  unfolding is_transactional window_of keepalive_window
  transactional-window r body h =
      ground (
        arith,
        h,
        is_gemini_stream-path r,
        routes_disjoint r.path,
        str_eq_iff r.method (text "POST"),
      )

  -- A request that is held is a POST on the route of one wire, and it is held, from its start, for
  -- the window that this wire and its mode own.
  pub admit-held :
      (version : VersionInfo) (start : ℕ) (d : Deadlines) (http1 : Bool) (r : Incoming)
      → (body : Text) (p : Plan)
      → admit cfg lib json gemini alt version start d http1 r (read_whole body) ≡ held p
      → (r.method ≡ text "POST")
        × (count_true
              (is_messages_path r.path ∷ is_responses_path r.path ∷ is_gemini_path r.path ∷ [])
            ≡ 1)
        × (p.commit_by ≡ buffer_deadline start (owned_window r.path body))
  unfolding admit with_body plan
  admit-held version start d http1 r body p h = ground (arith, h, transactional-window r body)
