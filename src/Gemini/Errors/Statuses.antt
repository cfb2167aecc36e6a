-- ===== src/Gemini/Errors/Statuses.antt =====
-- The canonical statuses and the statuses of HTTP.
use steady_proxy.Base.{ℕ, Bool, true, false, Text, str_eq, if◌then◌else◌, ◌≡◌, ◌⊎◌, inl, inr, refl}
use steady_proxy.Gemini.Errors.{gemini_http_status, gemini_status_for_http}

-- The name that is chosen for a status stands for that status.
Stable : ℕ → Type 0
Stable st = (st ≡ 0) ⊎ (gemini_http_status (gemini_status_for_http st) ≡ st)

branch-Stable : (b : Bool) (x y : ℕ) → Stable x → Stable y → Stable (if b then x else y)
branch-Stable true x y h g = h
branch-Stable false x y h g = g

-- A canonical status survives the way to HTTP and back up to its HTTP status: for the HTTP status of
-- any canonical status, the name that is chosen has that HTTP status again. (Several names may share
-- one HTTP status; a text that is no canonical status has HTTP status 0.)
pub gemini_http_status-status_for_http :
    (s : Text)
    → (gemini_http_status s ≡ 0)
      ⊎ (gemini_http_status (gemini_status_for_http (gemini_http_status s)) ≡ gemini_http_status s)
unfolding gemini_http_status gemini_status_for_http Stable str_eq
gemini_http_status-status_for_http s = branch-Stable _ 400 _ (inr refl) (
    branch-Stable _ 401 _ (inr refl) (
      branch-Stable _ 403 _ (inr refl) (
        branch-Stable _ 404 _ (inr refl) (
          branch-Stable _ 409 _ (inr refl) (
            branch-Stable _ 429 _ (inr refl) (
              branch-Stable _ 499 _ (inr refl) (
                branch-Stable _ 500 _ (inr refl) (
                  branch-Stable _ 501 _ (inr refl) (
                    branch-Stable _ 503 _ (inr refl)
                      (branch-Stable _ 504 0 (inr refl) (inl refl)))))))))))
