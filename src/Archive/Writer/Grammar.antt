-- ===== src/Archive/Writer/Grammar.antt =====
-- JSON documents, and what the archive relies on to write them.
use steady_proxy.Base.{Bool, true, false, List, [], ◌∷◌, ◌++◌, some, ℤ, Text, text, ◌≡◌}
use steady_proxy.Failure.{Header}
use steady_proxy.Version.{VersionInfo}
use steady_proxy.Archive.Attempt.{ArchiveFailure, ArchiveStats, ArchiveModelSwap}
use steady_proxy.Archive.Report.{ArchiveOutcome}
use steady_proxy.Archive.Writer.{WriterLib}

-- JSON, from the texts of values that are taken as such. In `IsMembers first m`, `first` is that no
-- member stands in `m` yet.
mutual
  pub data IsJson (IsLeaf : Text → Type 0) : Text → Type 0 where
    leaf : {v : Text} → IsLeaf v → IsJson IsLeaf v
    object :
        {first : Bool} {m : Text}
        → IsMembers IsLeaf first m
        → IsJson IsLeaf (text "{" ++ (m ++ text "}"))
    array : {m : Text} → IsElements IsLeaf m → IsJson IsLeaf (text "[" ++ (m ++ text "]"))

  pub data IsMembers (IsLeaf : Text → Type 0) : Bool → Text → Type 0 where
    no_members : IsMembers IsLeaf true []
    member :
        {n v : Text} → IsLeaf n → IsJson IsLeaf v → IsMembers IsLeaf false (n ++ (text ":" ++ v))
    members :
        {m n v : Text}
        → IsMembers IsLeaf false m
        → IsLeaf n
        → IsJson IsLeaf v
        → IsMembers IsLeaf false (m ++ (text "," ++ (n ++ (text ":" ++ v))))

  pub data IsElements (IsLeaf : Text → Type 0) : Text → Type 0 where
    no_elements : IsElements IsLeaf []
    element : {v : Text} → IsJson IsLeaf v → IsElements IsLeaf v
    elements :
        {m v : Text}
        → IsElements IsLeaf m
        → IsJson IsLeaf v
        → IsElements IsLeaf (m ++ (text "," ++ v))

-- What the archive relies on: `json.Marshal` yields JSON values, and base64 holds nothing that a
-- string would have to escape.
pub record Marshals (lib : WriterLib) (IsLeaf : Text → Type 0) : Type 0 where
  pub texts_json : (x : Text) (b : Text) → lib.of_text x ≡ some b → IsLeaf b
  pub lists_json : (x : List Text) (b : Text) → lib.of_texts x ≡ some b → IsLeaf b
  pub ints_json : (x : ℤ) (b : Text) → lib.of_int x ≡ some b → IsLeaf b
  pub headers_json : (x : Header) (b : Text) → lib.of_header x ≡ some b → IsLeaf b
  pub version_json : (x : VersionInfo) (b : Text) → lib.of_version x ≡ some b → IsLeaf b
  pub outcome_json : (x : ArchiveOutcome) (b : Text) → lib.of_outcome x ≡ some b → IsLeaf b
  pub redactions_json : (x y : List Text) (b : Text) → lib.of_redactions x y ≡ some b → IsLeaf b
  pub failure_json : (x : ArchiveFailure) (b : Text) → lib.of_failure x ≡ some b → IsLeaf b
  pub stats_json : (x : ArchiveStats) (b : Text) → lib.of_stats x ≡ some b → IsLeaf b
  pub swap_json : (x : ArchiveModelSwap) (b : Text) → lib.of_swap x ≡ some b → IsLeaf b
  pub base64_json : (x : Text) → IsLeaf (b'"' ∷ (lib.base64 x ++ b'"' ∷ []))
