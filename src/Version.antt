-- ===== src/Version.antt =====
-- version.go: the build's identity, from link-time values and the settings of the Go toolchain.
pub mod Token
use steady_proxy.Base.{
  ℕ, Bool, true, false, not, ◌&&◌, ◌||◌, List, [], ◌∷◌, ◌++◌, map, Option, none, some, Text, text,
  is_nil, length, take, str_eq, to_lower, trim_space, leb, ltb, ◌==◌, if◌then◌else◌,
}

-- `versionInfo`.
pub record VersionInfo : Type 0 where
  pub program : Text
  pub version : Text
  pub commit : Text
  pub build_date : Text
  pub dirty : Bool
  pub dirty_known : Bool

-- `parseDirty`; none for what is neither.
unfoldable pub parse_dirty : Text → Option Bool
parse_dirty s =
    let t = to_lower (trim_space s) in
    if str_eq t (text "1") || str_eq t (text "true") || str_eq t (text "yes")
    then some true
    else if str_eq t (text "0") || str_eq t (text "false") || str_eq t (text "no")
    then some false
    else none

-- `defaultString`.
unfoldable pub default_string : Text → Text → Text
default_string s fallback = if is_nil (trim_space s) then fallback else trim_space s

set_dirty : Option Bool → VersionInfo → VersionInfo
set_dirty none vi = vi
set_dirty (some d) vi = record vi { dirty = d; dirty_known = true }

-- One build setting: a value that is known is kept.
unfoldable pub apply_setting : Text → Text → VersionInfo → VersionInfo
unfolding set_dirty
apply_setting key value vi =
    if str_eq key (text "vcs.revision")
    then (if is_nil vi.commit then record vi { commit = trim_space value } else vi)
    else if str_eq key (text "vcs.time")
    then (if is_nil vi.build_date then record vi { build_date = trim_space value } else vi)
    else if str_eq key (text "vcs.modified")
    then (if vi.dirty_known then vi else set_dirty (parse_dirty value) vi)
    else vi

-- `applyVCSBuildSettings`.
unfoldable pub apply_vcs_build_settings : List (Text × Text) → VersionInfo → VersionInfo
apply_vcs_build_settings [] vi = vi
apply_vcs_build_settings ((key, value) ∷ settings) vi =
    apply_vcs_build_settings settings (apply_setting key value vi)

-- `currentVersion`, by the link-time values and the build information, if there is any.
pub current_version : Text → Text → Text → Text → Option (List (Text × Text)) → VersionInfo
unfolding set_dirty
current_version version commit build_date dirty settings =
    let vi = set_dirty (parse_dirty dirty) (record {
      program = text "steady-" ++ text "proxy";
      version = default_string version (text "dev");
      commit = trim_space commit;
      build_date = trim_space build_date;
      dirty = false;
      dirty_known = false;
    }) in
    elim settings [ none ↦ vi | some s ↦ apply_vcs_build_settings s vi ]

-- `shortCommit`.
unfoldable pub short_commit : Text → Text
short_commit c =
    let t = trim_space c in if is_nil t || str_eq t (text "unknown") then [] else take 12 t

-- The characters that `tokenPart` keeps.
unfoldable pub is_token_char : ℕ → Bool
is_token_char c =
    leb b'a' c && leb c b'z'
    || leb b'A' c && leb c b'Z'
    || leb b'0' c && leb c b'9'
    || c == b'.'
    || c == b'-'
    || c == b'_'

-- `tokenPart`.
unfoldable pub token_part : Text → Text
token_part s =
    if is_nil (trim_space s)
    then text "unknown"
    else map (λ c. if is_token_char c then c else b'_') (trim_space s)

-- `token`.
pub token : VersionInfo → Text
token vi =
    let c = short_commit vi.commit in
    token_part (default_string vi.version (text "dev"))
    ++ ((if is_nil c then [] else b'+' ∷ c)
        ++ (if vi.dirty_known && vi.dirty then text ".dirty" else []))

-- A part of `line`, where there is one.
labelled : Text → Text → Text
labelled name value = if is_nil value then [] else name ++ value

-- `line`.
pub line : VersionInfo → Text
unfolding labelled
line vi =
    default_string vi.program (text "steady-" ++ text "proxy")
    ++ (text " version="
        ++ (default_string vi.version (text "dev")
            ++ (labelled (text " commit=") vi.commit
                ++ (labelled (text " build_date=") vi.build_date
                    ++ (if vi.dirty_known
                        then (if vi.dirty then text " dirty=true" else text " dirty=false")
                        else text " dirty=unknown")))))

-- `versionCLIOutput`.
pub version_cli_output : VersionInfo → List Text → Option Text
version_cli_output vi (arg ∷ []) =
    if str_eq arg (text "--version") || str_eq arg (text "-version") || str_eq arg (text "version")
    then some (line vi)
    else none
version_cli_output vi _ = none

-- What `handleVersionRequest` answers with.
pub data VersionReply : Type 0 where
  not_handled not_allowed head_only : VersionReply
  version_json : VersionInfo → VersionReply

-- `handleVersionRequest`, by path and method.
unfoldable pub handle_version_request : VersionInfo → Text → Text → VersionReply
handle_version_request vi path method =
    if not (str_eq path (text "/__version"))
    then not_handled
    else if str_eq method (text "HEAD")
    then head_only
    else if str_eq method (text "GET")
    then version_json vi
    else not_allowed
