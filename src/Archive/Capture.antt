-- ===== src/Archive/Capture.antt =====
-- `bodyCapture` (requestlog.go): the bytes of a body, in memory up to a bound, then in a temporary
-- file. The file system and SHA-256 are parameters.
pub mod Stored
use steady_proxy.Base.{
  ℕ, ◌+◌, ◌^◌, Bool, List, [], ◌∷◌, ◌++◌, Option, none, some, Text, text, length, leb, ltb,
  if◌then◌else◌,
}
use steady_proxy.Config.{Config}

-- The file system: the error, if any, of creating a file when the memory holds these bytes; and what
-- putting bytes behind others comes to, where it fails: the bytes of the file then, and the error.
pub record TempFiles : Type 0 where
  pub create_error : Text → Option Text
  pub write_error : Text → Text → Option (Text × Text)

-- `hashed` is what the hash has been fed.
pub record BodyCapture : Type 0 where
  pub mem : Text
  pub file : Option Text
  pub hashed : Text
  pub size : ℕ
  pub error : Option Text

-- `newBodyCapture`.
abbrev pub new_body_capture : BodyCapture
new_body_capture = record { mem = []; file = none; hashed = []; size = 0; error = none }

-- `requestArchiveMemoryLimit`.
unfoldable pub request_archive_memory_limit : Config → ℕ
request_archive_memory_limit cfg = if ltb 0 cfg.max_buffer_mem then cfg.max_buffer_mem else 2 ^ 20

module _ (cfg : Config) (files : TempFiles) where
  put_file : Text → Text → BodyCapture → BodyCapture
  put_file f p c = elim (files.write_error f p) [
    | none ↦ record c { file = some (f ++ p) }
    | some (kept, msg) ↦ record c { file = some kept; error = some msg }
  ]

  -- The memory is moved to a new file; a file that does not take it is closed.
  move_to_file : Text → BodyCapture → BodyCapture
  unfolding put_file
  move_to_file p c = elim (files.create_error c.mem) [
    | some msg ↦ record c { error = some msg }
    | none ↦ elim (files.write_error [] c.mem) [
      | some (kept, msg) ↦ record c { error = some msg }
      | none ↦ put_file c.mem p (record c { mem = [] })
    ]
  ]

  kept_bytes : Text → BodyCapture → BodyCapture
  unfolding put_file move_to_file
  kept_bytes p c = elim c.error [
    | some msg ↦ c
    | none ↦ elim c.file [
      | some f ↦ put_file f p c
      | none ↦
          if leb (length c.mem + length p) (request_archive_memory_limit cfg)
          then record c { mem = c.mem ++ p }
          else move_to_file p c
    ]
  ]

  -- `Write`, which never fails.
  unfoldable pub write_body : Text → BodyCapture → BodyCapture
  unfolding kept_bytes
  write_body p c = kept_bytes p (record c { hashed = c.hashed ++ p; size = c.size + length p })

-- `archiveBody`; `stored` is the data, or the file that it is read from.
pub record ArchiveBody : Type 0 where
  pub encoding : Text
  pub size : ℕ
  pub sha256 : Text
  pub data_bytes : Text
  pub capture_error : Text
  pub file : Option Text

abbrev error_text : Option Text → Text
error_text none = []
error_text (some msg) = msg

module _ (digest : Text → Text) where
  -- `makeArchiveBody`, where `digest` is `bodySHA256`.
  unfoldable pub make_archive_body : Text → ArchiveBody
  make_archive_body p = record {
    encoding = text "base64";
    size = length p;
    sha256 = digest p;
    data_bytes = p;
    capture_error = [];
    file = none;
  }

  -- `archiveBody`, of a capture that is there.
  unfoldable pub archive_body : BodyCapture → ArchiveBody
  archive_body c = record {
    encoding = text "base64";
    size = c.size;
    sha256 = digest c.hashed;
    data_bytes = elim c.file [ none ↦ c.mem | some f ↦ [] ];
    capture_error = error_text c.error;
    file = c.file;
  }

-- The bytes that are written behind `data_base64`.
unfoldable pub stored : ArchiveBody → Text
stored b = elim b.file [ none ↦ b.data_bytes | some f ↦ f ]

-- `cleanup`.
pub cleanup : BodyCapture → BodyCapture
cleanup c = record c { file = none }
