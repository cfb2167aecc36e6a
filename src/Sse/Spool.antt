-- ===== src/Sse/Spool.antt =====
-- The spool of sse.go: validated bytes in memory up to a bound, then in a temporary file.
pub mod Contents
use steady_proxy.Base.{
  ℕ, ◌+◌, Bool, true, false, not, ◌&&◌, ◌||◌, List, [], ◌∷◌, ◌++◌, Option, none, some, Text, length,
  leb, ltb, if◌then◌else◌,
}
use steady_proxy.Config.{Config}

-- `mem` stands for the buffer, and is empty once it is dropped; `file` for the temporary file.
pub record Spool : Type 0 where
  pub mem : Text
  pub file : Text
  pub spilled : Bool
  pub total : ℕ

abbrev pub new_spool : Spool
new_spool = record { mem = []; file = []; spilled = false; total = 0 }

-- The error of a write: none, `errTooLarge`, or a fault of the file system.
pub data WriteError : Type 0 where
  no_error too_large : WriteError
  disk_fault : Text → WriteError

-- `disk file p` is the error, if any, of putting `p` behind the bytes `file` of the temporary
-- file; it stands for `os.CreateTemp` and `File.Write`.
module _ (cfg : Config) (disk : Text → Text → Option Text) where
  append_file : Spool → Text → Spool × WriteError
  append_file s p = elim (disk s.file p) [
    | none ↦ (record s { file = s.file ++ p }, no_error)
    | some msg ↦ (s, disk_fault msg)
  ]

  -- The memory is copied to a new file.
  spill : Spool → Text → Spool × WriteError
  unfolding append_file
  spill s p = elim (disk [] s.mem) [
    | none ↦ append_file (record s { file = s.mem; spilled = true; mem = [] }) p
    | some msg ↦ (s, disk_fault msg)
  ]

  -- `write`.
  unfoldable pub write : Spool → Text → Spool × WriteError
  unfolding spill append_file
  write s p =
      let s' = record s { total = s.total + length p } in
      if ltb cfg.max_response_bytes s'.total
      then (s', too_large)
      else if s'.spilled
      then append_file s' p
      else if leb (length s'.mem + length p) cfg.max_buffer_mem
      then (record s' { mem = s'.mem ++ p }, no_error)
      else spill s' p

-- What `replayRaw` and `reader` deliver: the memory, or the file from its start.
unfoldable pub contents : Spool → Text
contents s = if s.spilled then s.file else s.mem
