-- ===== src/Sse/Spool/Contents.antt =====
-- The spool refines a list of bytes.
use steady_proxy.Base.{◌≤◌, ◌<◌, ◌++◌, Option, ◌≡◌, arith, Text, length, length-append}
use steady_proxy.Config.{Config}
use steady_proxy.Sse.Spool.{Spool, WriteError, no_error, too_large, disk_fault, write, contents}

-- The bytes in memory stay in their bound, and the count is of the bytes kept.
pub record IsSound (cfg : Config) (s : Spool) : Type 0 where
  pub in_memory : length s.mem ≤ cfg.max_buffer_mem
  pub counted : s.total ≡ length (contents s)
  pub capped : s.total ≤ cfg.max_response_bytes

-- What a write of `p` to `s` does, by its error, where `t` is the spool behind it.
abbrev pub Wrote : Config → Spool → Text → Spool → WriteError → Type 0
Wrote cfg s p t no_error = (contents t ≡ contents s ++ p) × IsSound cfg t
Wrote cfg s p t too_large = cfg.max_response_bytes < length (contents s ++ p)
Wrote cfg s p t (disk_fault m) = length (contents s ++ p) ≤ cfg.max_response_bytes

module _ (cfg : Config) (disk : Text → Text → Option Text) where
  -- A write to a spool in its bounds, whatever the file system does: if it succeeds, its bytes stand
  -- behind the contents and the spool is in its bounds; if it is too large, the contents would pass
  -- the cap; and if the file system fails, they would not.
  pub write-contents :
      (s : Spool) (p : Text)
      → IsSound cfg s
      → Wrote cfg s p (write cfg disk s p).0 (write cfg disk s p).1
  unfolding write contents
  write-contents s p v =
      ground (arith, length-append s.mem p, length-append s.file p, length-append (contents s) p)
