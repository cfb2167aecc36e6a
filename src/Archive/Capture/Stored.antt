-- ===== src/Archive/Capture/Stored.antt =====
-- What a captured body is restored to.
use steady_proxy.Base.{
  ◌≤◌, ◌+◌, List, [], ◌∷◌, ◌++◌, concat, Option, none, some, Text, length, length-append, ◌≡◌, refl,
  arith, ◌∙◌, Option-cases, inl, inr, ap, subst, ◌⊎◌,
}
use mathlib.Core.List.{append_assoc, append-nil}
use steady_proxy.Config.{Config}
use steady_proxy.Archive.Capture.{
  TempFiles, BodyCapture, new_body_capture, request_archive_memory_limit, write_body, kept_bytes,
  archive_body, stored, put_file, move_to_file,
}

-- Without an error, the file or else the memory holds the whole.
abbrev Holds : Option Text → Option Text → Text → Text → Type 0
Holds none none mem whole = mem ≡ whole
Holds none (some f) mem whole = f ≡ whole
Holds (some msg) file mem whole = Unit

-- What a capture has of the bytes that were written to it.
record Captures (cfg : Config) (c : BodyCapture) (whole : Text) : Type 0 where
  fed : c.hashed ≡ whole
  counted : c.size ≡ length whole
  bounded : length c.mem ≤ request_archive_memory_limit cfg
  kept : Holds c.error c.file c.mem whole

module _ (cfg : Config) (files : TempFiles) where
  -- The part of the bytes, behind a count and a hash.
  kept_bytes-Holds :
      (p whole : Text) (c : BodyCapture)
      → Holds c.error c.file c.mem whole
      → length c.mem ≤ request_archive_memory_limit cfg
      → Holds
          (kept_bytes cfg files p c).error
          (kept_bytes cfg files p c).file
          (kept_bytes cfg files p c).mem
          (whole ++ p)
        × (length (kept_bytes cfg files p c).mem ≤ request_archive_memory_limit cfg)
        × ((kept_bytes cfg files p c).hashed ≡ c.hashed)
        × ((kept_bytes cfg files p c).size ≡ c.size)
  unfolding kept_bytes move_to_file put_file
  kept_bytes-Holds p whole c h b = elim (Option-cases c.error) [
    | inr (msg, e) ↦ ground (arith, e, h, b)
    | inl e ↦ elim (Option-cases c.file) [
      | inr (f, g) ↦ ground (arith, e, g, h, b)
      | inl g ↦ ground (arith, e, g, h, b, length-append c.mem p)
    ]
  ]

  write_body-Captures :
      (p whole : Text) (c : BodyCapture)
      → Captures cfg c whole
      → Captures cfg (write_body cfg files p c) (whole ++ p)
  unfolding write_body
  write_body-Captures p whole c v =
      let (h, b, f, n) =
        kept_bytes-Holds p whole (record c { hashed = c.hashed ++ p; size = c.size + length p })
          v.kept v.bounded in
      record {
        fed = f ∙ ap (λ (t : Text). t ++ p) v.fed;
        counted = n ∙ omega (arith, v.counted, length-append whole p);
        bounded = b;
        kept = h;
      }

  new_Captures : Captures cfg new_body_capture []
  new_Captures = record { fed = refl; counted = refl; bounded = omega arith; kept = refl }

  stored-Captures :
      (digest : Text → Text) (whole : Text) (c : BodyCapture)
      → Captures cfg c whole
      → c.error ≡ none
      → stored (archive_body digest c) ≡ whole
  unfolding archive_body stored
  stored-Captures digest whole c v e = elim (Option-cases c.file) [
    | inl f ↦ ground (arith, e, f, v.kept)
    | inr (g, f) ↦ ground (arith, e, f, v.kept)
  ]

  -- The writes of a body's pieces.
  unfoldable pub write_pieces : List Text → BodyCapture → BodyCapture
  write_pieces [] c = c
  write_pieces (p ∷ ps) c = write_pieces ps (write_body cfg files p c)

  write_pieces-Captures :
      (ps : List Text) (whole : Text) (c : BodyCapture)
      → Captures cfg c whole
      → Captures cfg (write_pieces ps c) (whole ++ concat ps)
  unfolding write_pieces
  write_pieces-Captures [] whole c v = rw append-nil v
  write_pieces-Captures (p ∷ ps) whole c v =
      subst (λ (t : Text). Captures cfg (write_pieces ps (write_body cfg files p c)) t)
        (append_assoc whole p (concat ps))
        (write_pieces-Captures ps (whole ++ p) (write_body cfg files p c)
          (write_body-Captures p whole c v))

  -- However a body comes in pieces and whatever the file system does: its size and its digest in the
  -- archive are those of the whole body; at most the limit of it is held in memory; and what
  -- the archive stores is the whole body, or an error of the capture is noted.
  pub write_pieces-stored :
      (digest : Text → Text) (ps : List Text)
      → ((archive_body digest (write_pieces ps new_body_capture)).size ≡ length (concat ps))
        × ((archive_body digest (write_pieces ps new_body_capture)).sha256 ≡ digest (concat ps))
        × (length (write_pieces ps new_body_capture).mem ≤ request_archive_memory_limit cfg)
        × ((stored (archive_body digest (write_pieces ps new_body_capture)) ≡ concat ps)
            ⊎ ((msg : Text) × ((write_pieces ps new_body_capture).error ≡ some msg)))
  unfolding archive_body
  write_pieces-stored digest ps =
      let v : Captures cfg (write_pieces ps new_body_capture) (concat ps) =
        write_pieces-Captures ps [] new_body_capture new_Captures in
      (
        v.counted,
        ap digest v.fed,
        v.bounded,
        elim (Option-cases (write_pieces ps new_body_capture).error) [
          | inl e ↦ inl (stored-Captures digest (concat ps) (write_pieces ps new_body_capture) v e)
          | inr noted ↦ inr noted
        ],
      )
