-- ===== src/Handler/Reading/Agreement.antt =====
-- The archive and the reading of error bodies.
use steady_proxy.Base.{
  ℕ, zero, suc, ◌-◌, ◌≤◌, true, false, List, [], ◌∷◌, ◌++◌, concat, Option, none, Text, length,
  length-append, take, leb, if◌then◌else◌, ◌≡◌, refl, arith, sym, ap, ◌∙◌,
}
use mathlib.Core.List.{append_assoc, append-nil}
use steady_proxy.Handler.Reading.{
  Stream, read_limited, prefix_write, copy_prefix, read_bounded, read_archived,
  read_http_error_body, http_error_body_bytes,
}

take_all : (n : ℕ) (s : Text) → length s ≤ n → take n s ≡ s
take_all zero [] h = refl
take_all zero (c ∷ s) h = absurd (omega (arith, h))
take_all (suc n) [] h = refl
take_all (suc n) (c ∷ s) h = ap (◌∷◌ c) (take_all n s (omega (arith, h)))

take-append : (n : ℕ) (s t : Text) → take n (s ++ t) ≡ take n s ++ take (n - length s) t
take-append zero s t = let e : 0 - length s ≡ 0 = omega arith in sym (ap (λ (m : ℕ). take m t) e)
take-append (suc n) [] t =
    let e : suc n - 0 ≡ suc n = omega arith in sym (ap (λ (m : ℕ). take m t) e)
take-append (suc n) (c ∷ s) t =
    let e : n - length s ≡ suc n - suc (length s) = omega arith in
    ap (◌∷◌ c) (take-append n s t ∙ ap (λ (m : ℕ). take n s ++ take m t) e)

length-take : (n : ℕ) (s : Text) → length (take n s) ≡ (if leb (length s) n then length s else n)
length-take zero [] = ground arith
length-take zero (c ∷ s) = ground arith
length-take (suc n) [] = ground arith
length-take (suc n) (c ∷ s) = ground (arith, length-take n s)

take-take : (n : ℕ) (s : Text) → take n (take (suc n) s) ≡ take n s
take-take zero s = refl
take-take (suc n) [] = refl
take-take (suc n) (c ∷ s) = ap (◌∷◌ c) (take-take n s)

take_none : (n : ℕ) (s : Text) → n ≡ 0 → take n s ≡ []
take_none zero s h = refl
take_none (suc n) s h = absurd (omega (arith, h))

prefix_write_lem :
    (max : ℕ) (buf b : Text) → length buf ≤ max → prefix_write max buf b ≡ take max (buf ++ b)
unfolding prefix_write
prefix_write_lem max buf b h = ground (
  arith,
  h,
  take-append max buf b,
  take_all max buf h,
  take_all (max - length buf) b,
  append-nil buf,
  take_none (max - length buf) b,
)

take-take-append : (n : ℕ) (s t : Text) → take n (take n s ++ t) ≡ take n (s ++ t)
take-take-append zero s t = refl
take-take-append (suc n) [] t = refl
take-take-append (suc n) (c ∷ s) t = ap (◌∷◌ c) (take-take-append n s t)

copy_prefix_lem :
    (max : ℕ) (buf : Text) (ps : List Text)
    → length buf ≤ max
    → copy_prefix max buf ps ≡ take max (buf ++ concat ps)
unfolding copy_prefix
copy_prefix_lem max buf [] h = rw (append-nil buf, take_all max buf h) refl
copy_prefix_lem max buf (p ∷ ps) h =
    let w = prefix_write_lem max buf p h in
    let fits : length (take max (buf ++ p)) ≤ max = ground (arith, length-take max (buf ++ p)) in
    ap (λ (b : Text). copy_prefix max b ps) w
    ∙ (copy_prefix_lem max (take max (buf ++ p)) ps fits
        ∙ (take-take-append max (buf ++ p) (concat ps)
            ∙ ap (take max) (append_assoc buf p (concat ps))))

read_limited_bytes :
    (room : ℕ) (ps : List Text) (fault : Option Text)
    → (read_limited room ps fault).0 ≡ take room (concat ps)
unfolding read_limited
read_limited_bytes room [] fault = sym (take_all room [] (omega arith))
read_limited_bytes room (p ∷ ps) fault = ground (
  arith,
  take-append room p (concat ps),
  take_none (room - length p) (concat ps),
  append-nil (take room p),
  take_all room p,
  read_limited_bytes (room - length p) ps fault,
)

read_limited_fault :
    (room : ℕ) (ps : List Text) (fault : Option Text)
    → (read_limited room ps fault).1 ≡ (if leb room (length (concat ps)) then none else fault)
unfolding read_limited
read_limited_fault room [] fault = ground arith
read_limited_fault room (p ∷ ps) fault =
    ground (arith, length-append p (concat ps), read_limited_fault (room - length p) ps fault)

-- With and without an archive, at a limit.
read_bounded-read_archived :
    (max : ℕ) (s : Stream)
    → ((read_bounded max s).bytes ≡ (read_archived max s).bytes)
      × ((read_bounded max s).complete ≡ (read_archived max s).complete)
      × ((read_bounded max s).fault ≡ (if (read_archived max s).complete then s.fault else none))
unfolding read_bounded read_archived
read_bounded-read_archived max s =
    let whole = concat s.pieces in
    rw
      (
        read_limited_bytes (suc max) s.pieces s.fault,
        read_limited_fault (suc max) s.pieces s.fault,
        copy_prefix_lem max [] s.pieces (omega arith),
      )
      (
        ground (
          arith,
          length-take (suc max) whole,
          take-take max whole,
          take_all max whole,
          take_all (suc max) whole,
        ),
        ground (arith, length-take (suc max) whole),
        ground (arith, length-take (suc max) whole),
      )

-- However a body comes in pieces: an error response that is archived is read like one that is not,
-- the bytes kept and whether they are all of it, and so is a fault of the read, except that behind
-- the bound a fault is seen only with an archive.
pub read_http_error_body-archived :
    (s : Stream)
    → ((read_http_error_body false s).bytes ≡ (read_http_error_body true s).bytes)
      × ((read_http_error_body false s).complete ≡ (read_http_error_body true s).complete)
      × ((read_http_error_body false s).fault ≡ (
          if (read_http_error_body true s).complete
          then (read_http_error_body true s).fault
          else none))
unfolding read_http_error_body read_archived
read_http_error_body-archived s = read_bounded-read_archived http_error_body_bytes s
