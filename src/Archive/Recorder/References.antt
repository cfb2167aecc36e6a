-- ===== src/Archive/Recorder/References.antt =====
-- What the references of the attempts are to, as attempts are begun.

use mathlib.Core.List.{append_cancel_left, append_cancel_right}
use steady_proxy.Base.{
  ℕ, suc, ◌+◌, ◌^◌, ◌<◌, ◌≤◌, ◌/◌, ◌%◌, zero, false, List, [], ◌∷◌, ◌++◌, Option, none, some, pos,
  Text, text, is_nil, length, length-append, str_eq, str_eq_iff, str_eq_refl, cut, cut_at, any,
  if◌then◌else◌, ◌==◌, ◌≡◌, refl, arith, sym, ap, ◌∙◌, inl, inr, Bool-cases,
}
use steady_proxy.Number.{itoa, digits_onto}
use steady_proxy.Number.RoundTrip.{atoi_safe-itoa}
use steady_proxy.Archive.Capture.{ArchiveBody, make_archive_body, stored}
use steady_proxy.Archive.Attempt.{ArchiveAttempt}
use steady_proxy.Archive.Recorder.{attempt_ref, client_ref, find_ref, body_key, body_reference}

-- The key of a body tells its digest.
digits_onto-plain :
    (room n : ℕ) (acc : Text)
    → any (◌==◌ b':') acc ≡ false
    → any (◌==◌ b':') (digits_onto room n acc) ≡ false
unfolding digits_onto
digits_onto-plain zero n acc h = h
digits_onto-plain (suc room) n acc h =
    ground (arith, h, digits_onto-plain room (n / 10) ((b'0' + n % 10) ∷ acc))

itoa-plain : (n : ℕ) → any (◌==◌ b':') (itoa (pos n)) ≡ false
unfolding itoa
itoa-plain n = ground (arith, digits_onto-plain 20 n [] refl)

body_key-digest :
    (digest : Text → Text) (a b : Text)
    → body_key digest a ≡ body_key digest b
    → digest a ≡ digest b
unfolding body_key
body_key-digest digest a b e =
    let read = λ (t : Text). cut t (text ":") in
    ground (
      arith,
      cut_at b':' [] (itoa (pos (length a))) (digest a) (itoa-plain (length a)),
      cut_at b':' [] (itoa (pos (length b))) (digest b) (itoa-plain (length b)),
      ap read e,
    )

-- What an attempt tells of bodies: its index, its reference, and the body it holds.
abbrev pub Key : Type 0
Key = ℕ × Text × Option ArchiveBody

abbrev pub key_of : ArchiveAttempt → Key
key_of a = (a.index, a.request_body_ref, a.request_body)

-- How a reader of the archive finds a body: that of the client, or the one held by the attempt that
-- the reference names.
abbrev pub resolve_in : List Key → Text → Option Text
resolve_in [] ref = none
resolve_in ((i, own, held) ∷ ks) ref =
    let rest = resolve_in ks ref in
    if str_eq ref (attempt_ref i)
    then elim held [ none ↦ rest | some b ↦ some (stored b) ]
    else rest

unfoldable pub resolve : Text → List Key → Text → Option Text
resolve client ks ref = if str_eq ref client_ref then some client else resolve_in ks ref

attempt_ref-inj : (i j : ℕ) → i < 2 ^ 63 → j < 2 ^ 63 → attempt_ref i ≡ attempt_ref j → i ≡ j
unfolding attempt_ref
attempt_ref-inj i j p q e =
    let digits : itoa (pos i) ≡ itoa (pos j) =
      append_cancel_right (itoa (pos i)) (itoa (pos j)) (text ".request_body")
        (append_cancel_left (text "attempts.") _ _ e) in
    ground (arith, atoi_safe-itoa (pos i) p, atoi_safe-itoa (pos j) q, digits)

attempt_ref-client : (i : ℕ) → str_eq (attempt_ref i) client_ref ≡ false
unfolding attempt_ref str_eq
attempt_ref-client i = refl

-- `P` holds of the bodies that there are.
module _ (digest : Text → Text) (client : Text) (P : Text → Type 0) where
  -- Each known reference is to the body that its key is of.
  abbrev pub Known : List Key → List (Text × Text) → Type 0
  Known ks [] = Unit
  Known ks ((key, ref) ∷ refs) =
      ((b : Text) × P b × (key ≡ body_key digest b) × (resolve client ks ref ≡ some b))
      × Known ks refs

  -- Each attempt's reference is to the body that it was begun with.
  abbrev pub Aligned : List Key → List Key → List Text → Type 0
  Aligned all [] [] = Unit
  Aligned all (k ∷ ks) (b ∷ bs) = (resolve client all k.1 ≡ some b) × Aligned all ks bs
  Aligned all _ _ = ⊥

  abbrev pub Below : ℕ → List Key → Type 0
  Below n [] = Unit
  Below n (k ∷ ks) = (k.0 ≤ n) × Below n ks

  resolve_in-append :
      (ks : List Key) (k : Key) (ref b : Text)
      → resolve_in ks ref ≡ some b
      → resolve_in (ks ++ k ∷ []) ref ≡ some b
  resolve_in-append [] k ref b h = cc
  resolve_in-append ((i, own, none) ∷ ks) k ref b h =
      ground (arith, h, resolve_in-append ks k ref b)
  resolve_in-append ((i, own, some c) ∷ ks) k ref b h =
      ground (arith, h, resolve_in-append ks k ref b)

  resolve-append :
      (ks : List Key) (k : Key) (ref b : Text)
      → resolve client ks ref ≡ some b
      → resolve client (ks ++ k ∷ []) ref ≡ some b
  unfolding resolve
  resolve-append ks k ref b h = ground (arith, h, resolve_in-append ks k ref b)

  other_ref : (i j : ℕ) → i < j → j < 2 ^ 63 → str_eq (attempt_ref j) (attempt_ref i) ≡ false
  other_ref i j p q = elim (Bool-cases (str_eq (attempt_ref j) (attempt_ref i))) [
    | inl y ↦ absurd (omega (arith, attempt_ref-inj j i q (omega arith) ((str_eq_iff _ _).0 y)))
    | inr n ↦ n
  ]

  resolve_in-new :
      (ks : List Key) (n : ℕ) (own : Text) (b : ArchiveBody)
      → Below n ks
      → suc n < 2 ^ 63
      → resolve_in (ks ++ (suc n, own, some b) ∷ []) (attempt_ref (suc n)) ≡ some (stored b)
  resolve_in-new [] n own b h p = rw (str_eq_refl (attempt_ref (suc n))) refl
  resolve_in-new ((i, o, held) ∷ ks) n own b h p =
      rw (other_ref i (suc n) (omega (arith, h.0)) p) (resolve_in-new ks n own b h.1 p)

  Known-append :
      (ks : List Key) (k : Key) (refs : List (Text × Text))
      → Known ks refs
      → Known (ks ++ k ∷ []) refs
  Known-append ks k [] h = tt
  Known-append ks k ((key, ref) ∷ refs) ((b, q, e, r), h) =
      ((b, q, e, resolve-append ks k ref b r), Known-append ks k refs h)

  Below-append :
      (ks : List Key) (k : Key) (n : ℕ) → Below n ks → k.0 ≤ suc n → Below (suc n) (ks ++ k ∷ [])
  Below-append [] k n h p = (p, tt)
  Below-append (j ∷ ks) k n h p = (omega (arith, h.0), Below-append ks k n h.1 p)

  Aligned-append :
      (all ks : List Key) (k : Key) (bs : List Text) (b : Text)
      → Aligned all ks bs
      → resolve client (all ++ k ∷ []) k.1 ≡ some b
      → Aligned (all ++ k ∷ []) (ks ++ k ∷ []) (bs ++ b ∷ [])
  Aligned-append all [] k [] b h r = (r, tt)
  Aligned-append all (j ∷ ks) k (c ∷ bs) b h r =
      (resolve-append all k j.1 c h.0, Aligned-append all ks k bs b h.1 r)
  Aligned-append all [] k (c ∷ bs) b h r = absurd h
  Aligned-append all (j ∷ ks) k [] b h r = absurd h

  -- A reference that is found is to a body of the key.
  find_ref-Known :
      (ks : List Key) (refs : List (Text × Text)) (key : Text)
      → Known ks refs
      → is_nil (find_ref key refs) ≡ false
      → (b : Text) × P b
        × (key ≡ body_key digest b)
        × (resolve client ks (find_ref key refs) ≡ some b)
  unfolding find_ref
  find_ref-Known ks [] key h f = cc
  find_ref-Known ks ((j, ref) ∷ refs) key ((b, q, e, r), h) f = elim (Bool-cases (str_eq j key)) [
    | inl y ↦ (b, q, sym ((str_eq_iff j key).0 y) ∙ e, rw y r)
    | inr n ↦ rw n (find_ref-Known ks refs key h (rw n at f))
  ]

  -- The state of a recorder, as far as bodies go.
  pub record Restorable (ks : List Key) (refs : List (Text × Text)) (bs : List Text) : Type 0 where
    pub known : Known ks refs
    pub aligned : Aligned ks ks bs
    pub below : Below (length ks) ks

  length-snoc {ℓ} : {A : Type ℓ} (xs : List A) (x : A) → length (xs ++ x ∷ []) ≡ suc (length xs)
  length-snoc xs x = omega (arith, length-append xs (x ∷ []))

  Restorable-snoc :
      (ks : List Key) (refs next : List (Text × Text)) (bs : List Text) (k : Key) (body : Text)
      → Restorable ks refs bs
      → k.0 ≡ suc (length ks)
      → resolve client (ks ++ k ∷ []) k.1 ≡ some body
      → Known (ks ++ k ∷ []) next
      → Restorable (ks ++ k ∷ []) next (bs ++ body ∷ [])
  Restorable-snoc ks refs next bs k body v i r h = record {
    known = h;
    aligned = Aligned-append ks ks k bs body v.aligned r;
    below = rw (length-snoc ks k) (Below-append ks k (length ks) v.below (omega (arith, i)));
  }

  -- The reference to a new attempt is to the body that the attempt holds.
  resolve-new :
      (ks : List Key) (own : Text) (b : ArchiveBody)
      → Below (length ks) ks
      → suc (length ks) < 2 ^ 63
      → resolve client (ks ++ (suc (length ks), own, some b) ∷ []) (attempt_ref (suc (length ks)))
        ≡ some (stored b)
  unfolding resolve
  resolve-new ks own b h p =
      rw (attempt_ref-client (suc (length ks))) (resolve_in-new ks (length ks) own b h p)

  module _ (collision_free : (a b : Text) → P a → P b → digest a ≡ digest b → a ≡ b) where
    -- The key of the next attempt, and the references known then, for the body it is begun with.
    abbrev pub next_key : List Key → List (Text × Text) → Text → Key
    next_key ks refs body =
        let r = body_reference digest body (attempt_ref (suc (length ks))) refs in
        (suc (length ks), r.0, r.1)

    pub body_reference-Restorable :
        (ks : List Key) (refs : List (Text × Text)) (bs : List Text) (body : Text)
        → suc (length ks) < 2 ^ 63
        → P body
        → Restorable ks refs bs
        → Restorable
            (ks ++ next_key ks refs body ∷ [])
            (body_reference digest body (attempt_ref (suc (length ks))) refs).2
            (bs ++ body ∷ [])
    unfolding body_reference
    body_reference-Restorable ks refs bs body p there v =
        elim (Bool-cases (is_nil (find_ref (body_key digest body) refs))) [
          | inl fresh ↦
              let own = attempt_ref (suc (length ks)) in
              let held = make_archive_body digest body in
              let found : resolve client (ks ++ (suc (length ks), own, some held) ∷ []) own
                  ≡ some body =
                resolve-new ks own held v.below p
                ∙ unfold stored in unfold make_archive_body in refl in
              rw fresh (
                Restorable-snoc ks refs ((body_key digest body, own) ∷ refs) bs
                  (suc (length ks), own, some held) body v refl found
                  (
                    (body, there, refl, found),
                    Known-append ks (suc (length ks), own, some held) refs v.known,
                  ))
          | inr old ↦
              let (b, q, e, r) = find_ref-Known ks refs (body_key digest body) v.known old in
              let same : b ≡ body =
                collision_free b body q there (sym (body_key-digest digest body b e)) in
              let k : Key = (suc (length ks), find_ref (body_key digest body) refs, none) in
              rw old (
                Restorable-snoc ks refs refs bs k body v refl
                  (resolve-append ks k (find_ref (body_key digest body) refs) body
                    (r ∙ ap some same))
                  (Known-append ks k refs v.known))
        ]
