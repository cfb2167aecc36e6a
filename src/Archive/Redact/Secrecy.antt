-- ===== src/Archive/Redact/Secrecy.antt =====
-- What is redacted does not depend on the secrets.
use steady_proxy.Base.{
  ℕ, ◌-◌, true, false, List, [], ◌∷◌, ◌++◌, map, Option, none, some, Text, text, is_nil, length,
  drop, cut, cut_at, any, is_nil_eq, leb, ◌==◌, if◌then◌else◌, ◌⊎◌, inl, inr, ◌≡◌, refl, arith,
  Bool-cases, Option-cases, sym, ap, ◌∙◌,
}
use mathlib.Core.List.{append_assoc}
use steady_proxy.Failure.{Header}
use steady_proxy.Headers.{split_at, cons_to_first}
use steady_proxy.Archive.Redact.{
  UrlLib, is_secret_header, mask_header, masked_onto, mask_headers_with_names, is_secret_name, join,
  name_part, redacted_part, redact_parts, rejoined, redact_query_with_names, requery,
  redacted_request_uri, redacted_upstream_url,
}

-- All that the archive keeps of the value of a secret header.
abbrev pub hint : Text → Option Text
hint v = if leb 8 (length v) then some (drop (length v - 4) v) else none

abbrev pub ValuesAlike : List Text → List Text → Type 0
ValuesAlike [] [] = Unit
ValuesAlike (v ∷ vs) (w ∷ ws) = (hint v ≡ hint w) × ValuesAlike vs ws
ValuesAlike _ _ = ⊥

-- The same headers, but for the values of secret ones that have the same hints.
abbrev pub HeadersAlike : Header → Header → Type 0
HeadersAlike [] [] = Unit
HeadersAlike ((k, vs) ∷ h) ((j, ws) ∷ g) =
    (k ≡ j) × ((vs ≡ ws) ⊎ ((is_secret_header k ≡ true) × ValuesAlike vs ws)) × HeadersAlike h g
HeadersAlike _ _ = ⊥

mask_header-hint :
    (k v w : Text) → is_secret_header k ≡ true → hint v ≡ hint w → mask_header k v ≡ mask_header k w
unfolding mask_header
mask_header-hint k v w s h = ground (arith, s, h)

map_mask-Alike :
    (k : Text) (vs ws : List Text)
    → is_secret_header k ≡ true
    → ValuesAlike vs ws
    → map (mask_header k) vs ≡ map (mask_header k) ws
map_mask-Alike k [] [] s a = refl
map_mask-Alike k (v ∷ vs) (w ∷ ws) s a =
    rw (mask_header-hint k v w s a.0, map_mask-Alike k vs ws s a.1)
map_mask-Alike k [] (w ∷ ws) s a = absurd a
map_mask-Alike k (v ∷ vs) [] s a = absurd a

masked-Alike :
    (k : Text) (vs ws : List Text) (h : Header)
    → is_secret_header k ≡ true
    → ValuesAlike vs ws
    → masked_onto k (map (mask_header k) vs) h ≡ masked_onto k (map (mask_header k) ws) h
unfolding masked_onto
masked-Alike k [] [] h s a = refl
masked-Alike k (v ∷ vs) (w ∷ ws) h s a =
    rw (mask_header-hint k v w s a.0, map_mask-Alike k vs ws s a.1)
masked-Alike k [] (w ∷ ws) h s a = absurd a
masked-Alike k (v ∷ vs) [] h s a = absurd a

pub mask_headers-Alike :
    (h g : Header) → HeadersAlike h g → mask_headers_with_names h ≡ mask_headers_with_names g
unfolding mask_headers_with_names
mask_headers-Alike [] [] a = refl
mask_headers-Alike ((k, vs) ∷ h) ((j, ws) ∷ g) a = elim a.1 [
  | inl e ↦ ground (arith, a.0, e, mask_headers-Alike h g a.2)
  | inr (s, alike) ↦ ground (
    arith,
    a.0,
    s,
    masked-Alike k vs ws (mask_headers_with_names h).0 s alike,
    mask_headers-Alike h g a.2,
  )
]
mask_headers-Alike [] ((j, ws) ∷ g) a = absurd a
mask_headers-Alike ((k, vs) ∷ h) [] a = absurd a

redacted_part-name : (p : Text) → redacted_part p ≡ name_part p ++ text "=REDACTED"
unfolding redacted_part name_part
redacted_part-name p = elim (Option-cases (cut p (text "="))) [
  | inl e ↦ ground (arith, e)
  | inr (nv, e) ↦ ground (arith, e, append_assoc nv.0 (text "=") (text "REDACTED"))
]

split_at-cons : (b : ℕ) (s : Text) → (x : Text) × (xs : List Text) × (split_at b s ≡ x ∷ xs)
unfolding split_at cons_to_first
split_at-cons b [] = ([], [], refl)
split_at-cons b (c ∷ s) =
    let (x, xs, e) = split_at-cons b s in
    elim (Bool-cases (c == b)) [ inl y ↦ ([], split_at b s, rw y) | inr n ↦ (c ∷ x, xs, rw (n, e)) ]

join-cons_to_first :
    (sep : Text) (c : ℕ) (ss : List Text) → join sep (cons_to_first c ss) ≡ c ∷ join sep ss
unfolding cons_to_first join
join-cons_to_first sep c [] = refl
join-cons_to_first sep c (s ∷ []) = refl
join-cons_to_first sep c (s ∷ t ∷ ss) = refl

pub join-split_at : (b : ℕ) (s : Text) → join (b ∷ []) (split_at b s) ≡ s
unfolding split_at join
join-split_at b [] = refl
join-split_at b (c ∷ s) =
    let (x, xs, e) = split_at-cons b s in
    ground (arith, e, join-split_at b s, join-cons_to_first (b ∷ []) c (split_at b s))

split_at-cancel : (b : ℕ) (s t : Text) → split_at b s ≡ split_at b t → s ≡ t
split_at-cancel b s t e = sym (join-split_at b s) ∙ (ap (join (b ∷ [])) e ∙ join-split_at b t)

before_cons : (s t : Text) → is_nil (s ++ (text "?" ++ t)) ≡ false
before_cons [] t = refl
before_cons (c ∷ s) t = refl

module _ (lib : UrlLib) where
  -- The same part of a query, but for the value of a secret one.
  abbrev pub PartAlike : Text → Text → Type 0
  PartAlike p q =
      (p ≡ q)
      ⊎ ((name_part p ≡ name_part q)
          × ((n : Text) × (lib.query_unescape (name_part p) ≡ some n) × (is_secret_name n ≡ true)))

  abbrev pub PartsAlike : List Text → List Text → Type 0
  PartsAlike [] [] = Unit
  PartsAlike (p ∷ ps) (q ∷ qs) = PartAlike p q × PartsAlike ps qs
  PartsAlike _ _ = ⊥

  -- The same query, but for the values of secret parts.
  pub record QueryAlike (raw other : Text) : Type 0 where
    pub both_empty : is_nil raw ≡ is_nil other
    pub parts : PartsAlike (split_at b'&' raw) (split_at b'&' other)

  redact_parts-Alike :
      (ps qs : List Text) → PartsAlike ps qs → redact_parts lib ps ≡ redact_parts lib qs
  unfolding redact_parts
  redact_parts-Alike [] [] a = refl
  redact_parts-Alike (p ∷ ps) (q ∷ qs) (inl e, a) = ground (arith, e, redact_parts-Alike ps qs a)
  redact_parts-Alike (p ∷ ps) (q ∷ qs) (inr (e, (n, u, s)), a) =
      ground
        (arith, redacted_part-name p, redacted_part-name q, e, u, s, redact_parts-Alike ps qs a)
  redact_parts-Alike [] (q ∷ qs) a = absurd a
  redact_parts-Alike (p ∷ ps) [] a = absurd a

  -- With no secret part, the queries are the same.
  no_secrets :
      (ps qs out : List Text) → PartsAlike ps qs → redact_parts lib ps ≡ some (out, []) → ps ≡ qs
  unfolding redact_parts
  no_secrets [] [] out a h = refl
  no_secrets (p ∷ ps) (q ∷ qs) out (inl e, a) h = elim (Option-cases (redact_parts lib ps)) [
    | inl none_left ↦ ground (arith, none_left, h)
    | inr ((o, []), left) ↦ ground (arith, left, h, e, no_secrets ps qs o a left)
    | inr ((o, n ∷ ns), left) ↦ ground (arith, left, h)
  ]
  no_secrets (p ∷ ps) (q ∷ qs) out (inr (e, (n, u, s)), a) h = ground (arith, u, s, h)
  no_secrets [] (q ∷ qs) out a h = absurd a
  no_secrets (p ∷ ps) [] out a h = absurd a

  -- Where no part is redacted, the queries are the same.
  unredacted :
      (raw other : Text)
      → QueryAlike raw other
      → is_nil raw ≡ false
      → is_nil (redact_query_with_names lib raw).1 ≡ true
      → raw ≡ other
  unfolding redact_query_with_names rejoined
  unredacted raw other q full none_redacted =
      elim (Option-cases (redact_parts lib (split_at b'&' raw))) [
        | inl e ↦ ground (arith, e, full, none_redacted)
        | inr ((out, []), e) ↦
            split_at-cancel b'&' raw other
              (no_secrets (split_at b'&' raw) (split_at b'&' other) out q.parts e)
        | inr ((out, n ∷ ns), e) ↦ ground (arith, e, full, none_redacted)
      ]

  pub redact_query_with_names-Alike :
      (raw other : Text)
      → QueryAlike raw other
      → redact_query_with_names lib raw ≡ redact_query_with_names lib other
  redact_query_with_names-Alike raw other q =
      elim (Bool-cases (is_nil (redact_query_with_names lib raw).1)) [
        | inl y ↦ elim (Bool-cases (is_nil raw)) [
          | inl empty ↦ unfold redact_query_with_names in ground (arith, empty, q.both_empty)
          | inr full ↦ ap (redact_query_with_names lib) (unredacted raw other q full y)
        ]
        | inr n ↦
            let same = redact_parts-Alike (split_at b'&' raw) (split_at b'&' other) q.parts in
            unfold redact_query_with_names in
            unfold rejoined in
            ground
              (arith, n, q.both_empty, same, Option-cases (redact_parts lib (split_at b'&' raw)))
      ]

  pub redacted_upstream_url-Alike :
      (upstream path raw other : Text)
      → QueryAlike raw other
      → redacted_upstream_url lib upstream path raw ≡ redacted_upstream_url lib upstream path other
  unfolding redacted_upstream_url
  redacted_upstream_url-Alike upstream path raw other q =
      ground (arith, q.both_empty, redact_query_with_names-Alike raw other q)

  -- Two request lines that agree but for the query, which ends each of them, or that are the same.
  abbrev pub UrisAlike : Text → Text → Text → Text → Type 0
  UrisAlike uri other_uri raw other =
      ((uri ≡ other_uri) × (raw ≡ other))
      ⊎ ((uri ≡ []) × (other_uri ≡ []))
      ⊎ ((before : Text) × (any (◌==◌ b'?') before ≡ false)
          × (uri ≡ before ++ (text "?" ++ raw))
          × (other_uri ≡ before ++ (text "?" ++ other)))

  pub redacted_request_uri-Alike :
      (path uri other_uri raw other : Text)
      → QueryAlike raw other
      → UrisAlike uri other_uri raw other
      → redacted_request_uri lib uri path raw ≡ redacted_request_uri lib other_uri path other
  unfolding redacted_request_uri requery
  redacted_request_uri-Alike path uri other_uri raw other q (inl (e, f)) = rw (e, f)
  redacted_request_uri-Alike path uri other_uri raw other q (inr (inl (e, f))) =
      ground (arith, e, f, q.both_empty, redact_query_with_names-Alike raw other q)
  redacted_request_uri-Alike path uri other_uri raw other q (inr (inr (before, plain, e, f))) =
      elim (Bool-cases (is_nil (redact_query_with_names lib raw).1)) [
        | inl y ↦ elim (Bool-cases (is_nil raw)) [
          | inl empty ↦
              let same : raw ≡ other =
                is_nil_eq raw empty ∙ sym (is_nil_eq other (sym q.both_empty ∙ empty)) in
              ground (arith, e, f, same)
          | inr full ↦ let same = unredacted raw other q full y in ground (arith, e, f, same)
        ]
        | inr n ↦ ground (
          arith,
          n,
          q.both_empty,
          redact_query_with_names-Alike raw other q,
          e,
          f,
          cut_at b'?' [] before raw plain,
          cut_at b'?' [] before other plain,
          before_cons before raw,
          before_cons before other,
        )
      ]
