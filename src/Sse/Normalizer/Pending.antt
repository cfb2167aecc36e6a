-- ===== src/Sse/Normalizer/Pending.antt =====
-- What is pending for a block, and what an event brings for it.
pub mod Steps
pub mod Tidy
pub mod Runs
use mathlib.Core.List.{append-nil, append_assoc}
use steady_proxy.Base.{
  ℕ, ◌+◌, Bool, true, false, not, ◌&&◌, ◌||◌, List, [], ◌∷◌, ◌++◌, map, Option, none, some, ℤ, eq_ℤ,
  eq_ℤ_eq, eq_ℤ_refl, Text, text, is_nil, is_nil_eq, length, str_eq, str_eq_iff, ltb, if◌then◌else◌,
  ◌≡◌, refl, ◌∙◌, ap, sym, subst, arith, Bool-cases, Option-cases, inl, inr, ◌⊎◌,
}
use steady_proxy.Config.{Config}
use steady_proxy.Sse.Parser.{Event}
use steady_proxy.Sse.Normalizer.{
  Frame, as_it_was, input_delta, ReplayBlock, new_block, Normalizer, new_normalizer, NormError,
  Normalized, block_of, drop_block, take_block, or_new, extended, emit, stop_with, on_held,
  norm_start, norm_delta, hold, norm_stop, norm_payload, render_frame, norm_decoded, normalize,
  payload_of,
}
use steady_proxy.Sse.ToolJson.{
  Payload, Decoder, TruncVerdict, trunc_reject, trunc_wait, trunc_excused, valid_json_object,
  block_uses_input_json,
}

-- The input of block `i` in frames.
abbrev pub frames_text : ℤ → List Frame → Text
frames_text i [] = []
frames_text i (as_it_was raw ∷ fs) = frames_text i fs
frames_text i (input_delta j s ∷ fs) = (if eq_ℤ i j then s else []) ++ frames_text i fs

abbrev block_text : Option ReplayBlock → Text
block_text none = []
block_text (some b) = b.input

abbrev held_text : ℤ → Option (List Frame) → Text
held_text i none = []
held_text i (some fs) = frames_text i fs

-- What is pending for block `i`.
abbrev pub pending : ℤ → Normalizer → Text
pending i n = held_text i n.held ++ block_text (block_of i n.blocks)

-- The input for block `i` that an event brings.
abbrev pub received : ℤ → Payload → Text
received i p =
    if str_eq p.kind (text "content_block_delta")
      && str_eq p.delta_type (text "input_json_delta")
      && eq_ℤ i p.index
    then p.partial_json
    else []

block_of-drop_block :
    (i j : ℤ) (bs : List (ℤ × ReplayBlock))
    → block_of i (drop_block j bs) ≡ (if eq_ℤ i j then none else block_of i bs)
unfolding block_of drop_block
block_of-drop_block i j [] = ground arith
block_of-drop_block i j ((k, b) ∷ bs) = ground (
  arith,
  block_of-drop_block i j bs,
  eq_ℤ_eq i j,
  eq_ℤ_eq i k,
  eq_ℤ_eq j k,
  eq_ℤ_refl i,
  eq_ℤ_refl j,
  eq_ℤ_refl k,
)

frames_text-raw :
    (i : ℤ) (raws : List Text) (raw : Text)
    → frames_text i (map as_it_was raws ++ as_it_was raw ∷ []) ≡ []
frames_text-raw i [] raw = refl
frames_text-raw i (r ∷ raws) raw = frames_text-raw i raws raw

-- A step neither loses nor changes the input of block `i`.
abbrev pub Conserves : ℤ → Text → Text → Normalized → Type 0
Conserves i before new r = r.error ≡ none → frames_text i r.out ++ pending i r.norm ≡ before ++ new

abbrev delta_new : ℤ → Payload → Text
delta_new i p =
    if str_eq p.delta_type (text "input_json_delta") && eq_ℤ i p.index then p.partial_json else []

or_new-text : (o : Option ReplayBlock) → (or_new o).input ≡ block_text o
or_new-text none = refl
or_new-text (some b) = refl

-- A block with no delta has no input.
abbrev TidyBlock : Option ReplayBlock → Type 0
TidyBlock none = Unit
TidyBlock (some b) = b.saw_input_delta ≡ false → b.input ≡ []

-- The input of block `i`, where block `j` is `o` and the others are in `t`.
abbrev around : ℤ → ℤ → Option ReplayBlock → Normalizer → Text
around i j o t = if eq_ℤ i j then block_text o else block_text (block_of i t.blocks)

-- Every block is tidy.
abbrev pub Tidy : Normalizer → Type 0
Tidy n = (i : ℤ) → TidyBlock (block_of i n.blocks)

-- A tool block starts only where no input of its index is pending in a block.
abbrev pub fresh_start : Payload → Normalizer → Bool
fresh_start p n =
    not (str_eq p.kind (text "content_block_start") && block_uses_input_json p.block_type)
    || is_nil (block_text (block_of p.index n.blocks))

start-no_delta :
    (k : Text)
    → str_eq k (text "content_block_start") ≡ true
    → str_eq k (text "content_block_delta") ≡ false
unfolding str_eq
start-no_delta k h =
    subst (λ t. str_eq t (text "content_block_delta") ≡ false)
      (sym ((str_eq_iff k (text "content_block_start")).0 h)) refl

frames_text-append :
    (i : ℤ) (fs gs : List Frame) → frames_text i (fs ++ gs) ≡ frames_text i fs ++ frames_text i gs
frames_text-append i [] gs = refl
frames_text-append i (as_it_was raw ∷ fs) gs = frames_text-append i fs gs
frames_text-append i (input_delta j t ∷ fs) gs =
    ap (λ r. (if eq_ℤ i j then t else []) ++ r) (frames_text-append i fs gs)
    ∙ sym (append_assoc (if eq_ℤ i j then t else []) (frames_text i fs) (frames_text i gs))

-- What an event brings for block `i`; behind a held block, nothing.
abbrev pub brings : ℤ → Option (List Frame) → Event → Option Payload → Text
brings i (some frames) ev payload = []
brings i none ev none = []
brings i none ev (some p) = if is_nil ev.data_text then [] else received i p

abbrev pub fresh : Option Payload → Normalizer → Bool
fresh none n = true
fresh (some p) n = fresh_start p n
