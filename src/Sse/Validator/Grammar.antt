-- ===== src/Sse/Validator/Grammar.antt =====
-- The streams that the validator finds complete.
use steady_proxy.Base.{
  ℕ, zero, suc, Bool, true, false, List, [], ◌∷◌, map, ◌≡◌, refl, sym, subst, ◌↔◌, arith,
}
use steady_proxy.Sse.Parser.{Event}
use steady_proxy.Sse.Validator.{
  Validator, new_validator, Kind, message_start, block_start, block_stop, delta, message_stop,
  other, kind_of, accept_kind, accept, terminal,
}

-- Behind the end of a message: nothing but more ends and unknown events.
pub data Ended : List Kind → Type 0 where
  nil : Ended []
  again : {ks : List Kind} → Ended ks → Ended (message_stop ∷ ks)
  skip : {ks : List Kind} → Ended ks → Ended (other ∷ ks)

-- The body of a message, with `n` blocks open.
pub data Body : ℕ → List Kind → Type 0 where
  opens : {n : ℕ} {ks : List Kind} → Body (suc n) ks → Body n (block_start ∷ ks)
  closes : {n : ℕ} {ks : List Kind} → Body n ks → Body (suc n) (block_stop ∷ ks)
  grows : {n : ℕ} {ks : List Kind} → Body n ks → Body n (delta ∷ ks)
  idle : {n : ℕ} {ks : List Kind} → Body n ks → Body n (other ∷ ks)
  ends : {ks : List Kind} → Ended ks → Body zero (message_stop ∷ ks)

-- A complete message: one start, balanced blocks, an end.
pub data Message : List Kind → Type 0 where
  starts : {ks : List Kind} → Body zero ks → Message (message_start ∷ ks)
  waits : {ks : List Kind} → Message ks → Message (other ∷ ks)

run_kinds : Validator → List Kind → Validator
run_kinds v [] = v
run_kinds v (k ∷ ks) = run_kinds (accept_kind v k) ks

-- The validator after a stream.
unfoldable pub run : Validator → List Event → Validator
run v [] = v
run v (ev ∷ evs) = run (accept v ev) evs

run-run_kinds :
    (v : Validator) (evs : List Event) → run v evs ≡ run_kinds v (map (λ ev. kind_of ev.name) evs)
unfolding run run_kinds accept
run-run_kinds v [] = refl
run-run_kinds v (ev ∷ evs) = run-run_kinds (accept_kind v (kind_of ev.name)) evs

keeps_invalid : (v : Validator) (k : Kind) → v.invalid ≡ true → (accept_kind v k).invalid ≡ true
unfolding accept_kind
keeps_invalid v message_start h = ground arith
keeps_invalid v _ h = ground arith

-- A violation is never forgotten.
run_kinds_invalid :
    (v : Validator) (ks : List Kind) → v.invalid ≡ true → terminal (run_kinds v ks) ≡ false
unfolding run_kinds
run_kinds_invalid v [] h = unfold terminal in ground arith
run_kinds_invalid v (k ∷ ks) h = run_kinds_invalid (accept_kind v k) ks (keeps_invalid v k h)

violated :
    {P : Type 0} (v : Validator) (ks : List Kind)
    → v.invalid ≡ true
    → terminal (run_kinds v ks) ≡ true
    → P
violated v ks h t = absurd (apart (run_kinds_invalid v ks h) t)
  where
    apart : {b : Bool} → b ≡ false → b ≡ true → ⊥
    apart p q = cc

abbrev inside : ℕ → Validator
inside n = record { saw_start = true; opened = n; saw_stop = false; invalid = false }

abbrev after_end : Validator
after_end = record { saw_start = true; opened = 0; saw_stop = true; invalid = false }

to_Ended : (ks : List Kind) → terminal (run_kinds after_end ks) ≡ true → Ended ks
unfolding run_kinds accept_kind
to_Ended [] h = nil
to_Ended (message_stop ∷ ks) h = again (to_Ended ks h)
to_Ended (other ∷ ks) h = skip (to_Ended ks h)
to_Ended (k ∷ ks) h = violated _ ks refl h

from_Ended : {ks : List Kind} → Ended ks → terminal (run_kinds after_end ks) ≡ true
unfolding run_kinds accept_kind
from_Ended nil = unfold terminal in refl
from_Ended (again e) = from_Ended e
from_Ended (skip e) = from_Ended e

close_inside : (n : ℕ) → accept_kind (inside (suc n)) block_stop ≡ inside n
unfolding accept_kind
close_inside n = ground arith

to_Body : (ks : List Kind) (n : ℕ) → terminal (run_kinds (inside n) ks) ≡ true → Body n ks
unfolding run_kinds accept_kind
to_Body [] n h = absurd (unfold terminal in cc)
to_Body (message_start ∷ ks) n h = violated _ ks refl h
to_Body (block_start ∷ ks) n h = opens (to_Body ks (suc n) h)
to_Body (block_stop ∷ ks) zero h = violated _ ks refl h
to_Body (block_stop ∷ ks) (suc n) h =
    closes (to_Body ks n (subst (λ v. terminal (run_kinds v ks) ≡ true) (close_inside n) h))
to_Body (delta ∷ ks) n h = grows (to_Body ks n h)
to_Body (message_stop ∷ ks) zero h = ends (to_Ended ks h)
to_Body (message_stop ∷ ks) (suc n) h =
    violated (accept_kind (inside (suc n)) message_stop) ks (ground arith) h
to_Body (other ∷ ks) n h = idle (to_Body ks n h)

from_Body : {n : ℕ} {ks : List Kind} → Body n ks → terminal (run_kinds (inside n) ks) ≡ true
unfolding run_kinds accept_kind
from_Body (opens b) = from_Body b
from_Body (closes {n} {ks} b) =
    subst (λ v. terminal (run_kinds v ks) ≡ true) (sym (close_inside n)) (from_Body b)
from_Body (grows b) = from_Body b
from_Body (idle b) = from_Body b
from_Body (ends e) = from_Ended e

to_Message : (ks : List Kind) → terminal (run_kinds new_validator ks) ≡ true → Message ks
unfolding run_kinds accept_kind
to_Message [] h = absurd (unfold terminal in cc)
to_Message (message_start ∷ ks) h = starts (to_Body ks 0 h)
to_Message (message_stop ∷ ks) h = violated _ ks refl h
to_Message (block_start ∷ ks) h = violated _ ks refl h
to_Message (block_stop ∷ ks) h = violated _ ks refl h
to_Message (delta ∷ ks) h = violated _ ks refl h
to_Message (other ∷ ks) h = waits (to_Message ks h)

from_Message : {ks : List Kind} → Message ks → terminal (run_kinds new_validator ks) ≡ true
unfolding run_kinds accept_kind
from_Message (starts b) = from_Body b
from_Message (waits m) = from_Message m

-- The validator finds a stream complete exactly if its events form a message: one
-- `message_start`, content blocks opened and closed in balance with deltas between, and a
-- `message_stop` with no block open, behind which only further stops may come. Pings and unknown
-- events may stand anywhere.
pub terminal-run :
    (evs : List Event)
    → (terminal (run new_validator evs) ≡ true) ↔ Message (map (λ ev. kind_of ev.name) evs)
terminal-run evs = (
  λ h. to_Message _ (rw (run-run_kinds new_validator evs) at h),
  λ m. rw (run-run_kinds new_validator evs) (from_Message m),
)
