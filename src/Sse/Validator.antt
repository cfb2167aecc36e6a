-- ===== src/Sse/Validator.antt =====
-- The order of the events of an Anthropic stream: `streamValidator` of sse.go.
pub mod Grammar
use steady_proxy.Base.{
  ℕ, suc, ◌-◌, Bool, true, false, not, ◌&&◌, ◌||◌, Text, text, str_eq, ◌==◌, if◌then◌else◌,
}
use steady_proxy.Sse.Parser.{Event}

pub record Validator : Type 0 where
  pub saw_start : Bool
  pub opened : ℕ
  pub saw_stop : Bool
  pub invalid : Bool

abbrev pub new_validator : Validator
new_validator = record { saw_start = false; opened = 0; saw_stop = false; invalid = false }

-- The cases of the switch on the event's name.
pub data Kind : Type 0 where
  message_start block_start block_stop delta message_stop other : Kind

unfoldable pub kind_of : Text → Kind
kind_of name =
    if str_eq name (text "message_start")
    then message_start
    else if str_eq name (text "content_block_start")
    then block_start
    else if str_eq name (text "content_block_stop")
    then block_stop
    else if str_eq name (text "content_block_delta") || str_eq name (text "message_delta")
    then delta
    else if str_eq name (text "message_stop")
    then message_stop
    else other

-- `v` marked invalid if the test holds.
abbrev flag : Bool → Validator → Validator
flag bad v = record v { invalid = bad || v.invalid }

-- `accept`, by the case.
unfoldable pub accept_kind : Validator → Kind → Validator
accept_kind v message_start = record (flag (v.saw_start || v.saw_stop) v) { saw_start = true }
accept_kind v block_start = record (flag (not v.saw_start || v.saw_stop) v) {
  opened = suc v.opened;
}
accept_kind v block_stop =
    if v.opened == 0 || v.saw_stop then flag true v else record v { opened = v.opened - 1 }
accept_kind v delta = flag (not v.saw_start || v.saw_stop) v
accept_kind v message_stop = record (flag (not v.saw_start || not (v.opened == 0)) v) {
  saw_stop = true;
}
accept_kind v other = v

-- `accept`.
unfoldable pub accept : Validator → Event → Validator
accept v ev = accept_kind v (kind_of ev.name)

-- `terminal`.
unfoldable pub terminal : Validator → Bool
terminal v = v.saw_start && v.saw_stop && v.opened == 0 && not v.invalid
