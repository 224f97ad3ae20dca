-- ===== src/Input/MouseRouting.antt =====
-- KMouseInputRoutingState (src/core/input/mouseinputroutingstate.h and .cpp): which channel an input
-- message takes, and under which key it may replace an earlier one. The set of buttons is a list
-- without repetition. A key is a constructor for each of the texts of the source, which are "",
-- "mouseMove" and "dragMouseMove:" with the number.
pub mod Drag
mod Tests
use win_remote_control.Prelude.{
  Outcome, ok, err, passed, ℕ, zero, suc, ◌+◌, ◌-◌, ◌*◌, ◌/◌, ◌%◌, ◌^◌, ◌≤◌, ◌<◌, min, max, ◌≡◌,
  refl, sym, ap, subst, ◌∙◌, ◌≢◌, ◌↔◌, ◌⊎◌, inl, inr, Bool, true, false, not, ◌&&◌, ◌||◌, Option,
  none, some, List, [], ◌∷◌, ◌++◌, map, Memᴰ, append-nil, append_assoc, arith, String, str_eq,
  str_eq_iff, ltb, leb, ◌==◌, if◌then◌else◌, ltb→lt, lt→ltb, leb→le, ==_iff, tests, Bool-cases,
  Option-cases, length, take, drop, length-append, length-drop, take-append_length,
  drop-append_length, List-cases, take_all, length-take, byte_at, write_le, write_be, read_le,
  read_be, byte_at-append, take-append, drop-append, byte_at-skip, drop-skip, take-skip,
}

pub data InputMessageType : Type 0 where
  invalid mouse_move mouse_button mouse_wheel key text : InputMessageType

-- Of a message, what the routing reads.
pub record InputMessage : Type 0 where
  pub type : InputMessageType
  pub button : ℕ
  pub pressed : Bool

pub data CoalescingKey : Type 0 where
  no_key any_move : CoalescingKey
  drag_move : ℕ → CoalescingKey

pub record MouseInputRouteDecision : Type 0 where
  pub use_realtime_channel : Bool
  pub clear_realtime_queue : Bool
  pub coalescing_key : CoalescingKey

pub record MouseInputRoutingState : Type 0 where
  pub ordered_mouse_drag_enabled : Bool
  pub button_state_epoch : ℕ  -- quint64
  pub pressed_buttons : List ℕ

abbrev pub insert : ℕ → List ℕ → List ℕ
insert b [] = b ∷ []
insert b (c ∷ cs) = if b == c then c ∷ cs else c ∷ insert b cs

abbrev pub remove : ℕ → List ℕ → List ℕ
remove b [] = []
remove b (c ∷ cs) = let rest = remove b cs in if b == c then rest else c ∷ rest

abbrev pub is_empty : List ℕ → Bool
is_empty [] = true
is_empty (c ∷ cs) = false

abbrev pub next_epoch : ℕ → ℕ
next_epoch n = (n + 1) % 2 ^ 64

unfoldable pub reset : MouseInputRoutingState → MouseInputRoutingState
reset s = record s { pressed_buttons = []; button_state_epoch = 0 }

unfoldable pub set_ordered_mouse_drag_enabled :
    Bool → MouseInputRoutingState → MouseInputRoutingState
set_ordered_mouse_drag_enabled enabled s = record (reset s) { ordered_mouse_drag_enabled = enabled }

unfoldable pub has_pressed_buttons : MouseInputRoutingState → Bool
has_pressed_buttons s = not (is_empty s.pressed_buttons)

abbrev pub no_decision : MouseInputRouteDecision
no_decision = record {
  use_realtime_channel = false;
  clear_realtime_queue = false;
  coalescing_key = no_key;
}

-- `prepare` for a message that is neither a button nor a move.
unfoldable pub prepare_other :
    MouseInputRoutingState → MouseInputRoutingState × MouseInputRouteDecision
prepare_other s =
    if s.ordered_mouse_drag_enabled && not (is_empty s.pressed_buttons)
    then (record s { button_state_epoch = next_epoch s.button_state_epoch }, no_decision)
    else (s, no_decision)

unfoldable pub prepare_button :
    InputMessage → MouseInputRoutingState → MouseInputRoutingState × MouseInputRouteDecision
prepare_button m s = (
  record s {
    button_state_epoch = next_epoch s.button_state_epoch;
    pressed_buttons =
        if m.pressed then insert m.button s.pressed_buttons else remove m.button s.pressed_buttons;
  },
  record no_decision { clear_realtime_queue = s.ordered_mouse_drag_enabled && m.pressed },
)

unfoldable pub prepare_move :
    Bool → MouseInputRoutingState → MouseInputRoutingState × MouseInputRouteDecision
prepare_move available s = (
  s,
  record {
    use_realtime_channel =
        available && (not s.ordered_mouse_drag_enabled || is_empty s.pressed_buttons);
    clear_realtime_queue = false;
    coalescing_key =
        if s.ordered_mouse_drag_enabled && not (is_empty s.pressed_buttons)
        then drag_move s.button_state_epoch
        else any_move;
  },
)

unfoldable pub prepare :
    InputMessage → Bool → MouseInputRoutingState → MouseInputRoutingState × MouseInputRouteDecision
prepare m available s = elim m.type [
  | mouse_button ↦ prepare_button m s
  | mouse_move ↦ prepare_move available s
  | _ ↦ prepare_other s
]
