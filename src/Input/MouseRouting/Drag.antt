-- ===== src/Input/MouseRouting/Drag.antt =====
-- What the keys of KMouseInputRoutingState keep apart (src/core/input/mouseinputroutingstate.cpp).
use win_remote_control.Prelude.{
  ◌+◌, ◌^◌, ◌≤◌, ◌<◌, ◌≡◌, sym, subst, ◌≢◌, inl, inr, Bool, true, false, ◌&&◌, List, [], ◌∷◌, arith,
  Bool-cases, length,
}
use win_remote_control.Input.MouseRouting.{
  InputMessage, InputMessageType, mouse_move, mouse_button, MouseInputRoutingState, prepare,
  prepare_move, prepare_button, prepare_other, CoalescingKey, has_pressed_buttons,
}

-- Messages routed in order, each with what is known of the realtime channel then, with no change of
-- the setting between them.
unfoldable pub route : List (InputMessage × Bool) → MouseInputRoutingState → MouseInputRoutingState
route [] s = s
route ((m, available) ∷ ms) s = route ms (prepare m available s).0

abbrev pub is_move : InputMessageType → Bool
is_move mouse_move = true
is_move _ = false

abbrev pub only_moves : List (InputMessage × Bool) → Bool
only_moves [] = true
only_moves ((m, available) ∷ ms) = is_move m.type && only_moves ms

-- The key that a move gets in a state.
abbrev pub move_key : MouseInputRoutingState → CoalescingKey
move_key s = (prepare_move true s).1.coalescing_key

-- Ordered dragging with a button down.
abbrev pub is_dragging : MouseInputRoutingState → Bool
is_dragging s = s.ordered_mouse_drag_enabled && has_pressed_buttons s

-- A message counts the epoch up by one or leaves it, and never changes the setting.
prepare_epoch :
    (m : InputMessage) (available : Bool) (s : MouseInputRoutingState)
    → s.button_state_epoch + 1 < 2 ^ 64
    → (s.button_state_epoch ≤ (prepare m available s).0.button_state_epoch)
      × ((prepare m available s).0.button_state_epoch ≤ s.button_state_epoch + 1)
      × ((is_move m.type ≡ false)
          → is_dragging s ≡ true
          → (prepare m available s).0.button_state_epoch ≡ s.button_state_epoch + 1)
      × ((is_move m.type ≡ true) → (prepare m available s).0 ≡ s)
unfolding prepare prepare_move prepare_button prepare_other has_pressed_buttons
prepare_epoch m available s h = elim m.type [
  | mouse_move ↦ ground arith
  | mouse_button ↦ ground arith
  | _ ↦ ground arith
]

route_epoch :
    (ms : List (InputMessage × Bool)) (s : MouseInputRoutingState)
    → s.button_state_epoch + length ms < 2 ^ 64
    → s.button_state_epoch ≤ (route ms s).button_state_epoch
unfolding route
route_epoch [] s h = ground arith
route_epoch ((m, available) ∷ ms) s h =
    let e = prepare_epoch m available s (omega arith) in
    let r = route_epoch ms (prepare m available s).0 (omega (arith, e)) in omega (arith, e, r)

route-dragging :
    (ms : List (InputMessage × Bool)) (s : MouseInputRoutingState)
    → is_dragging s ≡ true
    → s.button_state_epoch + length ms < 2 ^ 64
    → only_moves ms ≡ false
    → s.button_state_epoch < (route ms s).button_state_epoch
unfolding route
route-dragging [] s d h o = cc
route-dragging ((m, available) ∷ ms) s d h o =
    let e = prepare_epoch m available s (omega arith) in
    elim (Bool-cases (is_move m.type)) [
      | inl moves ↦
          let same = e.3 moves in
          subst (λ t. s.button_state_epoch < (route ms t).button_state_epoch) (sym same)
            (route-dragging ms s d (omega arith) (ground arith))
      | inr other ↦
          let one_more = e.2 other d in
          let r = route_epoch ms (prepare m available s).0 (omega (arith, one_more)) in
          omega (arith, one_more, r)
    ]

-- While a button is down with ordered dragging, a move stays off the realtime channel, and a later
-- move with any other message between the two has another key, provided that the epoch and the
-- number of messages between stay below 2 ^ 64.
pub drag_key_separates :
    (ms : List (InputMessage × Bool)) (s : MouseInputRoutingState) (available : Bool)
    → is_dragging s ≡ true
    → s.button_state_epoch + length ms < 2 ^ 64
    → only_moves ms ≡ false
    → ((prepare_move available s).1.use_realtime_channel ≡ false)
      × (move_key s ≢ move_key (route ms s))
unfolding prepare_move has_pressed_buttons
drag_key_separates ms s available d h o =
    let more = route-dragging ms s d h o in (ground arith, ground arith)
