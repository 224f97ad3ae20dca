-- ===== src/Input/MouseRouting/Tests.antt =====
-- A drag (mouseinputroutingstate.cpp) with a wheel message between two moves.
use win_remote_control.Prelude.{◌≡◌, refl, ◌≢◌, Bool, true, false, List, [], ◌∷◌, arith}
use win_remote_control.Input.MouseRouting.{
  InputMessage, MouseInputRoutingState, has_pressed_buttons, mouse_move, mouse_wheel, prepare_move,
}
use win_remote_control.Input.MouseRouting.Drag.{drag_key_separates, move_key, route}

abbrev dragging : MouseInputRoutingState
dragging = record {
  ordered_mouse_drag_enabled = true;
  button_state_epoch = 4;
  pressed_buttons = 1 ∷ [];
}

abbrev between : List (InputMessage × Bool)
between =
    (record { type = mouse_move; button = 0; pressed = false }, true)
    ∷ ((record { type = mouse_wheel; button = 0; pressed = false }, true) ∷ [])

drag_key_separates_example :
    ((prepare_move true dragging).1.use_realtime_channel ≡ false)
    × (move_key dragging ≢ move_key (route between dragging))
unfolding has_pressed_buttons
drag_key_separates_example = drag_key_separates between dragging true refl (omega arith) refl
