-- ===== src/Session/Machine/Queries.antt =====
-- The `can…` and `is…` questions of KSessionStateMachine (sessionstatemachine.cpp).
use win_remote_control.Prelude.{◌≡◌, ◌↔◌, Bool, true, false, ◌&&◌, ◌||◌, arith}
use win_remote_control.Session.Machine.{
  SessionStateMachine, state_eq, role_eq, controller, controlled, connecting,
  authenticating_identity, pairing, awaiting_approval, negotiating, connected, streaming, stopping,
  shutdown_timed_out,
}

pub can_enter_remote_desktop : SessionStateMachine → Bool
can_enter_remote_desktop m = role_eq m.role controller && state_eq m.state connected

pub can_leave_remote_desktop : SessionStateMachine → Bool
can_leave_remote_desktop m = role_eq m.role controller && state_eq m.state streaming

pub can_start_controlled_streaming : SessionStateMachine → Bool
can_start_controlled_streaming m = role_eq m.role controlled && state_eq m.state connected

pub can_send_input : SessionStateMachine → Bool
can_send_input m = role_eq m.role controller && state_eq m.state streaming

pub can_receive_input : SessionStateMachine → Bool
can_receive_input m = role_eq m.role controlled && state_eq m.state streaming

pub can_send_video : SessionStateMachine → Bool
can_send_video m = role_eq m.role controlled && state_eq m.state streaming

pub can_sync_clipboard : SessionStateMachine → Bool
can_sync_clipboard m = state_eq m.state streaming

pub is_connecting : SessionStateMachine → Bool
is_connecting m = role_eq m.role controller && state_eq m.state connecting

pub is_negotiating : SessionStateMachine → Bool
is_negotiating m =
    state_eq m.state connecting
    || (state_eq m.state authenticating_identity
        || (state_eq m.state pairing
            || (state_eq m.state awaiting_approval || state_eq m.state negotiating)))

pub is_stopping : SessionStateMachine → Bool
is_stopping m = state_eq m.state stopping

pub is_shutdown_timed_out : SessionStateMachine → Bool
is_shutdown_timed_out m = state_eq m.state shutdown_timed_out

pub can_complete_shutdown : SessionStateMachine → Bool
unfolding is_stopping is_shutdown_timed_out
can_complete_shutdown m = is_stopping m || is_shutdown_timed_out m

pub should_keep_listening : SessionStateMachine → Bool
should_keep_listening m = role_eq m.role controlled

-- While streaming, exactly one of the two sides of the input path is open, the side that receives
-- input is the one that sends video, and the clipboard is shared; in any other state all are shut.
streaming_paths :
    (m : SessionStateMachine)
    → (can_send_video m ≡ can_receive_input m)
      × (can_sync_clipboard m ≡ (can_send_input m || can_receive_input m))
      × ((can_send_input m && can_receive_input m) ≡ false)
      × ((can_sync_clipboard m ≡ true) ↔ (m.state ≡ streaming))
unfolding can_send_video can_receive_input can_sync_clipboard can_send_input
streaming_paths m = ground arith
