-- ===== src/Session/Machine/Run.antt =====
-- The public methods that change a KSessionStateMachine, as events, and sequences of them.
use win_remote_control.Prelude.{Bool, true, List, [], ◌∷◌}
use win_remote_control.Session.Machine.{
  SessionStateMachine, SessionRole, set_role, begin_listening, begin_connecting,
  begin_awaiting_approval, begin_authenticating_identity, begin_pairing,
  complete_identity_authentication, approve_connection, reject_connection, mark_connected,
  begin_streaming, stop_streaming, begin_reconnecting, restore, begin_stopping,
  mark_shutdown_timed_out, mark_initialization_rollback_timed_out, finish,
}

pub data Event : Type 0 where
  role_set : SessionRole → Event
  listen connect await authenticate pair authenticated approve reject : Event
  connected_marked stream stop_stream reconnect restored stop : Event
  timed_out rollback_timed_out : Event
  finished : Bool → Event

unfoldable pub step : Event → SessionStateMachine → SessionStateMachine × Bool
unfolding set_role begin_listening begin_connecting begin_awaiting_approval
    begin_authenticating_identity begin_pairing complete_identity_authentication approve_connection
    reject_connection mark_connected begin_streaming stop_streaming begin_reconnecting restore
    begin_stopping mark_shutdown_timed_out mark_initialization_rollback_timed_out finish
step (role_set r) m = set_role r m
step listen m = begin_listening m
step connect m = begin_connecting m
step await m = begin_awaiting_approval m
step authenticate m = begin_authenticating_identity m
step pair m = begin_pairing m
step authenticated m = complete_identity_authentication m
step approve m = approve_connection m
step reject m = reject_connection m
step connected_marked m = mark_connected m
step stream m = begin_streaming m
step stop_stream m = stop_streaming m
step reconnect m = begin_reconnecting m
step restored m = restore m
step stop m = begin_stopping m
step timed_out m = mark_shutdown_timed_out m
step rollback_timed_out m = mark_initialization_rollback_timed_out m
step (finished k) m = (finish k m, true)

unfoldable pub run : List Event → SessionStateMachine → SessionStateMachine
run [] m = m
run (e ∷ es) m = run es (step e m).0
