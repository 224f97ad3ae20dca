-- ===== src/Session/Machine/Tests.antt =====
-- Sessions that run through the states of sessionstatemachine.cpp.
use win_remote_control.Prelude.{◌≡◌, refl, ◌⊎◌, inr, true, false, List, [], ◌∷◌, Memᴰ}
use win_remote_control.Session.Machine.{
  SessionState, SessionStateMachine, awaiting_approval, begin_reconnecting, connected, controlled,
  controller, initial, restore, stopping, streaming,
}
use win_remote_control.Session.Machine.Run.{
  Event, approve, authenticate, authenticated, connect, connected_marked, listen, reconnect, run,
  step, stop, stop_stream, stream, timed_out,
}
use win_remote_control.Session.Machine.Diagram.{Edge, step_follows_diagram}
use win_remote_control.Session.Machine.Invariant.{Inv, run-Inv}
use win_remote_control.Session.Machine.Approval.{
  admitted_needs_approval, asking, restore_skips_approval,
}
use win_remote_control.Session.Machine.Recovery.{
  restore-begin_reconnecting, shutdown_waits_for_finish, shutting_down,
}

-- A controller that has called, with its call approved and its pictures running.
abbrev calls : List Event
calls = connect ∷ (authenticate ∷ (authenticated ∷ (approve ∷ (connected_marked ∷ (stream ∷ [])))))

-- The same machine after the fifth and the sixth of these calls.
abbrev connected_machine : SessionStateMachine
connected_machine = record {
  role = controller;
  state = connected;
  restore_streaming = false;
  generation = 1;
}

abbrev streaming_machine : SessionStateMachine
streaming_machine = record {
  role = controller;
  state = streaming;
  restore_streaming = false;
  generation = 1;
}

run-calls : run calls initial ≡ streaming_machine
unfolding run step
run-calls = refl

step_follows_diagram_example :
    ((step stop_stream streaming_machine).1 ≡ true
      → Edge stop_stream streaming (step stop_stream streaming_machine).0.state)
    × ((t : SessionState)
        → Edge stop_stream streaming t
        → (step stop_stream streaming_machine).1 ≡ true)
    × ((step stop_stream streaming_machine).1 ≡ false
        → (step stop_stream streaming_machine).0 ≡ streaming_machine)
step_follows_diagram_example = step_follows_diagram stop_stream streaming_machine

run-Inv_example : Inv (run calls initial)
run-Inv_example = run-Inv calls

admitted_needs_approval_example : Memᴰ approve calls ⊎ Memᴰ reconnect calls
unfolding run step
admitted_needs_approval_example = admitted_needs_approval calls refl

-- A machine that waits for the approval of its call.
abbrev waiting_machine : SessionStateMachine
waiting_machine = record {
  role = controlled;
  state = awaiting_approval;
  restore_streaming = false;
  generation = 3;
}

restore_skips_approval_example :
    (restore (begin_reconnecting waiting_machine).0).0.state ≡ connected
restore_skips_approval_example = restore_skips_approval waiting_machine asking

restore-begin_reconnecting_example :
    ((begin_reconnecting streaming_machine).1 ≡ true)
    × (restore (begin_reconnecting streaming_machine).0 ≡ (streaming_machine, true))
restore-begin_reconnecting_example = restore-begin_reconnecting streaming_machine (inr refl) refl

abbrev stopping_machine : SessionStateMachine
stopping_machine = record {
  role = controlled;
  state = stopping;
  restore_streaming = true;
  generation = 3;
}

stop_waits : shutting_down (run (listen ∷ (timed_out ∷ (stop ∷ []))) stopping_machine).state ≡ true
stop_waits =
    shutdown_waits_for_finish (listen ∷ (timed_out ∷ (stop ∷ []))) stopping_machine refl refl
