-- ===== src/Session/Machine/Recovery.antt =====
-- Interruption, recovery and shutdown of a session (sessionstatemachine.cpp).
use win_remote_control.Prelude.{
  ◌≡◌, ◌≢◌, ◌⊎◌, Bool, true, false, ◌&&◌, ◌||◌, List, [], ◌∷◌, arith, if◌then◌else◌,
}
use win_remote_control.Session.Machine.{
  SessionStateMachine, SessionState, role_eq, controlled, idle, listening, finish, begin_stopping,
  connected, streaming, stopping, shutdown_timed_out, begin_reconnecting, restore,
}
use win_remote_control.Session.Machine.Run.{Event, role_set, finished, step, run}

-- A session that was connected or streaming when the peer connection broke is, once restored, the
-- same session as before; both steps are accepted.
pub restore-begin_reconnecting :
    (m : SessionStateMachine)
    → (m.state ≡ connected) ⊎ (m.state ≡ streaming)
    → m.restore_streaming ≡ false
    → ((begin_reconnecting m).1 ≡ true) × (restore (begin_reconnecting m).0 ≡ (m, true))
unfolding restore begin_reconnecting
restore-begin_reconnecting m h r = ground arith

abbrev pub shutting_down : SessionState → Bool
shutting_down stopping = true
shutting_down shutdown_timed_out = true
shutting_down _ = false

abbrev is_finish : Event → Bool
is_finish (finished k) = true
is_finish _ = false

step-shutting_down :
    (e : Event) (m : SessionStateMachine)
    → shutting_down m.state ≡ true
    → (shutting_down (step e m).0.state ≡ true) ⊎ (is_finish e ≡ true)
unfolding step
step-shutting_down (role_set r) m h = ground arith
step-shutting_down _ m h = ground arith

abbrev pub has_finish : List Event → Bool
has_finish [] = false
has_finish (e ∷ es) = is_finish e || has_finish es

-- A machine that is shutting down leaves the two shutdown states by `finish` only: through any
-- events without one it stays there.
pub shutdown_waits_for_finish :
    (es : List Event) (m : SessionStateMachine)
    → shutting_down m.state ≡ true
    → has_finish es ≡ false
    → shutting_down (run es m).state ≡ true
unfolding run
shutdown_waits_for_finish [] m h n = h
shutdown_waits_for_finish (e ∷ es) m h n =
    shutdown_waits_for_finish es (step e m).0 (ground (arith, step-shutting_down e m h))
      (ground arith)

-- Every session that is not idle or shutting down can be stopped, and `finish` then leads back to
-- listening if it is asked for and the machine is the controlled side, and to idle otherwise, with
-- the role and the generation kept.
finish-begin_stopping :
    (m : SessionStateMachine) (k : Bool)
    → m.state ≢ idle
    → shutting_down m.state ≡ false
    → ((begin_stopping m).1 ≡ true)
      × ((begin_stopping m).0.state ≡ stopping)
      × (finish k (begin_stopping m).0 ≡ record m {
        state = if k && role_eq m.role controlled then listening else idle;
        restore_streaming = false;
      })
unfolding begin_stopping finish
finish-begin_stopping m k n h = ground arith
