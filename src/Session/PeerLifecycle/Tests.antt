-- ===== src/Session/PeerLifecycle/Tests.antt =====
-- Runs of KPeerLifecycleController (src/session/peerlifecyclecontroller.cpp). The world counts the calls
-- of the transport, whose start always fails.
use win_remote_control.Prelude.{ℕ, ◌+◌, ◌≡◌, refl, true, List, [], ◌∷◌, ◌++◌}
use win_remote_control.Session.PeerLifecycle.{
  After, Event, PeerInitializationResult, finishes, handle_rollback_timer, handle_shutdown_finished,
  initialize, initializes, new_controller, peer_shutdown_finished, request_shutdown,
  requests_shutdown, rollback_finished, rollback_needed, rollback_started, rollback_timeout, run,
  timer_fires,
}
use win_remote_control.Session.PeerLifecycle.Rollback.{Waits, run-Waits}
use win_remote_control.Session.Machine.{SessionRole, controlled, controller}

abbrev fails : SessionRole → ℕ → ℕ → ℕ × PeerInitializationResult
fails role generation calls =
    (calls + 1, record { status = rollback_needed; technical_message = "no channel" })

abbrev counts : ℕ → ℕ → ℕ
counts generation calls = calls + 1

abbrev rolling_back : After ℕ
rolling_back = (initialize fails counts controller new_controller 0).0

-- A second start is refused before it comes to the transport, and the timeout is told once.
abbrev while_pending : List (Event SessionRole)
while_pending =
    initializes controlled ∷ timer_fires ∷ requests_shutdown 9 ∷ timer_fires ∷ finishes 4 ∷ []

all_signals :
    (run fails counts
      (initializes controller ∷ while_pending ++ finishes 1 ∷ [])
      new_controller
      0).signals
    ≡ rollback_started 1 3000
      ∷ rollback_timeout 1 3000
      ∷ rollback_finished 1 true
      ∷ peer_shutdown_finished 9
      ∷ []
unfolding run initialize request_shutdown handle_rollback_timer handle_shutdown_finished
all_signals = refl

run-Waits_example :
    Waits rolling_back.controller (run fails counts while_pending rolling_back.controller 1)
unfolding initialize
run-Waits_example = run-Waits fails counts while_pending rolling_back.controller 1 refl refl
