-- ===== src/Session/Machine/Invariant.antt =====
-- What holds of every session machine that the methods of sessionstatemachine.cpp can reach.
use win_remote_control.Prelude.{
  ◌+◌, ◌%◌, ◌^◌, ◌<◌, if◌then◌else◌, Bool, true, false, List, [], ◌∷◌, ◌≡◌, ◌⊎◌, arith,
}
use win_remote_control.Session.Machine.{
  SessionStateMachine, SessionState, controller, controlled, idle, listening, connecting,
  reconnecting, stopping, shutdown_timed_out, initial,
}
use win_remote_control.Session.Machine.Run.{
  Event, role_set, listen, connect, await, authenticate, step, run,
}

-- The side that listens is the controlled one and the side that connects the controller; the mark
-- to resume streaming is set only while reconnecting or, left behind, while shutting down.
pub record Inv (m : SessionStateMachine) : Type 0 where
  pub listener : m.state ≡ listening → m.role ≡ controlled
  pub caller : m.state ≡ connecting → m.role ≡ controller
  pub marked :
      m.restore_streaming ≡ true
      → (m.state ≡ reconnecting) ⊎ ((m.state ≡ stopping) ⊎ (m.state ≡ shutdown_timed_out))
  pub in_range : m.generation < 2 ^ 64

initial-Inv : Inv initial
initial-Inv = ground arith

step-Inv : (e : Event) (m : SessionStateMachine) → Inv m → Inv (step e m).0
unfolding step
step-Inv (role_set r) m v = ground arith
step-Inv _ m v = ground arith

run-Inv_from : (es : List Event) (m : SessionStateMachine) → Inv m → Inv (run es m)
unfolding run
run-Inv_from [] m v = v
run-Inv_from (e ∷ es) m v = run-Inv_from es (step e m).0 (step-Inv e m v)

-- After any sequence of events, accepted or refused: the machine that listens is the controlled
-- side, the one that connects is the controller, the mark to resume streaming is set only while
-- reconnecting or shutting down, and the generation fits its 64 bits.
pub run-Inv : (es : List Event) → Inv (run es initial)
run-Inv es = run-Inv_from es initial initial-Inv

-- The events that open a new attempt, and where.
abbrev opens : Event → SessionState → Bool
opens listen idle = true
opens connect idle = true
opens await listening = true
opens authenticate listening = true
opens _ _ = false

-- An event counts the generation up by one, modulo 2 ^ 64, when it starts to listen or to connect
-- or takes in a caller from the listening state; every other event leaves the generation alone.
generation-step :
    (e : Event) (m : SessionStateMachine)
    → (step e m).0.generation
      ≡ (if opens e m.state then (m.generation + 1) % 2 ^ 64 else m.generation)
unfolding step
generation-step (role_set r) m = ground arith
generation-step _ m = ground arith
