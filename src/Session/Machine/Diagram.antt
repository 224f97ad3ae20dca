-- ===== src/Session/Machine/Diagram.antt =====
-- The transition diagram of a session, apart from the code.
use win_remote_control.Prelude.{Bool, true, false, ◌≡◌, arith, refl}
use win_remote_control.Session.Machine.{
  SessionStateMachine, SessionState, SessionRole, idle, listening, connecting,
  authenticating_identity, pairing, awaiting_approval, negotiating, connected, streaming,
  reconnecting, stopping, shutdown_timed_out,
}
use win_remote_control.Session.Machine.Run.{
  Event, role_set, listen, connect, await, authenticate, pair, authenticated, approve, reject,
  connected_marked, stream, stop_stream, reconnect, restored, stop, timed_out, rollback_timed_out,
  finished, step,
}

-- The states in which a peer's end or an interruption means something.
pub data IsLive : SessionState → Type 0 where
  live_connecting : IsLive connecting
  live_authenticating : IsLive authenticating_identity
  live_pairing : IsLive pairing
  live_awaiting : IsLive awaiting_approval
  live_negotiating : IsLive negotiating
  live_connected : IsLive connected
  live_streaming : IsLive streaming

-- The states in which the connection may still be refused.
pub data IsUnderReview : SessionState → Type 0 where
  review_identity : IsUnderReview authenticating_identity
  review_pairing : IsUnderReview pairing
  review_access : IsUnderReview awaiting_approval

pub data IsRest : SessionState → Type 0 where
  rest_idle : IsRest idle
  rest_listening : IsRest listening

-- `Edge e s t`: the event `e` may take a session from the state `s` to the state `t`.
pub data Edge : Event → SessionState → SessionState → Type 0 where
  choose_role : (r : SessionRole) → Edge (role_set r) idle idle
  to_listening : Edge listen idle listening
  to_connecting : Edge connect idle connecting
  admit_incoming : Edge await listening awaiting_approval
  admit_outgoing : Edge await connecting awaiting_approval
  identify_incoming : Edge authenticate listening authenticating_identity
  identify_outgoing : Edge authenticate connecting authenticating_identity
  to_pairing : Edge pair authenticating_identity pairing
  known : Edge authenticated authenticating_identity awaiting_approval
  paired : Edge authenticated pairing awaiting_approval
  approved : Edge approve awaiting_approval negotiating
  refused : {s t : SessionState} → IsUnderReview s → IsRest t → Edge reject s t
  joined : Edge connected_marked negotiating connected
  still : Edge connected_marked connected connected
  play : Edge stream connected streaming
  pause : Edge stop_stream streaming connected
  interrupted : {s : SessionState} → IsLive s → Edge reconnect s reconnecting
  resume : Edge restored reconnecting connected
  resume_streaming : Edge restored reconnecting streaming
  stop_listening : Edge stop listening stopping
  stop_live : {s : SessionState} → IsLive s → Edge stop s stopping
  stop_reconnecting : Edge stop reconnecting stopping
  overdue : Edge timed_out stopping shutdown_timed_out
  rollback_overdue : Edge rollback_timed_out idle shutdown_timed_out
  ended : {k : Bool} {s t : SessionState} → IsRest t → Edge (finished k) s t

ruleset edges = (
  choose_role, to_listening, to_connecting, admit_incoming, admit_outgoing, identify_incoming,
  identify_outgoing, to_pairing, known, paired, approved, refused, joined, still, play, pause,
  interrupted, resume, resume_streaming, stop_listening, stop_live, stop_reconnecting, overdue,
  rollback_overdue, ended,
)

ruleset kinds = (
  live_connecting, live_authenticating, live_pairing, live_awaiting, live_negotiating,
  live_connected, live_streaming, review_identity, review_pairing, review_access, rest_idle,
  rest_listening,
)

-- An accepted event follows an edge.
step-Edge :
    (e : Event) (m : SessionStateMachine) → (step e m).1 ≡ true → Edge e m.state (step e m).0.state
unfolding step
step-Edge (role_set r) m h = grind (arith, edges, kinds)
step-Edge _ m h = grind (arith, edges, kinds)

step_refused : (e : Event) (m : SessionStateMachine) → (step e m).1 ≡ false → (step e m).0 ≡ m
unfolding step
step_refused (role_set r) m h = ground arith
step_refused _ m h = ground arith

Edge-accepted :
    (e : Event) (m : SessionStateMachine) {s t : SessionState}
    → Edge e s t
    → m.state ≡ s
    → (step e m).1 ≡ true
unfolding step
Edge-accepted _ m (choose_role r) h = ground arith
Edge-accepted _ m (refused review_identity _) h = ground arith
Edge-accepted _ m (refused review_pairing _) h = ground arith
Edge-accepted _ m (refused review_access _) h = ground arith
Edge-accepted _ m (interrupted live_connecting) h = ground arith
Edge-accepted _ m (interrupted live_authenticating) h = ground arith
Edge-accepted _ m (interrupted live_pairing) h = ground arith
Edge-accepted _ m (interrupted live_awaiting) h = ground arith
Edge-accepted _ m (interrupted live_negotiating) h = ground arith
Edge-accepted _ m (interrupted live_connected) h = ground arith
Edge-accepted _ m (interrupted live_streaming) h = ground arith
Edge-accepted _ m (stop_live live_connecting) h = ground arith
Edge-accepted _ m (stop_live live_authenticating) h = ground arith
Edge-accepted _ m (stop_live live_pairing) h = ground arith
Edge-accepted _ m (stop_live live_awaiting) h = ground arith
Edge-accepted _ m (stop_live live_negotiating) h = ground arith
Edge-accepted _ m (stop_live live_connected) h = ground arith
Edge-accepted _ m (stop_live live_streaming) h = ground arith
Edge-accepted _ m (ended _) h = refl
Edge-accepted _ m _ h = ground arith

-- The table is exact: an event is accepted in the states with an edge for it and in no others, an
-- accepted event moves along such an edge, and a refused one changes nothing.
pub step_follows_diagram :
    (e : Event) (m : SessionStateMachine)
    → ((step e m).1 ≡ true → Edge e m.state (step e m).0.state)
      × ((t : SessionState) → Edge e m.state t → (step e m).1 ≡ true)
      × ((step e m).1 ≡ false → (step e m).0 ≡ m)
step_follows_diagram e m = (step-Edge e m, λ t edge. Edge-accepted e m edge refl, step_refused e m)
