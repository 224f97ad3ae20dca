-- ===== src/Session/Machine.antt =====
-- KSessionStateMachine (src/core/session/sessionstatemachine.h and .cpp): the life of one remote
-- session on either side. A method that returns `bool` returns the new machine and the answer.
pub mod Queries
pub mod Names
pub mod Run
pub mod Diagram
pub mod Invariant
pub mod Approval
pub mod Recovery
mod Tests
use win_remote_control.Prelude.{
  ℕ, ◌+◌, ◌%◌, ◌^◌, Bool, true, false, not, ◌&&◌, ◌||◌, ◌==◌, if◌then◌else◌,
}

pub data SessionRole : Type 0 where
  controller controlled : SessionRole

pub data SessionState : Type 0 where
  idle listening connecting authenticating_identity pairing awaiting_approval : SessionState
  negotiating connected streaming reconnecting stopping shutdown_timed_out : SessionState

-- The numbers that the enumerations have in C++; `==` on them is the test of the source.
abbrev pub state_code : SessionState → ℕ
state_code idle = 0
state_code listening = 1
state_code connecting = 2
state_code authenticating_identity = 3
state_code pairing = 4
state_code awaiting_approval = 5
state_code negotiating = 6
state_code connected = 7
state_code streaming = 8
state_code reconnecting = 9
state_code stopping = 10
state_code shutdown_timed_out = 11

abbrev pub state_eq : SessionState → SessionState → Bool
state_eq s t = state_code s == state_code t

abbrev pub role_code : SessionRole → ℕ
role_code controller = 0
role_code controlled = 1

abbrev pub role_eq : SessionRole → SessionRole → Bool
role_eq r q = role_code r == role_code q

pub record SessionStateMachine : Type 0 where
  pub role : SessionRole
  pub state : SessionState
  pub restore_streaming : Bool
  pub generation : ℕ  -- quint64

abbrev pub initial : SessionStateMachine
initial = record { role = controller; state = idle; restore_streaming = false; generation = 0 }

-- `++m_nGeneration` on a quint64.
abbrev pub next_generation : ℕ → ℕ
next_generation g = (g + 1) % 2 ^ 64

pub set_role : SessionRole → SessionStateMachine → SessionStateMachine × Bool
set_role r m = if not (state_eq m.state idle) then (m, false) else (record m { role = r }, true)

pub begin_listening : SessionStateMachine → SessionStateMachine × Bool
begin_listening m = if not (state_eq m.state idle) then (m, false) else (
  record {
    role = controlled;
    state = listening;
    restore_streaming = false;
    generation = next_generation m.generation;
  },
  true,
)

pub begin_connecting : SessionStateMachine → SessionStateMachine × Bool
begin_connecting m = if not (state_eq m.state idle) then (m, false) else (
  record {
    role = controller;
    state = connecting;
    restore_streaming = false;
    generation = next_generation m.generation;
  },
  true,
)

pub begin_awaiting_approval : SessionStateMachine → SessionStateMachine × Bool
begin_awaiting_approval m =
    if state_eq m.state listening
    then (record m { generation = next_generation m.generation; state = awaiting_approval }, true)
    else if not (state_eq m.state connecting)
    then (m, false)
    else (record m { state = awaiting_approval }, true)

pub begin_authenticating_identity : SessionStateMachine → SessionStateMachine × Bool
begin_authenticating_identity m =
    if state_eq m.state listening
    then (
      record m { generation = next_generation m.generation; state = authenticating_identity },
      true,
    )
    else if not (state_eq m.state connecting)
    then (m, false)
    else (record m { state = authenticating_identity }, true)

pub begin_pairing : SessionStateMachine → SessionStateMachine × Bool
begin_pairing m =
    if not (state_eq m.state authenticating_identity)
    then (m, false)
    else (record m { state = pairing }, true)

pub complete_identity_authentication : SessionStateMachine → SessionStateMachine × Bool
complete_identity_authentication m =
    if not (state_eq m.state authenticating_identity) && not (state_eq m.state pairing)
    then (m, false)
    else (record m { state = awaiting_approval }, true)

pub approve_connection : SessionStateMachine → SessionStateMachine × Bool
approve_connection m =
    if not (state_eq m.state awaiting_approval)
    then (m, false)
    else (record m { state = negotiating }, true)

pub reject_connection : SessionStateMachine → SessionStateMachine × Bool
reject_connection m =
    if not (state_eq m.state authenticating_identity)
      && (not (state_eq m.state pairing) && not (state_eq m.state awaiting_approval))
    then (m, false)
    else (
      record m {
        state = if role_eq m.role controlled then listening else idle;
        restore_streaming = false;
      },
      true,
    )

pub mark_connected : SessionStateMachine → SessionStateMachine × Bool
mark_connected m =
    if not (state_eq m.state negotiating) && not (state_eq m.state connected)
    then (m, false)
    else (record m { state = connected; restore_streaming = false }, true)

pub begin_streaming : SessionStateMachine → SessionStateMachine × Bool
begin_streaming m =
    if not (state_eq m.state connected)
    then (m, false)
    else (record m { state = streaming; restore_streaming = false }, true)

pub stop_streaming : SessionStateMachine → SessionStateMachine × Bool
stop_streaming m =
    if not (state_eq m.state streaming)
    then (m, false)
    else (record m { state = connected; restore_streaming = false }, true)

pub has_active_session : SessionStateMachine → Bool
has_active_session m =
    not (state_eq m.state idle)
    && (not (state_eq m.state listening)
        && (not (state_eq m.state stopping) && not (state_eq m.state shutdown_timed_out)))

pub can_handle_peer_termination : SessionStateMachine → Bool
unfolding has_active_session
can_handle_peer_termination m = has_active_session m

pub begin_reconnecting : SessionStateMachine → SessionStateMachine × Bool
unfolding can_handle_peer_termination
begin_reconnecting m =
    if not (can_handle_peer_termination m) || state_eq m.state reconnecting
    then (m, false)
    else (record m { restore_streaming = state_eq m.state streaming; state = reconnecting }, true)

pub restore : SessionStateMachine → SessionStateMachine × Bool
restore m = if not (state_eq m.state reconnecting) then (m, false) else (
  record m {
    state = if m.restore_streaming then streaming else connected;
    restore_streaming = false;
  },
  true,
)

pub begin_stopping : SessionStateMachine → SessionStateMachine × Bool
begin_stopping m =
    if state_eq m.state idle || (state_eq m.state stopping || state_eq m.state shutdown_timed_out)
    then (m, false)
    else (record m { state = stopping }, true)

pub mark_shutdown_timed_out : SessionStateMachine → SessionStateMachine × Bool
mark_shutdown_timed_out m =
    if not (state_eq m.state stopping)
    then (m, false)
    else (record m { state = shutdown_timed_out }, true)

pub mark_initialization_rollback_timed_out : SessionStateMachine → SessionStateMachine × Bool
mark_initialization_rollback_timed_out m =
    if not (state_eq m.state idle)
    then (m, false)
    else (record m { state = shutdown_timed_out }, true)

pub finish : Bool → SessionStateMachine → SessionStateMachine
finish keep_listening m = record m {
  state = if keep_listening && role_eq m.role controlled then listening else idle;
  restore_streaming = false;
}
