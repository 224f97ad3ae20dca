-- ===== src/Session/Machine/Names.antt =====
-- The static name functions of KSessionStateMachine (sessionstatemachine.cpp). A null `pRole` is
-- not modelled: every caller passes the address of a variable.
use win_remote_control.Prelude.{
  sym, ap, ◌∙◌, String, str_eq, if◌then◌else◌, ◌≡◌, refl, Option, none, some,
}
use win_remote_control.Session.Machine.{
  SessionState, SessionRole, state_eq, role_eq, controller, controlled, idle, listening, connecting,
  authenticating_identity, pairing, awaiting_approval, negotiating, connected, streaming,
  reconnecting, stopping, shutdown_timed_out,
}

pub role_from_string : String → Option SessionRole
role_from_string s =
    if str_eq s "controller"
    then some controller
    else if str_eq s "controlled"
    then some controlled
    else none

pub role_name : SessionRole → String
role_name r = if role_eq r controlled then "controlled" else "controller"

pub state_name : SessionState → String
state_name s =
    if state_eq s idle
    then "Idle"
    else if state_eq s listening
    then "Listening"
    else if state_eq s connecting
    then "Connecting"
    else if state_eq s authenticating_identity
    then "AuthenticatingIdentity"
    else if state_eq s pairing
    then "Pairing"
    else if state_eq s awaiting_approval
    then "AwaitingApproval"
    else if state_eq s negotiating
    then "Negotiating"
    else if state_eq s connected
    then "Connected"
    else if state_eq s streaming
    then "Streaming"
    else if state_eq s reconnecting
    then "Reconnecting"
    else if state_eq s stopping
    then "Stopping"
    else "ShutdownTimedOut"

-- The name of a role reads back as that role.
pub role_from_string-role_name : (r : SessionRole) → role_from_string (role_name r) ≡ some r
unfolding role_from_string role_name
role_from_string-role_name controller = refl
role_from_string-role_name controlled = refl

-- The state that a name stands for.
named_state : String → SessionState
named_state n =
    if str_eq n "Idle"
    then idle
    else if str_eq n "Listening"
    then listening
    else if str_eq n "Connecting"
    then connecting
    else if str_eq n "AuthenticatingIdentity"
    then authenticating_identity
    else if str_eq n "Pairing"
    then pairing
    else if str_eq n "AwaitingApproval"
    then awaiting_approval
    else if str_eq n "Negotiating"
    then negotiating
    else if str_eq n "Connected"
    then connected
    else if str_eq n "Streaming"
    then streaming
    else if str_eq n "Reconnecting"
    then reconnecting
    else if str_eq n "Stopping"
    then stopping
    else shutdown_timed_out

named_state-state_name : (s : SessionState) → named_state (state_name s) ≡ s
unfolding named_state state_name
named_state-state_name idle = refl
named_state-state_name listening = refl
named_state-state_name connecting = refl
named_state-state_name authenticating_identity = refl
named_state-state_name pairing = refl
named_state-state_name awaiting_approval = refl
named_state-state_name negotiating = refl
named_state-state_name connected = refl
named_state-state_name streaming = refl
named_state-state_name reconnecting = refl
named_state-state_name stopping = refl
named_state-state_name shutdown_timed_out = refl

-- A state can be told by its name: no two states share one.
pub state_name_injective : (s t : SessionState) → state_name s ≡ state_name t → s ≡ t
state_name_injective s t h =
    sym (named_state-state_name s) ∙ (ap named_state h ∙ named_state-state_name t)
