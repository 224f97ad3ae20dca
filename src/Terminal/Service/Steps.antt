-- ===== src/Terminal/Service/Steps.antt =====
-- All entries of KTerminalSessionService (src/terminal/terminalsessionservice.cpp) as the steps of one
-- machine: its slots, and what is connected to the signals of the session, the host and the frontend.
use win_remote_control.Prelude.{ℕ, Bool, false, ◌||◌, List, [], ◌∷◌, String, ◌==◌, if◌then◌else◌}
use win_remote_control.Terminal.Service.Types.{
  At, Surroundings, TerminalMessage, TerminalMessageType, TerminalSessionService,
}
use win_remote_control.Terminal.Service.Basics.{request_state}
use win_remote_control.Terminal.Service.Stopping.{close_terminal, shutdown}
use win_remote_control.Terminal.Service.Output.{
  handle_host_output, handle_low_watermark, send_input,
}
use win_remote_control.Terminal.Service.Receiving.{handle_terminal_data}
use win_remote_control.Terminal.Service.Opening.{
  handle_approval_timeout, is_approval, open_current_terminal, open_terminal_for_endpoint,
  resize_terminal, respond_incoming_request, set_approval_timeout_seconds,
}
use win_remote_control.Terminal.Service.Control.{
  execute_control_message, handle_command_completed, handle_command_timeout,
}
use win_remote_control.Terminal.Service.Events.{
  handle_access_observed, handle_capabilities_changed, handle_channel_changed, handle_device_info,
  handle_frontend_closed, handle_frontend_connected, handle_frontend_error, handle_host_error,
  handle_host_exited, handle_host_stopped, handle_session_state_changed, handle_stop_timeout,
}
use win_remote_control.Qt.{UuidLibrary}
use win_remote_control.Session.Capability.{NegotiatedCapabilities}
use win_remote_control.Session.Machine.{SessionState}

pub data Event : Type 0 where
  opens : ℕ → ℕ → Event
  opens_endpoint : String → ℕ → Event
  responds : String → Bool → Event
  types : List ℕ → Event
  resizes : ℕ → ℕ → Event
  closes requests_state shuts_down approval_ends stop_ends drained : Event
  sets_timeout : ℕ → Event
  session_moves : SessionState → Event
  negotiated : NegotiatedCapabilities → Event
  channel_moves : Bool → Event
  controls : TerminalMessage → Event
  completes : TerminalMessageType → String → Bool → String → ℕ → Event
  times_out : TerminalMessageType → String → ℕ → Event
  receives : List ℕ → Event
  host_writes : ℕ → List ℕ → Event
  host_exits : ℕ → ℕ → Event
  host_stops : ℕ → Event
  host_fails : ℕ → String → String → Event
  frontend_connects frontend_closes : ℕ → Event
  frontend_types : ℕ → List ℕ → Event
  frontend_resizes : ℕ → ℕ → ℕ → Event
  frontend_fails : ℕ → String → String → Event
  is_observed : String → String → Event
  is_named : String → Event

-- The entries that start the host.
abbrev pub starts : Event → TerminalSessionService → Bool
starts (responds id is_yes) s = is_approval id is_yes s
starts _ s = false

module _ (q : UuidLibrary) {W : Type 0} (env : Surroundings W) where
  unfoldable pub step : Event → At W → At W
  step (opens columns rows) a = open_current_terminal env columns rows a
  step (opens_endpoint host port) a = open_terminal_for_endpoint env host port a
  step (responds id is_yes) a = respond_incoming_request env id is_yes a
  step (types bytes) a = send_input q env bytes a
  step (resizes columns rows) a = resize_terminal env columns rows a
  step closes a = close_terminal env a
  step requests_state a = request_state env a
  step shuts_down a = shutdown env a
  step approval_ends a =
      if a.service.approval_timer_active then handle_approval_timeout env a else a
  step stop_ends a = if a.service.stop_timer_active then handle_stop_timeout q env a else a
  step drained a = handle_low_watermark q env a
  step (sets_timeout seconds) a = set_approval_timeout_seconds env seconds a
  step (session_moves st) a = handle_session_state_changed q env st a
  step (negotiated c) a = handle_capabilities_changed q env c a
  step (channel_moves is_open) a = handle_channel_changed q env is_open a
  step (controls m) a = (execute_control_message env m a).0
  step (completes type id success code g) a =
      handle_command_completed env q type id success code g a
  step (times_out type id g) a = handle_command_timeout env type id g a
  step (receives bytes) a = handle_terminal_data env q bytes a
  step (host_writes g bytes) a = handle_host_output q env g bytes a
  step (host_exits g code) a = handle_host_exited q env g code a
  step (host_stops g) a = handle_host_stopped q env g a
  step (host_fails g code technical) a = handle_host_error q env g code technical a
  step (frontend_connects g) a = handle_frontend_connected q env g a
  step (frontend_closes g) a = handle_frontend_closed q env g a
  step (frontend_types g bytes) a =
      if g == env.session_generation a.world then send_input q env bytes a else a
  step (frontend_resizes g columns rows) a =
      if g == env.session_generation a.world then resize_terminal env columns rows a else a
  step (frontend_fails g code technical) a = handle_frontend_error q env g code technical a
  step (is_observed name source) a = handle_access_observed q env name source a
  step (is_named name) a = handle_device_info q env name a

  unfoldable pub run : List Event → At W → At W
  run [] a = a
  run (e ∷ es) a = run es (step e a)

  -- One of the entries starts the host.
  abbrev pub starts_any : List Event → At W → Bool
  starts_any [] a = false
  starts_any (e ∷ es) a = starts e a.service || starts_any es (step e a)
