-- ===== src/Terminal/Service/Control.antt =====
-- The messages of the peer to KTerminalSessionService, and the end of its own
-- (src/terminal/terminalsessionservice.cpp). They come from KTerminalCommandDispatcher.
use win_remote_control.Prelude.{
  ℕ, ◌+◌, ◌*◌, Bool, true, false, not, ◌&&◌, ◌||◌, Option, none, some, [], ◌∷◌, String, str_eq,
  ◌==◌, if◌then◌else◌,
}
use win_remote_control.Terminal.Service.Types.{
  At, Surroundings, TerminalErrorCode, TerminalMessage, TerminalMessageType, TerminalSessionService,
  accept_not_confirmed, accepted, approval_pending, building_channel, close, command_timed_out,
  error, exited, incoming_request, message_of, open_request, peer_error, peer_rejected,
  peer_running, peer_waits_for_user, rejected, resize, shell_connected, shell_exited,
  terminal_approval_rejected, terminal_input_overflow, terminal_output_overflow,
  terminal_unavailable, waiting_for_user,
}
use win_remote_control.Terminal.Service.Basics.{
  close_frontend, emit, is_session_ready, report_terminal_error, send_control, set_state,
}
use win_remote_control.Terminal.Service.Stopping.{fail_terminal, stop_host}
use win_remote_control.Terminal.Service.Output.{flush_output}
use win_remote_control.Terminal.Service.Receiving.{flush_pending_controller_output}
use win_remote_control.Terminal.Service.Opening.{is_waiting, reject}
use win_remote_control.Terminal.Machine.{
  awaiting_approval, closed, failed, opening, paused, running, state_eq,
}
use win_remote_control.Qt.{UuidLibrary}

-- The error code of a message that is refused.
abbrev pub Handled : Type 0 → Type 0
Handled W = At W × Option String

module _ {W : Type 0} (env : Surroundings W) where
  abbrev pub is_busy : TerminalSessionService → Bool
  is_busy s = not (state_eq s.state closed) && not (state_eq s.state failed)

  -- A request that is taken: the peer and the user are told, and the timer runs.
  unfoldable pub begin_approval : TerminalMessage → At W → At W
  begin_approval m a =
      let s = record a.service {
        is_controller = false;
        request_id = m.request_id;
        next_send_sequence = 1;
        last_received_sequence = 0;
        columns = m.columns;
        rows = m.rows;
      } in
      let pending = record (message_of approval_pending m.request_id) {
        timeout_seconds = s.approval_timeout_seconds;
      } in
      let told = (send_control env pending (record a { service = s })).0 in
      let timed = record told { service = record told.service { approval_timer_active = true } } in
      let b = set_state env awaiting_approval waiting_for_user timed in
      emit env
        (incoming_request b.service.request_id b.service.device_name b.service.device_source
          (env.now_ms b.world + b.service.approval_timeout_seconds * 1000))
        b

  unfoldable pub execute_open_request : TerminalMessage → At W → Handled W
  execute_open_request m a =
      let s = a.service in
      let reason = if is_busy s then "busy" else "unavailable" in
      if not (is_session_ready s) || (s.permission_denied || is_busy s)
      then (reject env m.request_id reason a, some reason)
      else (begin_approval m a, none)

  unfoldable pub execute_accepted : At W → At W
  execute_accepted a =
      flush_pending_controller_output env
        (set_state env running shell_connected (set_state env opening building_channel a))

  unfoldable pub execute_rejected : TerminalMessage → At W → At W
  execute_rejected m a = close_frontend env (
      report_terminal_error env terminal_approval_rejected false (m.reason ∷ [])
        (set_state env failed peer_rejected a))

  unfoldable pub execute_resize : TerminalMessage → At W → Handled W
  execute_resize m a =
      let (w, resized) =
        env.host_resize (env.session_generation a.world) m.columns m.rows a.world in
      if not (state_eq a.service.state running || state_eq a.service.state paused)
      then (a, some "invalid_state")
      else if not resized
      then (record a { world = w }, some "resize_failed")
      else (record a { world = w }, none)

  unfoldable pub execute_exited : TerminalMessage → At W → At W
  execute_exited m a = close_frontend env (set_state env closed (shell_exited m.exit_code) a)

  abbrev pub peer_error_code : String → TerminalErrorCode
  peer_error_code code =
      if str_eq code "input_overflow"
      then terminal_input_overflow
      else if str_eq code "output_overflow"
      then terminal_output_overflow
      else terminal_unavailable

  unfoldable pub execute_error : TerminalMessage → At W → At W
  execute_error m a =
      let b =
        report_terminal_error env (peer_error_code m.error_code) false (m.error_code ∷ [])
          (set_state env failed peer_error a) in
      if a.service.is_controller then close_frontend env b else b

  unfoldable pub when_waiting : (At W → At W) → At W → Handled W
  when_waiting f a =
      if a.service.is_controller && is_waiting a.service.state
      then (f a, none)
      else (a, some "invalid_state")

  -- The branches for a message of the current request.
  unfoldable pub execute_current : TerminalMessage → TerminalMessageType → At W → Handled W
  execute_current m approval_pending a =
      if a.service.is_controller && state_eq a.service.state awaiting_approval
      then (set_state env awaiting_approval peer_waits_for_user a, none)
      else (a, some "invalid_state")
  execute_current m accepted a = when_waiting execute_accepted a
  execute_current m rejected a = when_waiting (execute_rejected m) a
  execute_current m resize a =
      if a.service.is_controller then (a, some "invalid_state") else execute_resize m a
  execute_current m close a = (stop_host env false m.reason a, none)
  execute_current m exited a =
      if a.service.is_controller then (execute_exited m a, none) else (a, some "invalid_state")
  execute_current m error a = (execute_error m a, none)
  execute_current m _ a = (a, some "invalid_state")

  abbrev pub is_open_request : TerminalMessageType → Bool
  is_open_request open_request = true
  is_open_request _ = false

  unfoldable pub execute_control_message : TerminalMessage → At W → Handled W
  unfolding execute_current
  execute_control_message m a =
      if is_open_request m.type
      then execute_open_request m a
      else if not (str_eq m.request_id a.service.request_id)
      then (a, some "request_mismatch")
      else execute_current m m.type a

  abbrev pub is_accepted : TerminalMessageType → Bool
  is_accepted accepted = true
  is_accepted _ = false

  unfoldable pub handle_command_completed :
      UuidLibrary → TerminalMessageType → String → Bool → String → ℕ → At W → At W
  handle_command_completed q type request_id success error_code generation a =
      let s = a.service in
      if not (generation == env.session_generation a.world) || not (str_eq request_id s.request_id)
      then a
      else if not (is_accepted type) || s.is_controller
      then a
      else if success
      then flush_output q env (set_state env running peer_running a)
      else fail_terminal env (if str_eq error_code "" then "accepted_failed" else error_code)
          accept_not_confirmed [] a

  abbrev pub may_time_out : TerminalMessageType → Bool
  may_time_out close = true
  may_time_out exited = true
  may_time_out _ = false

  -- What the service does on commandTimedOut.
  unfoldable pub handle_command_timeout : TerminalMessageType → String → ℕ → At W → At W
  handle_command_timeout type request_id generation a =
      if not (generation == env.session_generation a.world)
        || not (str_eq request_id a.service.request_id)
      then a
      else if may_time_out type
      then a
      else fail_terminal env "command_timeout" command_timed_out [] a
