-- ===== src/Terminal/Service/Stopping.antt =====
-- How KTerminalSessionService starts and stops its host and fails
-- (src/terminal/terminalsessionservice.cpp).
use win_remote_control.Prelude.{
  ℕ, Bool, true, false, not, ◌&&◌, ◌||◌, none, some, List, [], ◌∷◌, String, str_eq, if◌then◌else◌,
}
use win_remote_control.Terminal.Service.Types.{
  At, Status, Surroundings, TerminalErrorCode, TerminalSessionService, accept_failed, accepted,
  close, closing_terminal, error, message_of, not_connected, start_failed, starting_shell,
  terminal_closed, terminal_command_timeout, terminal_host_start_failed, terminal_input_overflow,
  terminal_output_overflow, terminal_unavailable, waiting_for_accept,
}
use win_remote_control.Terminal.Service.Basics.{
  close_frontend, on_frontend, report_terminal_error, send_control, set_state,
}
use win_remote_control.Terminal.Machine.{closed, closing, failed, opening, state_eq}
use win_remote_control.Session.Capability.{no_capabilities}

-- What stopHost leaves, besides the state.
abbrev pub stopped : TerminalSessionService → TerminalSessionService
stopped s = record s {
  approval_timer_active = false;
  host_stop_pending = if s.is_controller then s.host_stop_pending else true;
  stop_timer_active = if s.is_controller then s.stop_timer_active else true;
  output_queue = [];
  queued_output_bytes = 0;
  input_queue = [];
  queued_input_bytes = 0;
  pending_queue = [];
  pending_bytes = 0;
  input_bytes = 0;
  output_bytes = 0;
  next_send_sequence = 1;
  last_received_sequence = 0;
}

-- What resetSession leaves, besides the state.
abbrev pub blank : TerminalSessionService → TerminalSessionService
blank s = record s {
  approval_timer_active = false;
  stop_timer_active = false;
  host_stop_pending = false;
  capabilities = no_capabilities;
  channel_open = false;
  frontend_connected = false;
  permission_denied = false;
  open_after_connect = false;
  request_id = "";
  device_name = "";
  device_source = "";
  pending_host = "";
  pending_port = 0;
  output_queue = [];
  queued_output_bytes = 0;
  input_queue = [];
  queued_input_bytes = 0;
  pending_queue = [];
  pending_bytes = 0;
  next_send_sequence = 1;
  last_received_sequence = 0;
}

abbrev pub failure_code : String → TerminalErrorCode
failure_code code =
    if str_eq code "input_overflow"
    then terminal_input_overflow
    else if str_eq code "output_overflow" || str_eq code "pending_output_overflow"
    then terminal_output_overflow
    else if str_eq code "command_timeout"
    then terminal_command_timeout
    else terminal_unavailable

module _ {W : Type 0} (env : Surroundings W) where
  -- The message that tells the peer, if there is a request and a channel.
  unfoldable pub notify_peer : String → At W → At W
  notify_peer reason a =
      let s = a.service in
      if not (str_eq s.request_id "") && s.channel_open
      then (send_control env (record (message_of close s.request_id) { reason = reason }) a).0
      else a

  -- The calls of stopHost that stand before its changes of the state.
  unfoldable pub before_stop : Bool → String → At W → At W
  before_stop notify reason a =
      let unpaused = on_frontend env (λ f w. f.set_input_paused false w) a in
      set_state env closing closing_terminal
        (if notify then notify_peer reason unpaused else unpaused)

  unfoldable pub request_host_stop : At W → At W
  request_host_stop a = record a {
    world = env.host_request_stop (env.session_generation a.world) a.world;
  }

  unfoldable pub stop_host : Bool → String → At W → At W
  stop_host notify reason a =
      let b = before_stop notify reason a in
      let ended =
        if a.service.is_controller
        then close_frontend env (set_state env closed terminal_closed b)
        else request_host_stop b in
      if state_eq a.service.state closed
      then a
      else record ended { service = stopped ended.service }

  unfoldable pub fail_terminal : String → Status → List String → At W → At W
  unfolding stop_host
  fail_terminal code status technical a =
      let m = record (message_of error a.service.request_id) { error_code = code } in
      let told = (send_control env m a).0 in
      let reported =
        report_terminal_error env (failure_code code) false
          (elim technical [ [] ↦ code ∷ [] | t ∷ ts ↦ t ∷ ts ]) told in
      if state_eq a.service.state closing
        || (state_eq a.service.state closed || state_eq a.service.state failed)
      then a
      else stop_host true code (set_state env failed status reported)

  unfoldable pub reset_session : At W → At W
  reset_session a =
      let unpaused = on_frontend env (λ f w. f.set_input_paused false w) a in
      let b = close_frontend env unpaused in
      set_state env closed not_connected
        (record { service = blank b.service; world = env.clear_commands b.world })

  unfoldable pub start_host : String → ℕ → ℕ → At W → At W
  unfolding stop_host
  start_host request_id columns rows a =
      let b = set_state env opening starting_shell a in
      let (w, failure) = env.host_start (env.session_generation b.world) columns rows b.world in
      let started = record b { world = w } in
      let e = record (message_of error request_id) { error_code = "host_start_failed" } in
      let (confirmed, sent) = send_control env (message_of accepted request_id) started in
      elim failure [
        | some reason ↦
            report_terminal_error env terminal_host_start_failed false (reason ∷ [])
              (set_state env failed start_failed (send_control env e started).0)
        | none ↦
            if not sent
            then stop_host false "accepted_send_failed"
                (set_state env failed accept_failed confirmed)
            else set_state env opening waiting_for_accept confirmed
      ]

  unfoldable pub close_terminal : At W → At W
  unfolding stop_host
  close_terminal a = stop_host true "local_close" a

  unfoldable pub shutdown : At W → At W
  unfolding stop_host
  shutdown a = close_frontend env (
      stop_host false "application_shutdown"
        (record a { service = record a.service { open_after_connect = false } }))
