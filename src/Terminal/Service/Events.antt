-- ===== src/Terminal/Service/Events.antt =====
-- What KTerminalSessionService does on the signals of the session, the host and the frontend
-- (src/terminal/terminalsessionservice.cpp).
use win_remote_control.Prelude.{
  ℕ, Bool, true, false, not, ◌&&◌, ◌||◌, List, [], ◌∷◌, String, str_eq, ◌==◌, if◌then◌else◌,
}
use win_remote_control.Terminal.Service.Types.{
  At, Surroundings, exited, host_error, message_of, network_recovering, restored, shell_ended,
  shutdown_timeout, stop_timed_out, terminal_closed, terminal_relay_handshake_failed,
  terminal_unavailable,
}
use win_remote_control.Terminal.Service.Basics.{
  is_session_up, report_terminal_error, request_state, send_control, set_state, write_frontend,
}
use win_remote_control.Terminal.Service.Stopping.{fail_terminal, reset_session, stop_host}
use win_remote_control.Terminal.Service.Output.{flush_output}
use win_remote_control.Terminal.Service.Opening.{try_open_pending_terminal}
use win_remote_control.Terminal.Machine.{closed, failed, paused, running, state_eq}
use win_remote_control.Qt.{UuidLibrary}
use win_remote_control.Session.Capability.{NegotiatedCapabilities}
use win_remote_control.Session.Machine.{
  SessionState, idle, listening, reconnecting, shutdown_timed_out, stopping,
}

abbrev pub is_ended : SessionState → Bool
is_ended idle = true
is_ended listening = true
is_ended stopping = true
is_ended shutdown_timed_out = true
is_ended _ = false

abbrev pub is_reconnecting : SessionState → Bool
is_reconnecting reconnecting = true
is_reconnecting _ = false

-- "\r\n[winRemoteControl] Network reconnecting; input paused.\r\n"
abbrev pub reconnecting_notice : List ℕ
reconnecting_notice =
    13 ∷ 10 ∷ 91 ∷ 119 ∷ 105 ∷ 110 ∷ 82 ∷ 101 ∷ 109 ∷ 111 ∷ 116 ∷ 101 ∷ 67 ∷ 111 ∷ 110 ∷ 116 ∷ 114
    ∷ 111 ∷ 108 ∷ 93 ∷ 32 ∷ 78 ∷ 101 ∷ 116 ∷ 119 ∷ 111 ∷ 114 ∷ 107 ∷ 32 ∷ 114 ∷ 101 ∷ 99 ∷ 111 ∷ 110
    ∷ 110 ∷ 101 ∷ 99 ∷ 116 ∷ 105 ∷ 110 ∷ 103 ∷ 59 ∷ 32 ∷ 105 ∷ 110 ∷ 112 ∷ 117 ∷ 116 ∷ 32 ∷ 112 ∷ 97
    ∷ 117 ∷ 115 ∷ 101 ∷ 100 ∷ 46 ∷ 13 ∷ 10 ∷ []

-- "[winRemoteControl] Network restored.\r\n"
abbrev pub restored_notice : List ℕ
restored_notice =
    91 ∷ 119 ∷ 105 ∷ 110 ∷ 82 ∷ 101 ∷ 109 ∷ 111 ∷ 116 ∷ 101 ∷ 67 ∷ 111 ∷ 110 ∷ 116 ∷ 114 ∷ 111 ∷ 108
    ∷ 93 ∷ 32 ∷ 78 ∷ 101 ∷ 116 ∷ 119 ∷ 111 ∷ 114 ∷ 107 ∷ 32 ∷ 114 ∷ 101 ∷ 115 ∷ 116 ∷ 111 ∷ 114
    ∷ 101 ∷ 100 ∷ 46 ∷ 13 ∷ 10 ∷ []

module _ (q : UuidLibrary) {W : Type 0} (env : Surroundings W) where
  unfoldable pub notify_controller : List ℕ → At W → At W
  notify_controller notice a =
      if a.service.is_controller
      then record a { world = (write_frontend env notice a.world).0 }
      else a

  unfoldable pub handle_session_state_changed : SessionState → At W → At W
  handle_session_state_changed st a =
      let b =
        try_open_pending_terminal env
          (record a { service = record a.service { session_state = st } }) in
      if is_reconnecting st && state_eq b.service.state running
      then set_state env paused network_recovering (notify_controller reconnecting_notice b)
      else if is_session_up st && state_eq b.service.state paused
      then flush_output q env (notify_controller restored_notice (set_state env running restored b))
      else if is_ended st
      then reset_session env (stop_host env false "session_ended" b)
      else b

  unfoldable pub handle_capabilities_changed : NegotiatedCapabilities → At W → At W
  handle_capabilities_changed c a =
      request_state env (
        try_open_pending_terminal env
          (record a { service = record a.service { capabilities = c } }))

  unfoldable pub handle_channel_changed : Bool → At W → At W
  handle_channel_changed is_open a =
      let b = record a { service = record a.service { channel_open = is_open } } in
      let lost = not is_open && (a.service.channel_open && not (state_eq a.service.state closed)) in
      let c = if lost then stop_host env false "terminal_channel_closed" b else b in
      request_state env (if is_open then try_open_pending_terminal env c else c)

  -- A signal of the host or the frontend of another generation is passed over.
  unfoldable pub handle_host_exited : ℕ → ℕ → At W → At W
  handle_host_exited generation exit_code a =
      let m = record (message_of exited a.service.request_id) { exit_code = exit_code } in
      if generation == env.session_generation a.world
      then set_state env closed shell_ended (send_control env m a).0
      else a

  unfoldable pub handle_host_stopped : ℕ → At W → At W
  handle_host_stopped generation a =
      let s = record a.service { host_stop_pending = false; stop_timer_active = false } in
      if not (generation == env.session_generation a.world) || not a.service.host_stop_pending
      then a
      else set_state env closed terminal_closed (record a { service = s })

  unfoldable pub handle_host_error : ℕ → String → String → At W → At W
  handle_host_error generation code technical a =
      if generation == env.session_generation a.world
      then fail_terminal env code host_error (if str_eq technical "" then [] else technical ∷ []) a
      else a

  -- The stop timer is a single shot, which has ended when this runs.
  unfoldable pub handle_stop_timeout : At W → At W
  handle_stop_timeout a =
      let b = record a { service = record a.service { stop_timer_active = false } } in
      if not a.service.host_stop_pending
      then b
      else set_state env failed stop_timed_out
          (report_terminal_error env shutdown_timeout false ("ConPTY shutdown timed out" ∷ []) b)

  unfoldable pub handle_frontend_connected : ℕ → At W → At W
  handle_frontend_connected generation a =
      if generation == env.session_generation a.world
      then try_open_pending_terminal env
          (record a { service = record a.service { frontend_connected = true } })
      else a

  unfoldable pub handle_frontend_closed : ℕ → At W → At W
  handle_frontend_closed generation a =
      if generation == env.session_generation a.world
      then stop_host env true "terminal_relay_closed"
          (record a { service = record a.service { frontend_connected = false } })
      else a

  unfoldable pub handle_frontend_error : ℕ → String → String → At W → At W
  handle_frontend_error generation code technical a =
      let relay = str_eq code "relay_handshake_timeout" || str_eq code "relay_auth_failed" in
      if generation == env.session_generation a.world
      then report_terminal_error env
          (if relay then terminal_relay_handshake_failed else terminal_unavailable) false
          (code ∷ technical ∷ []) a
      else a

  -- incomingAccessObserved and remoteDeviceInfoChanged.
  unfoldable pub handle_access_observed : String → String → At W → At W
  handle_access_observed name source a = record a {
    service = record a.service { device_name = name; device_source = source };
  }

  unfoldable pub handle_device_info : String → At W → At W
  handle_device_info name a =
      request_state env (record a { service = record a.service { device_name = name } })
