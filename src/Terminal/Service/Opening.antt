-- ===== src/Terminal/Service/Opening.antt =====
-- How KTerminalSessionService opens a terminal, on the side that asks and on the side that answers
-- (src/terminal/terminalsessionservice.cpp).
use win_remote_control.Prelude.{
  ℕ, Bool, true, false, not, ◌&&◌, ◌||◌, none, some, [], ◌∷◌, String, str_eq, if◌then◌else◌,
}
use win_remote_control.Terminal.Service.Types.{
  At, Surroundings, TerminalSessionService, connecting_device, frontend_unavailable,
  incoming_request_cleared, message_of, open_request, rejected, request_rejected, resize,
  shutdown_timeout, terminal_unavailable, user_timed_out, waiting_for_channel, waiting_for_peer,
}
use win_remote_control.Terminal.Service.Basics.{
  bound, emit, is_frontend_supported, is_session_ready, on_frontend, report_terminal_error,
  request_state, send_control, set_state,
}
use win_remote_control.Terminal.Service.Stopping.{start_host}
use win_remote_control.Terminal.Machine.{
  TerminalState, awaiting_approval, closed, failed, opening, running, state_eq,
}

abbrev pub is_waiting : TerminalState → Bool
is_waiting st = state_eq st awaiting_approval || state_eq st opening

abbrev pub with_size : ℕ → ℕ → TerminalSessionService → TerminalSessionService
with_size columns rows s = record s { columns = bound 20 columns 400; rows = bound 5 rows 200 }

-- The answer that starts the host: yes, to the request that waits for it.
abbrev pub is_approval : String → Bool → TerminalSessionService → Bool
is_approval id is_accepted s =
    state_eq s.state awaiting_approval && (str_eq id s.request_id && is_accepted)

module _ {W : Type 0} (env : Surroundings W) where
  -- The frontend is opened under the name of the device, or its source where it has none.
  unfoldable pub ensure_frontend_open : At W → At W × Bool
  ensure_frontend_open a =
      let s = a.service in
      let label = if str_eq s.device_name "" then s.device_source else s.device_name in
      elim env.frontend [
        | none ↦ (
          report_terminal_error env terminal_unavailable false
              ("Windows Terminal frontend is not configured" ∷ []) a,
          false,
        )
        | some f ↦
            let (w, failure) = f.open_frontend (env.session_generation a.world) label a.world in
            elim failure [
              | none ↦ (record a { world = w }, true)
              | some reason ↦ (
                set_state env failed frontend_unavailable (
                    report_terminal_error env terminal_unavailable false (reason ∷ [])
                      (record a { world = w })),
                false,
              )
            ]
      ]

  -- The request that is sent to the peer.
  unfoldable pub request_terminal : At W → At W
  request_terminal a =
      let focused = on_frontend env (λ f w. f.focus w) a in
      let (w, id) = env.create_uuid focused.world in
      let s = record focused.service {
        request_id = id;
        next_send_sequence = 1;
        last_received_sequence = 0;
      } in
      let b =
        set_state env awaiting_approval waiting_for_peer (record { service = s; world = w }) in
      let m = record (message_of open_request id) { columns = s.columns; rows = s.rows } in
      (send_control env m b).0

  unfoldable pub open_current_terminal : ℕ → ℕ → At W → At W
  open_current_terminal columns rows a =
      let s = a.service in
      let sized = record a {
        service = with_size columns rows (record s { is_controller = true });
      } in
      let (b, opened) = ensure_frontend_open sized in
      let waiting = record b { service = record b.service { open_after_connect = true } } in
      if s.host_stop_pending
      then request_state env (
          report_terminal_error env shutdown_timeout true
            ("Previous ConPTY host is still stopping" ∷ []) a)
      else if state_eq s.state running || state_eq s.state awaiting_approval
      then on_frontend env (λ f w. f.focus w) a
      else if not opened
      then b
      else if not (is_session_ready b.service) || not b.service.frontend_connected
      then set_state env opening waiting_for_channel waiting
      else request_terminal b

  unfoldable pub try_open_pending_terminal : At W → At W
  try_open_pending_terminal a =
      let s = a.service in
      if not s.open_after_connect
        || (not (is_session_ready s) || (s.is_controller && not s.frontend_connected))
      then a
      else open_current_terminal s.columns s.rows
          (record a { service = record s { open_after_connect = false } })

  -- The reason for a frontend that is not supported is left out.
  unfoldable pub open_terminal_for_endpoint : String → ℕ → At W → At W
  open_terminal_for_endpoint host port a =
      let s = record a.service {
        pending_host = host;
        pending_port = port;
        device_source = host;
        open_after_connect = true;
        is_controller = true;
      } in
      let b =
        (ensure_frontend_open
          (record { service = s; world = env.connect_as_controller host port a.world })).0 in
      if not (is_frontend_supported env a.world)
      then set_state env failed frontend_unavailable
          (report_terminal_error env terminal_unavailable false [] a)
      else if not (env.is_idle a.world)
      then if env.matches_current_endpoint host port a.world
        then open_current_terminal a.service.columns a.service.rows a
        else report_terminal_error env terminal_unavailable false
            ("Another endpoint is already connected" ∷ []) a
      else set_state env opening connecting_device b

  unfoldable pub reject : String → String → At W → At W
  reject request_id reason a =
      (send_control env (record (message_of rejected request_id) { reason = reason }) a).0

  -- The answer of the user.
  unfoldable pub respond_incoming_request : String → Bool → At W → At W
  respond_incoming_request request_id is_accepted a =
      let s = a.service in
      let b =
        emit env
          (incoming_request_cleared s.request_id (if is_accepted then "accepted" else "rejected"))
          (record a { service = record s { approval_timer_active = false } }) in
      let denied = record b { service = record b.service { permission_denied = true } } in
      if not (state_eq s.state awaiting_approval) || not (str_eq request_id s.request_id)
      then a
      else if not is_accepted
      then set_state env closed request_rejected (reject s.request_id "user_rejected" denied)
      else start_host env s.request_id s.columns s.rows b

  -- The approval timer is a single shot, which has ended when this runs.
  unfoldable pub handle_approval_timeout : At W → At W
  handle_approval_timeout a =
      let s = a.service in
      let b = emit env (incoming_request_cleared s.request_id "timeout") (record a {
        service = record s { permission_denied = true; approval_timer_active = false };
      }) in
      if not (state_eq s.state awaiting_approval) || s.is_controller
      then record a { service = record s { approval_timer_active = false } }
      else set_state env closed user_timed_out (reject s.request_id "timeout" b)

  unfoldable pub resize_terminal : ℕ → ℕ → At W → At W
  resize_terminal columns rows a =
      let s = with_size columns rows a.service in
      let b = record a { service = s } in
      let m = record (message_of resize s.request_id) { columns = s.columns; rows = s.rows } in
      if not (state_eq a.service.state running)
      then a
      else if s.is_controller
      then (send_control env m b).0
      else record b {
        world = (env.host_resize (env.session_generation a.world) s.columns s.rows a.world).0;
      }

  unfoldable pub set_approval_timeout_seconds : ℕ → At W → At W
  set_approval_timeout_seconds seconds a = record a {
    service = record a.service { approval_timeout_seconds = bound 10 seconds 120 };
  }
