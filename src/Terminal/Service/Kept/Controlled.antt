-- ===== src/Terminal/Service/Kept/Controlled.antt =====
-- The invariant of KTerminalSessionService through the messages of the peer
-- (src/terminal/terminalsessionservice.cpp).
use win_remote_control.Prelude.{
  ℕ, Bool, true, false, not, ◌||◌, [], String, str_eq, ◌==◌, if◌then◌else◌,
}
use win_remote_control.Terminal.Service.Types.{
  At, Surroundings, TerminalMessage, TerminalMessageType, accept_not_confirmed, accepted,
  approval_pending, close, command_result, error, exited, invalid_message, open_request,
  peer_running, rejected, resize,
}
use win_remote_control.Terminal.Service.Kept.{
  Holds, Holds-if, Holds-of, Holds-world, IsClosed, close_frontend-Holds, emit-Holds,
  fail_terminal-Holds, report_terminal_error-Holds, send_control-Holds, set_state-Holds,
  stop_host-Holds,
}
use win_remote_control.Terminal.Service.Control.{
  Handled, begin_approval, execute_accepted, execute_control_message, execute_current,
  execute_error, execute_exited, execute_open_request, execute_rejected, execute_resize,
  handle_command_completed, handle_command_timeout, is_accepted, when_waiting,
}
use win_remote_control.Terminal.Service.Kept.Queued.{flush_output-Holds}
use win_remote_control.Terminal.Service.Kept.Received.{flush_pending_controller_output-Holds}
use win_remote_control.Terminal.Service.Kept.Opened.{reject-Holds}
use win_remote_control.Terminal.Machine.{running}
use win_remote_control.Qt.{UuidLibrary}

module _ {W : Type 0} (env : Surroundings W) (P : W → Type 0) (calls : IsClosed env P) where
  Holds-handled :
      (c : Bool) (r s : Handled W) → Holds P r.0 → Holds P s.0 → Holds P (if c then r else s).0
  Holds-handled true r s h k = h
  Holds-handled false r s h k = k

  begin_approval-Holds :
      (m : TerminalMessage) (a : At W) → Holds P a → Holds P (begin_approval env m a)
  unfolding begin_approval
  begin_approval-Holds m a h =
      let s = record a.service {
        is_controller = false;
        request_id = m.request_id;
        next_send_sequence = 1;
        last_received_sequence = 0;
        columns = m.columns;
        rows = m.rows;
      } in
      let told = send_control-Holds env P calls _ _ (Holds-of s a.world h.valid h.held) in
      emit-Holds env P calls _ _
        (set_state-Holds env P calls _ _ _ (record { valid = told.valid; held = told.held }))

  execute_open_request-Holds :
      (m : TerminalMessage) (a : At W) → Holds P a → Holds P (execute_open_request env m a).0
  unfolding execute_open_request
  execute_open_request-Holds m a h =
      Holds-handled _ _ _ (reject-Holds env P calls _ _ a h) (begin_approval-Holds m a h)

  execute_accepted-Holds : (a : At W) → Holds P a → Holds P (execute_accepted env a)
  unfolding execute_accepted
  execute_accepted-Holds a h =
      flush_pending_controller_output-Holds env P calls _
        (set_state-Holds env P calls _ _ _ (set_state-Holds env P calls _ _ a h))

  execute_rejected-Holds :
      (m : TerminalMessage) (a : At W) → Holds P a → Holds P (execute_rejected env m a)
  unfolding execute_rejected
  execute_rejected-Holds m a h =
      close_frontend-Holds env P calls _
        (report_terminal_error-Holds env P calls _ _ _ _ (set_state-Holds env P calls _ _ a h))

  execute_resize-Holds :
      (m : TerminalMessage) (a : At W) → Holds P a → Holds P (execute_resize env m a).0
  unfolding execute_resize
  execute_resize-Holds m a h =
      let w = (env.host_resize (env.session_generation a.world) m.columns m.rows a.world).0 in
      let p = calls.resizes (env.session_generation a.world) m.columns m.rows a.world h.held in
      Holds-handled _ _ _ h (Holds-handled _ _ _ (Holds-world a w h p) (Holds-world a w h p))

  execute_exited-Holds :
      (m : TerminalMessage) (a : At W) → Holds P a → Holds P (execute_exited env m a)
  unfolding execute_exited
  execute_exited-Holds m a h =
      close_frontend-Holds env P calls _ (set_state-Holds env P calls _ _ a h)

  execute_error-Holds :
      (m : TerminalMessage) (a : At W) → Holds P a → Holds P (execute_error env m a)
  unfolding execute_error
  execute_error-Holds m a h =
      let b =
        report_terminal_error-Holds env P calls _ _ _ _ (set_state-Holds env P calls _ _ a h) in
      Holds-if _ _ _ (close_frontend-Holds env P calls _ b) b

  when_waiting-Holds :
      (f : At W → At W) (a : At W) → Holds P (f a) → Holds P a → Holds P (when_waiting env f a).0
  unfolding when_waiting
  when_waiting-Holds f a k h = Holds-handled _ _ _ k h

  execute_current-Holds :
      (m : TerminalMessage) (type : TerminalMessageType) (a : At W)
      → Holds P a
      → Holds P (execute_current env m type a).0
  unfolding execute_current
  execute_current-Holds m approval_pending a h =
      Holds-handled _ _ _ (set_state-Holds env P calls _ _ a h) h
  execute_current-Holds m accepted a h = when_waiting-Holds _ a (execute_accepted-Holds a h) h
  execute_current-Holds m rejected a h = when_waiting-Holds _ a (execute_rejected-Holds m a h) h
  execute_current-Holds m resize a h = Holds-handled _ _ _ h (execute_resize-Holds m a h)
  execute_current-Holds m close a h = stop_host-Holds env P calls _ _ a h
  execute_current-Holds m exited a h = Holds-handled _ _ _ (execute_exited-Holds m a h) h
  execute_current-Holds m error a h = execute_error-Holds m a h
  execute_current-Holds m invalid_message a h = h
  execute_current-Holds m open_request a h = h
  execute_current-Holds m command_result a h = h

  pub execute_control_message-Holds :
      (m : TerminalMessage) (a : At W) → Holds P a → Holds P (execute_control_message env m a).0
  unfolding execute_control_message
  execute_control_message-Holds m a h =
      Holds-handled _ _ _ (execute_open_request-Holds m a h)
        (Holds-handled _ _ _ h (execute_current-Holds m m.type a h))

  pub handle_command_completed-Holds :
      (q : UuidLibrary) (type : TerminalMessageType) (id : String) (success : Bool) (code : String)
      (generation : ℕ) (a : At W)
      → Holds P a
      → Holds P (handle_command_completed env q type id success code generation a)
  unfolding handle_command_completed
  handle_command_completed-Holds q type id success code generation a h =
      Holds-if
        (not (generation == env.session_generation a.world) || not (str_eq id a.service.request_id))
        _ _ h
        (Holds-if (not (is_accepted env type) || a.service.is_controller) _ _ h (
          Holds-if success _ _
            (flush_output-Holds q env P calls _
              (set_state-Holds env P calls running peer_running a h))
            (fail_terminal-Holds env P calls _ accept_not_confirmed [] a h)))

  pub handle_command_timeout-Holds :
      (type : TerminalMessageType) (id : String) (generation : ℕ) (a : At W)
      → Holds P a
      → Holds P (handle_command_timeout env type id generation a)
  unfolding handle_command_timeout
  handle_command_timeout-Holds type id generation a h =
      Holds-if _ _ _ h (Holds-if _ _ _ h (fail_terminal-Holds env P calls _ _ _ a h))
