-- ===== src/Terminal/Service/Kept/Signalled.antt =====
-- The invariant of KTerminalSessionService through the signals of the session, the host and the
-- frontend (src/terminal/terminalsessionservice.cpp).
use win_remote_control.Prelude.{ℕ, Bool, true, false, List, String}
use win_remote_control.Terminal.Service.Types.{At, Surroundings}
use win_remote_control.Terminal.Service.Kept.{
  Holds, Holds-if, Holds-of, Holds-world, IsClosed, fail_terminal-Holds,
  report_terminal_error-Holds, request_state-Holds, reset_session-Holds, send_control-Holds,
  set_state-Holds, stop_host-Holds, write_frontend-held,
}
use win_remote_control.Terminal.Service.Events.{
  handle_access_observed, handle_capabilities_changed, handle_channel_changed, handle_device_info,
  handle_frontend_closed, handle_frontend_connected, handle_frontend_error, handle_host_error,
  handle_host_exited, handle_host_stopped, handle_session_state_changed, handle_stop_timeout,
  notify_controller,
}
use win_remote_control.Terminal.Service.Kept.Queued.{flush_output-Holds}
use win_remote_control.Terminal.Service.Kept.Opened.{try_open_pending_terminal-Holds}
use win_remote_control.Qt.{UuidLibrary}
use win_remote_control.Session.Capability.{NegotiatedCapabilities}
use win_remote_control.Session.Machine.{SessionState}

module _ (q : UuidLibrary) {W : Type 0} (env : Surroundings W) (P : W → Type 0)
    (calls : IsClosed env P) where
  pub notify_controller-Holds :
      (notice : List ℕ) (a : At W) → Holds P a → Holds P (notify_controller q env notice a)
  unfolding notify_controller
  notify_controller-Holds notice a h =
      Holds-if _ _ _ (Holds-world a _ h (write_frontend-held env P calls notice a.world h.held)) h

  pub handle_session_state_changed-Holds :
      (st : SessionState) (a : At W) → Holds P a → Holds P (handle_session_state_changed q env st a)
  unfolding handle_session_state_changed
  handle_session_state_changed-Holds st a h =
      let b =
        try_open_pending_terminal-Holds env P calls _
          (Holds-of (record a.service { session_state = st }) a.world h.valid h.held) in
      Holds-if _ _ _ (set_state-Holds env P calls _ _ _ (notify_controller-Holds _ _ b)) (
        Holds-if _ _ _
          (flush_output-Holds q env P calls _
            (notify_controller-Holds _ _ (set_state-Holds env P calls _ _ _ b)))
          (Holds-if _ _ _ (reset_session-Holds env P calls _ (stop_host-Holds env P calls _ _ _ b))
            b))

  pub handle_capabilities_changed-Holds :
      (c : NegotiatedCapabilities) (a : At W)
      → Holds P a
      → Holds P (handle_capabilities_changed q env c a)
  unfolding handle_capabilities_changed
  handle_capabilities_changed-Holds c a h = request_state-Holds env P calls _ (
      try_open_pending_terminal-Holds env P calls _
        (Holds-of (record a.service { capabilities = c }) a.world h.valid h.held))

  pub handle_channel_changed-Holds :
      (is_open : Bool) (a : At W) → Holds P a → Holds P (handle_channel_changed q env is_open a)
  unfolding handle_channel_changed
  handle_channel_changed-Holds is_open a h =
      let b = Holds-of (record a.service { channel_open = is_open }) a.world h.valid h.held in
      let c = Holds-if _ _ _ (stop_host-Holds env P calls false "terminal_channel_closed" _ b) b in
      request_state-Holds env P calls _
        (Holds-if is_open _ _ (try_open_pending_terminal-Holds env P calls _ c) c)

  pub handle_host_exited-Holds :
      (generation code : ℕ) (a : At W)
      → Holds P a
      → Holds P (handle_host_exited q env generation code a)
  unfolding handle_host_exited
  handle_host_exited-Holds generation code a h =
      Holds-if _ _ _ (set_state-Holds env P calls _ _ _ (send_control-Holds env P calls _ a h)) h

  pub handle_host_stopped-Holds :
      (generation : ℕ) (a : At W) → Holds P a → Holds P (handle_host_stopped q env generation a)
  unfolding handle_host_stopped
  handle_host_stopped-Holds generation a h =
      let v = h.valid in
      let s = record a.service { host_stop_pending = false; stop_timer_active = false } in
      Holds-if _ _ _ h (
        set_state-Holds env P calls _ _ _ (
          Holds-of s a.world
            (record {
              same = v.same;
              output = v.output;
              input = v.input;
              pending = v.pending;
              timed = λ e. cc;
            })
            h.held))

  pub handle_host_error-Holds :
      (generation : ℕ) (code technical : String) (a : At W)
      → Holds P a
      → Holds P (handle_host_error q env generation code technical a)
  unfolding handle_host_error
  handle_host_error-Holds generation code technical a h =
      Holds-if _ _ _ (fail_terminal-Holds env P calls _ _ _ a h) h

  pub handle_stop_timeout-Holds : (a : At W) → Holds P a → Holds P (handle_stop_timeout q env a)
  unfolding handle_stop_timeout
  handle_stop_timeout-Holds a h =
      let v = h.valid in
      let b =
        Holds-of (record a.service { stop_timer_active = false }) a.world
          (record {
            same = v.same;
            output = v.output;
            input = v.input;
            pending = v.pending;
            timed = λ e. cc;
          })
          h.held in
      Holds-if _ _ _ b
        (set_state-Holds env P calls _ _ _ (report_terminal_error-Holds env P calls _ _ _ _ b))

  pub handle_frontend_connected-Holds :
      (generation : ℕ) (a : At W)
      → Holds P a
      → Holds P (handle_frontend_connected q env generation a)
  unfolding handle_frontend_connected
  handle_frontend_connected-Holds generation a h =
      Holds-if _ _ _
        (try_open_pending_terminal-Holds env P calls _
          (Holds-of (record a.service { frontend_connected = true }) a.world h.valid h.held))
        h

  pub handle_frontend_closed-Holds :
      (generation : ℕ) (a : At W) → Holds P a → Holds P (handle_frontend_closed q env generation a)
  unfolding handle_frontend_closed
  handle_frontend_closed-Holds generation a h =
      Holds-if _ _ _
        (stop_host-Holds env P calls _ _ _
          (Holds-of (record a.service { frontend_connected = false }) a.world h.valid h.held))
        h

  pub handle_frontend_error-Holds :
      (generation : ℕ) (code technical : String) (a : At W)
      → Holds P a
      → Holds P (handle_frontend_error q env generation code technical a)
  unfolding handle_frontend_error
  handle_frontend_error-Holds generation code technical a h =
      Holds-if _ _ _ (report_terminal_error-Holds env P calls _ _ _ a h) h

  pub handle_access_observed-Holds :
      (name source : String) (a : At W)
      → Holds P a
      → Holds P (handle_access_observed q env name source a)
  unfolding handle_access_observed
  handle_access_observed-Holds name source a h = record { valid = h.valid; held = h.held }

  pub handle_device_info-Holds :
      (name : String) (a : At W) → Holds P a → Holds P (handle_device_info q env name a)
  unfolding handle_device_info
  handle_device_info-Holds name a h =
      request_state-Holds env P calls _
        (Holds-of (record a.service { device_name = name }) a.world h.valid h.held)
