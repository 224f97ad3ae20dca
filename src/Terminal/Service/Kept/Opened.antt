-- ===== src/Terminal/Service/Kept/Opened.antt =====
-- The invariant of KTerminalSessionService through its requests and their answers
-- (src/terminal/terminalsessionservice.cpp).
use win_remote_control.Prelude.{
  ℕ, ◌≡◌, refl, inl, inr, Bool, true, false, not, String, str_eq, if◌then◌else◌, Bool-cases,
  Option-cases,
}
use win_remote_control.Terminal.Service.Types.{
  At, Surroundings, connecting_device, frontend_unavailable, incoming_request_cleared,
}
use win_remote_control.Terminal.Service.Basics.{is_frontend_supported}
use win_remote_control.Terminal.Service.Opening.{
  ensure_frontend_open, handle_approval_timeout, is_approval, open_current_terminal,
  open_terminal_for_endpoint, reject, request_terminal, resize_terminal, respond_incoming_request,
  set_approval_timeout_seconds, try_open_pending_terminal, with_size,
}
use win_remote_control.Terminal.Service.Kept.{
  AllowsStart, Holds, Holds-if, Holds-of, Holds-world, IsClosed, emit-Holds, focus-Holds,
  report_terminal_error-Holds, request_state-Holds, send_control-Holds, set_state-Holds,
  start_host-Holds,
}
use win_remote_control.Terminal.Machine.{awaiting_approval, failed, opening, state_eq}

module _ {W : Type 0} (env : Surroundings W) (P : W → Type 0) (calls : IsClosed env P) where
  ensure_frontend_open-Holds : (a : At W) → Holds P a → Holds P (ensure_frontend_open env a).0
  unfolding ensure_frontend_open
  ensure_frontend_open-Holds a h =
      let s = a.service in
      let label = if str_eq s.device_name "" then s.device_source else s.device_name in
      elim (Option-cases env.frontend) [
        | inl e ↦ rw (e, ensure_frontend_open) (report_terminal_error-Holds env P calls _ _ _ _ h)
        | inr (f, e) ↦
            let r = f.open_frontend (env.session_generation a.world) label a.world in
            let p = (calls.shows f e).opens (env.session_generation a.world) label a.world h.held in
            let k = Holds-world a r.0 h p in
            elim (Option-cases r.1) [
              | inl n ↦ rw (e, n, ensure_frontend_open) k
              | inr (reason, n) ↦
                  rw (e, n, ensure_frontend_open)
                    (set_state-Holds env P calls failed frontend_unavailable _
                      (report_terminal_error-Holds env P calls _ _ _ _ k))
            ]
      ]

  request_terminal-Holds : (a : At W) → Holds P a → Holds P (request_terminal env a)
  unfolding request_terminal
  request_terminal-Holds a h =
      let focused = focus-Holds env P calls a h in
      send_control-Holds env P calls _ _ (
        set_state-Holds env P calls _ _ _
          (record { valid = focused.valid; held = calls.creates _ focused.held }))

  pub open_current_terminal-Holds :
      (columns rows : ℕ) (a : At W) → Holds P a → Holds P (open_current_terminal env columns rows a)
  unfolding open_current_terminal
  open_current_terminal-Holds columns rows a h =
      let k =
        Holds-of (with_size columns rows (record a.service { is_controller = true })) a.world
          h.valid h.held in
      let b = ensure_frontend_open-Holds _ k in
      Holds-if _ _ _
        (request_state-Holds env P calls _ (report_terminal_error-Holds env P calls _ _ _ _ h))
        (Holds-if _ _ _ (focus-Holds env P calls _ h) (
          Holds-if _ _ _ b (
            Holds-if _ _ _
              (set_state-Holds env P calls _ _ _ (record { valid = b.valid; held = b.held }))
              (request_terminal-Holds _ b))))

  pub try_open_pending_terminal-Holds :
      (a : At W) → Holds P a → Holds P (try_open_pending_terminal env a)
  unfolding try_open_pending_terminal
  try_open_pending_terminal-Holds a h = Holds-if _ _ _ h (
      open_current_terminal-Holds _ _ _
        (Holds-of (record a.service { open_after_connect = false }) a.world h.valid h.held))

  pub open_terminal_for_endpoint-Holds :
      (host : String) (port : ℕ) (a : At W)
      → Holds P a
      → Holds P (open_terminal_for_endpoint env host port a)
  unfolding open_terminal_for_endpoint
  open_terminal_for_endpoint-Holds host port a h =
      let s = record a.service {
        pending_host = host;
        pending_port = port;
        device_source = host;
        open_after_connect = true;
        is_controller = true;
      } in
      let b = ensure_frontend_open-Holds _ (
        Holds-of s (env.connect_as_controller host port a.world) h.valid
          (calls.connects host port a.world h.held)) in
      Holds-if (not (is_frontend_supported env a.world)) _ _
        (set_state-Holds env P calls failed frontend_unavailable _
          (report_terminal_error-Holds env P calls _ _ _ _ h))
        (Holds-if (not (env.is_idle a.world)) _ _
          (Holds-if _ _ _ (open_current_terminal-Holds _ _ _ h)
            (report_terminal_error-Holds env P calls _ _ _ _ h))
          (set_state-Holds env P calls opening connecting_device _ b))

  pub reject-Holds : (id reason : String) (a : At W) → Holds P a → Holds P (reject env id reason a)
  unfolding reject
  reject-Holds id reason a h = send_control-Holds env P calls _ a h

  pub respond_incoming_request-Holds :
      (id : String) (is_accepted : Bool) (a : At W)
      → (is_approval id is_accepted a.service ≡ true → AllowsStart env P)
      → Holds P a
      → Holds P (respond_incoming_request env id is_accepted a)
  unfolding respond_incoming_request
  respond_incoming_request-Holds id false a allowed h =
      let b =
        emit-Holds env P calls _ _
          (Holds-of (record a.service { approval_timer_active = false }) a.world h.valid h.held) in
      Holds-if _ _ _ h (
        set_state-Holds env P calls _ _ _
          (reject-Holds _ _ _ (record { valid = b.valid; held = b.held })))
  respond_incoming_request-Holds id true a allowed h =
      let s = a.service in
      let b =
        emit-Holds env P calls (incoming_request_cleared s.request_id "accepted") _
          (Holds-of (record s { approval_timer_active = false }) a.world h.valid h.held) in
      elim (Bool-cases (state_eq s.state awaiting_approval)) [
        | inr waits ↦ rw waits h
        | inl waits ↦ elim (Bool-cases (str_eq id s.request_id)) [
          | inr named ↦ rw (waits, named) h
          | inl named ↦
              rw (waits, named)
                (start_host-Holds env P calls s.request_id s.columns s.rows _
                  (allowed (rw (waits, named) refl)) b)
        ]
      ]

  pub handle_approval_timeout-Holds :
      (a : At W) → Holds P a → Holds P (handle_approval_timeout env a)
  unfolding handle_approval_timeout
  handle_approval_timeout-Holds a h =
      let s = record a.service { permission_denied = true; approval_timer_active = false } in
      Holds-if _ _ _
        (Holds-of (record a.service { approval_timer_active = false }) a.world h.valid h.held)
        (set_state-Holds env P calls _ _ _
          (reject-Holds _ _ _ (emit-Holds env P calls _ _ (Holds-of s a.world h.valid h.held))))

  pub resize_terminal-Holds :
      (columns rows : ℕ) (a : At W) → Holds P a → Holds P (resize_terminal env columns rows a)
  unfolding resize_terminal
  resize_terminal-Holds columns rows a h =
      let s = with_size columns rows a.service in
      let w = (env.host_resize (env.session_generation a.world) s.columns s.rows a.world).0 in
      let p = calls.resizes (env.session_generation a.world) s.columns s.rows a.world h.held in
      Holds-if _ _ _ h (
        Holds-if _ _ _ (send_control-Holds env P calls _ _ (Holds-of s a.world h.valid h.held))
          (Holds-of s w h.valid p))

  pub set_approval_timeout_seconds-Holds :
      (seconds : ℕ) (a : At W) → Holds P a → Holds P (set_approval_timeout_seconds env seconds a)
  unfolding set_approval_timeout_seconds
  set_approval_timeout_seconds-Holds seconds a h = record { valid = h.valid; held = h.held }
