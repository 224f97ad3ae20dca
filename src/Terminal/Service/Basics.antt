-- ===== src/Terminal/Service/Basics.antt =====
-- What the handlers of KTerminalSessionService share (src/terminal/terminalsessionservice.cpp): its
-- state, its messages and its errors. The trace is left out.
use win_remote_control.Prelude.{
  ℕ, min, max, Bool, true, false, ◌&&◌, none, some, List, [], ◌∷◌, String, if◌then◌else◌,
}
use win_remote_control.Terminal.Service.Types.{
  At, Signal, Status, Surroundings, TerminalErrorCode, TerminalFrontend, TerminalMessage,
  TerminalSessionService, has_text, state_changed, state_name, structured_terminal_error,
  terminal_unavailable,
}
use win_remote_control.Terminal.Machine.{TerminalState, can_transition_to, transition_to}
use win_remote_control.Session.Capability.{contains}
use win_remote_control.Session.Machine.{SessionState, connected, streaming}

abbrev pub is_session_up : SessionState → Bool
is_session_up connected = true
is_session_up streaming = true
is_session_up _ = false

abbrev pub is_session_ready : TerminalSessionService → Bool
is_session_ready s =
    is_session_up s.session_state
    && (s.channel_open && (s.capabilities.valid && contains s.capabilities.channels "terminal"))

-- What setState writes.
abbrev pub moved : TerminalState → Status → TerminalSessionService → TerminalSessionService
moved next status s = record s {
  state = if can_transition_to next s.machine then next else s.state;
  machine = (transition_to next s.machine).0;
  status = if can_transition_to next s.machine then status else s.status;
}

-- qBound(low, n, high).
abbrev pub bound : ℕ → ℕ → ℕ → ℕ
bound low n high = max low (min n high)

module _ {W : Type 0} (env : Surroundings W) where
  unfoldable pub emit : Signal → At W → At W
  emit signal a = record a { world = env.emit signal a.world }

  unfoldable pub on_frontend : (TerminalFrontend W → W → W) → At W → At W
  on_frontend f a = record a {
    world = elim env.frontend [ none ↦ a.world | some frontend ↦ f frontend a.world ];
  }

  unfoldable pub close_frontend : At W → At W
  close_frontend a = on_frontend (λ f w. f.close_frontend (env.session_generation w) w) a

  -- A write to a frontend that is not there fails.
  abbrev pub write_frontend : List ℕ → W → W × Bool
  write_frontend bytes w = elim env.frontend [
    | none ↦ (w, false)
    | some f ↦ f.write_output (env.session_generation w) bytes w
  ]

  abbrev pub is_frontend_supported : W → Bool
  is_frontend_supported w = elim env.frontend [ none ↦ false | some f ↦ f.frontend_supported w ]

  abbrev pub is_available : At W → Bool
  is_available a =
      (if a.service.is_controller
        then is_frontend_supported a.world
        else env.host_supported a.world)
      && (a.service.channel_open && contains a.service.capabilities.channels "terminal")

  -- A move that the machine refuses changes nothing and is not told.
  unfoldable pub set_state : TerminalState → Status → At W → At W
  set_state next status a =
      let s = moved next status a.service in
      let told =
        env.emit
          (state_changed next (is_available a) status a.service.device_name a.service.device_source)
          a.world in
      record {
        service = s;
        world = if can_transition_to next a.service.machine then told else a.world;
      }

  unfoldable pub request_state : At W → At W
  unfolding set_state
  request_state a =
      set_state a.service.state
        (if has_text a.service.status then a.service.status else state_name a.service.state) a

  unfoldable pub report_terminal_error : TerminalErrorCode → Bool → List String → At W → At W
  report_terminal_error code retryable technical a =
      emit (structured_terminal_error code retryable technical) a

  unfoldable pub send_control : TerminalMessage → At W → At W × Bool
  send_control m a =
      let (w, sent) = env.send_command m (env.session_generation a.world) a.world in
      let failed =
        env.emit
          (structured_terminal_error terminal_unavailable false
            ("Unable to send terminal control command" ∷ []))
          w in
      (record a { world = if sent then w else failed }, sent)
