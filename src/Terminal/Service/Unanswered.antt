-- ===== src/Terminal/Service/Unanswered.antt =====
-- A request to a terminal whose host has failed to start
-- (src/terminal/terminalsessionservice.cpp).
use win_remote_control.Prelude.{
  ℕ, ◌+◌, ◌*◌, ◌≡◌, refl, sym, ap, subst, ◌∙◌, inl, inr, Bool, true, false, not, ◌||◌, none, List,
  [], ◌∷◌, ◌++◌, String, str_eq, Bool-cases, if-true, if-false,
}
use win_remote_control.Terminal.Service.Types.{
  At, Signal, Surroundings, TerminalMessage, TerminalSessionService, approval_pending,
  incoming_request, message_of, open_request,
}
use win_remote_control.Terminal.Service.Basics.{emit, is_session_ready, send_control, set_state}
use win_remote_control.Terminal.Service.Opening.{handle_approval_timeout, respond_incoming_request}
use win_remote_control.Terminal.Service.Control.{
  begin_approval, execute_control_message, execute_open_request, is_busy, is_open_request,
}
use win_remote_control.Terminal.Machine.{
  awaiting_approval, can_transition_to, failed, state_eq, switch_allows,
}

-- The signals that the surroundings have heard and the commands that they were given, whether or not
-- these could be sent, are logs in the world.
pub record IsLogging {W : Type 0} (env : Surroundings W) (signals : W → List Signal)
    (commands : W → List TerminalMessage) : Type 0 where
  pub hears : (s : Signal) (w : W) → signals (env.emit s w) ≡ signals w ++ s ∷ []
  pub leaves : (s : Signal) (w : W) → commands (env.emit s w) ≡ commands w
  pub takes :
      (m : TerminalMessage) (generation : ℕ) (w : W)
      → commands (env.send_command m generation w).0 ≡ commands w ++ m ∷ []

-- What tells the peer that its request waits for an approval.
abbrev pub pending_message : TerminalMessage → TerminalSessionService → TerminalMessage
pending_message m s = record (message_of approval_pending m.request_id) {
  timeout_seconds = s.approval_timeout_seconds;
}

-- What the user is shown, at a time.
abbrev pub shown_request : TerminalMessage → TerminalSessionService → ℕ → Signal
shown_request m s now =
    incoming_request m.request_id s.device_name s.device_source
      (now + s.approval_timeout_seconds * 1000)

-- The request `m` that `a` got and that led to `b` is told to the peer and shown to the user, but the
-- state does not wait for an answer, and neither an answer nor the end of the timer does anything.
pub record IsUnanswered {W : Type 0} (env : Surroundings W) (signals : W → List Signal)
    (commands : W → List TerminalMessage) (m : TerminalMessage) (a b : At W) : Type 0 where
  pub told_to_peer : commands b.world ≡ commands a.world ++ pending_message m a.service ∷ []
  pub shown_to_user :
      let w = (send_control env (pending_message m a.service) a).0.world in
      signals b.world ≡ signals w ++ shown_request m a.service (env.now_ms w) ∷ []
  pub state : b.service.state ≡ failed
  pub request : b.service.request_id ≡ m.request_id
  pub timer : b.service.approval_timer_active ≡ true
  pub answer_ignored : (id : String) (is_yes : Bool) → respond_incoming_request env id is_yes b ≡ b
  pub timeout_ignored :
      handle_approval_timeout env b
      ≡ record b { service = record b.service { approval_timer_active = false } }

module _ {W : Type 0} (env : Surroundings W) where
  begin_approval-world :
      (m : TerminalMessage) (a : At W)
      → a.service.machine ≡ failed
      → let w = (send_control env (pending_message m a.service) a).0.world in
        (begin_approval env m a).world ≡ env.emit (shown_request m a.service (env.now_ms w)) w
  unfolding begin_approval set_state send_control emit can_transition_to switch_allows
  begin_approval-world m a machine =
      ap (λ w. env.emit (shown_request m a.service (env.now_ms w)) w)
        (if-false (can_transition_to awaiting_approval a.service.machine) _ _ (rw machine refl))

  module _ (signals : W → List Signal) (commands : W → List TerminalMessage)
      (logs : IsLogging env signals commands) where
    commands-send_control :
        (m : TerminalMessage) (a : At W)
        → commands (send_control env m a).0.world ≡ commands a.world ++ m ∷ []
    unfolding send_control
    commands-send_control m a =
        let generation = env.session_generation a.world in
        let taken = logs.takes m generation a.world in
        elim (Bool-cases (env.send_command m generation a.world).1) [
          | inl sent ↦ ap commands (if-true _ _ _ sent) ∙ taken
          | inr refused ↦ ap commands (if-false _ _ _ refused) ∙ (logs.leaves _ _ ∙ taken)
        ]

  stays_failed :
      (m : TerminalMessage) (a : At W)
      → a.service.state ≡ failed
      → a.service.machine ≡ failed
      → let b = begin_approval env m a in
        (b.service.state ≡ failed)
        × (b.service.request_id ≡ m.request_id)
        × (b.service.approval_timer_active ≡ true)
  unfolding begin_approval set_state send_control emit can_transition_to switch_allows
  stays_failed m a st machine = (
    if-false (can_transition_to awaiting_approval a.service.machine) _ _ (rw machine refl) ∙ st,
    refl,
    refl,
  )

  -- A service whose terminal has failed takes the next request: it gives the dispatcher the message to
  -- the peer that an approval is pending, shows the request to the user and starts the timer, but its
  -- state machine refuses the state that waits for the approval. So the answer of the user does
  -- nothing, whatever it is, and neither does the end of the timer. The surroundings keep logs of
  -- what they are told.
  pub request_after_failure :
      (signals : W → List Signal) (commands : W → List TerminalMessage)
      → IsLogging env signals commands
      → (m : TerminalMessage) (a : At W) → m.type ≡ open_request
      → a.service.state ≡ failed
      → a.service.machine ≡ failed
      → is_session_ready a.service ≡ true
      → a.service.permission_denied ≡ false
      → ((execute_control_message env m a).1 ≡ none)
        × IsUnanswered env signals commands m a (execute_control_message env m a).0
  unfolding execute_control_message execute_open_request respond_incoming_request
      handle_approval_timeout
  request_after_failure signals commands logs m a type st machine ready allowed =
      let s = a.service in
      let k = stays_failed m a st machine in
      let b = begin_approval env m a in
      let silent : state_eq b.service.state awaiting_approval ≡ false = rw (k.0) refl in
      let world = begin_approval-world m a machine in
      let taken : execute_control_message env m a ≡ (b, none) =
        if-true (is_open_request env m.type) _ _ (rw type refl)
        ∙ if-false (not (is_session_ready s) || (s.permission_denied || is_busy env s)) _ _
            (rw (ready, allowed, st) refl) in
      (
        ap (λ h. h.1) taken,
        subst (λ c. IsUnanswered env signals commands m a c) (sym (ap (λ h. h.0) taken))
            (record {
              told_to_peer =
                  ap commands world
                  ∙ (logs.leaves _ _
                      ∙ commands-send_control signals commands logs (pending_message m s) a);
              shown_to_user = ap signals world ∙ logs.hears _ _;
              state = k.0;
              request = k.1;
              timer = k.2;
              answer_ignored = λ id is_yes.
                  if-true
                    (not (state_eq b.service.state awaiting_approval)
                      || not (str_eq id b.service.request_id))
                    _ _ (rw silent refl);
              timeout_ignored =
                  if-true
                    (not (state_eq b.service.state awaiting_approval) || b.service.is_controller) _
                    _ (rw silent refl);
            }),
      )
