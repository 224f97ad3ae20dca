-- ===== src/Terminal/Service/Kept.antt =====
-- The invariant of KTerminalSessionService and what its basic operations, its stops and its queues do
-- to it (src/terminal/terminalsessionservice.cpp).
pub mod Queued
pub mod Received
pub mod Opened
pub mod Controlled
pub mod Signalled
pub mod Stepped
use win_remote_control.Prelude.{
  Outcome, ok, err, passed, ℕ, zero, suc, ◌+◌, ◌-◌, ◌*◌, ◌/◌, ◌%◌, ◌^◌, ◌≤◌, ◌<◌, min, max, ◌≡◌,
  refl, sym, ap, subst, ◌∙◌, ◌≢◌, ◌↔◌, ◌⊎◌, inl, inr, Bool, true, false, not, ◌&&◌, ◌||◌, Option,
  none, some, List, [], ◌∷◌, ◌++◌, map, Memᴰ, append-nil, append_assoc, arith, String, str_eq,
  str_eq_iff, ltb, leb, ◌==◌, if◌then◌else◌, ltb→lt, lt→ltb, leb→le, ==_iff, tests, Bool-cases,
  Option-cases, length, take, drop, length-append, length-drop, take-append_length,
  drop-append_length, List-cases, take_all, length-take, byte_at, write_le, write_be, read_le,
  read_be, byte_at-append, take-append, drop-append, byte_at-skip, drop-skip, take-skip,
}
use win_remote_control.Terminal.Service.Types.{
  At, Signal, Status, Surroundings, TerminalErrorCode, TerminalFrontend, TerminalMessage,
  TerminalSessionService, accept_failed, accepted, message_of, start_failed, starting_shell,
  terminal_closed, waiting_for_accept,
}
use win_remote_control.Terminal.Service.Basics.{
  close_frontend, emit, moved, on_frontend, report_terminal_error, request_state, send_control,
  set_state, write_frontend,
}
use win_remote_control.Terminal.Service.Stopping.{
  before_stop, blank, close_terminal, fail_terminal, notify_peer, request_host_stop, reset_session,
  shutdown, start_host, stop_host, stopped,
}
use win_remote_control.Terminal.Service.Output.{
  input_chunk_bytes, maximum_input_queue_bytes, maximum_input_queue_messages,
  maximum_output_queue_bytes, maximum_output_queue_messages, output_chunk_bytes,
}
use win_remote_control.Terminal.Service.Queues.{IsBounded, IsBounded-empty}
use win_remote_control.Terminal.Machine.{
  TerminalState, can_transition_to, closed, failed, opening, transition_to,
}
use win_remote_control.Terminal.DataFrame.{input, maximum_payload_bytes, output}

-- The state is the machine's, the queues keep their limits with right counters, and the stop timer runs
-- only while the host stops.
pub record Fits (state machine : TerminalState) (output_queue : List (List ℕ)) (output_bytes : ℕ)
    (input_queue : List (List ℕ)) (input_bytes : ℕ) (pending_queue : List (List ℕ))
    (pending_bytes : ℕ) (stop_timer_active host_stop_pending : Bool) : Type 0 where
  pub same : state ≡ machine
  pub output :
      IsBounded output_chunk_bytes maximum_output_queue_messages maximum_output_queue_bytes
        output_queue output_bytes
  pub input :
      IsBounded input_chunk_bytes maximum_input_queue_messages maximum_input_queue_bytes input_queue
        input_bytes
  pub pending :
      IsBounded maximum_payload_bytes maximum_output_queue_messages maximum_output_queue_bytes
        pending_queue pending_bytes
  pub timed : stop_timer_active ≡ true → host_stop_pending ≡ true

abbrev pub IsValid : TerminalSessionService → Type 0
IsValid s =
    Fits s.state s.machine s.output_queue s.queued_output_bytes s.input_queue s.queued_input_bytes
      s.pending_queue s.pending_bytes s.stop_timer_active s.host_stop_pending

pub IsValid-moved :
    (next : TerminalState) (text : Status) (s : TerminalSessionService)
    → IsValid s
    → IsValid (moved next text s)
unfolding transition_to can_transition_to
IsValid-moved next text s v = record {
  same = ground (arith, v.same);
  output = v.output;
  input = v.input;
  pending = v.pending;
  timed = v.timed;
}

timers-if :
    (c x y : Bool)
    → (x ≡ true → y ≡ true)
    → (if c then x else true) ≡ true
    → (if c then y else true) ≡ true
timers-if true x y f h = f h
timers-if false x y f h = refl

IsValid-stopped : (s : TerminalSessionService) → IsValid s → IsValid (stopped s)
IsValid-stopped s v = record {
  same = v.same;
  output = IsBounded-empty _ _ _;
  input = IsBounded-empty _ _ _;
  pending = IsBounded-empty _ _ _;
  timed = timers-if s.is_controller _ _ v.timed;
}

IsValid-blank : (s : TerminalSessionService) → IsValid s → IsValid (blank s)
IsValid-blank s v = record {
  same = v.same;
  output = IsBounded-empty _ _ _;
  input = IsBounded-empty _ _ _;
  pending = IsBounded-empty _ _ _;
  timed = λ h. cc;
}

-- A property of the world that the calls of a frontend keep.
pub record IsShown {W : Type 0} (f : TerminalFrontend W) (P : W → Type 0) : Type 0 where
  pub opens : (g : ℕ) (label : String) (w : W) → P w → P (f.open_frontend g label w).0
  pub focuses : (w : W) → P w → P (f.focus w)
  pub writes : (g : ℕ) (bytes : List ℕ) (w : W) → P w → P (f.write_output g bytes w).0
  pub pauses : (b : Bool) (w : W) → P w → P (f.set_input_paused b w)
  pub closes : (g : ℕ) (w : W) → P w → P (f.close_frontend g w)

-- A property of the world that every call of the service keeps, but for the start of the host.
pub record IsClosed {W : Type 0} (env : Surroundings W) (P : W → Type 0) : Type 0 where
  pub emits : (signal : Signal) (w : W) → P w → P (env.emit signal w)
  pub commands : (m : TerminalMessage) (g : ℕ) (w : W) → P w → P (env.send_command m g w).0
  pub clears : (w : W) → P w → P (env.clear_commands w)
  pub connects :
      (host : String) (port : ℕ) (w : W) → P w → P (env.connect_as_controller host port w)
  pub sends : (bytes : List ℕ) (w : W) → P w → P (env.send_terminal_data bytes w).0
  pub creates : (w : W) → P w → P (env.create_uuid w).0
  pub types : (g : ℕ) (bytes : List ℕ) (w : W) → P w → P (env.host_write_input g bytes w).0
  pub resizes : (g columns rows : ℕ) (w : W) → P w → P (env.host_resize g columns rows w).0
  pub stops : (g : ℕ) (w : W) → P w → P (env.host_request_stop g w)
  pub shows : (f : TerminalFrontend W) → env.frontend ≡ some f → IsShown f P

-- A property that the start of the host keeps.
abbrev pub AllowsStart : {W : Type 0} → Surroundings W → (W → Type 0) → Type 0
AllowsStart {W} env P = (g columns rows : ℕ) (w : W) → P w → P (env.host_start g columns rows w).0

module _ {W : Type 0} where
  -- The invariant of the service and the property of the world, at a moment.
  pub record Holds (P : W → Type 0) (a : At W) : Type 0 where
    pub valid : IsValid a.service
    pub held : P a.world

module _ {W : Type 0} {P : W → Type 0} where
  -- A call that changes the world only.
  pub Holds-world : (a : At W) (w : W) → Holds P a → P w → Holds P (record a { world = w })
  Holds-world a w h p = record { valid = h.valid; held = p }

  -- A change of fields that the invariant does not read.
  pub Holds-of :
      (s : TerminalSessionService) (w : W)
      → IsValid s
      → P w
      → Holds P (record { service = s; world = w })
  Holds-of s w v p = record { valid = v; held = p }

  Holds-stopped : (a : At W) → Holds P a → Holds P (record a { service = stopped a.service })
  Holds-stopped a h = record { valid = IsValid-stopped a.service h.valid; held = h.held }

  Holds-blank :
      (a : At W) (w : W)
      → Holds P a
      → P w
      → Holds P (record { service = blank a.service; world = w })
  Holds-blank a w h p = record { valid = IsValid-blank a.service h.valid; held = p }

  pub Holds-if : (c : Bool) (a b : At W) → Holds P a → Holds P b → Holds P (if c then a else b)
  Holds-if true a b h k = h
  Holds-if false a b h k = k

module _ {W : Type 0} (env : Surroundings W) (P : W → Type 0) (calls : IsClosed env P) where
  held-if : (c : Bool) (v w : W) → P v → P w → P (if c then v else w)
  held-if true v w h k = h
  held-if false v w h k = k

  pub emit-Holds : (signal : Signal) (a : At W) → Holds P a → Holds P (emit env signal a)
  unfolding emit
  emit-Holds signal a h = record { valid = h.valid; held = calls.emits signal a.world h.held }

  pub on_frontend-Holds :
      (f : TerminalFrontend W → W → W) (a : At W)
      → ((t : TerminalFrontend W) → IsShown t P → (w : W) → P w → P (f t w))
      → Holds P a
      → Holds P (on_frontend env f a)
  unfolding on_frontend
  on_frontend-Holds f a k h = elim (Option-cases env.frontend) [
    | inl e ↦ rw (e, on_frontend) h
    | inr (t, e) ↦ rw (e, on_frontend) (Holds-world a _ h (k t (calls.shows t e) a.world h.held))
  ]

  pub pause-Holds :
      (b : Bool) (a : At W)
      → Holds P a
      → Holds P (on_frontend env (λ f w. f.set_input_paused b w) a)
  pause-Holds b a h = on_frontend-Holds _ a (λ t k. k.pauses b) h

  pub focus-Holds : (a : At W) → Holds P a → Holds P (on_frontend env (λ f w. f.focus w) a)
  focus-Holds a h = on_frontend-Holds _ a (λ t k. k.focuses) h

  pub close_frontend-Holds : (a : At W) → Holds P a → Holds P (close_frontend env a)
  unfolding close_frontend
  close_frontend-Holds a h =
      on_frontend-Holds _ a (λ t k w. k.closes (env.session_generation w) w) h

  pub write_frontend-held : (bytes : List ℕ) (w : W) → P w → P (write_frontend env bytes w).0
  write_frontend-held bytes w p = elim (Option-cases env.frontend) [
    | inl e ↦ rw e p
    | inr (t, e) ↦ rw e ((calls.shows t e).writes (env.session_generation w) bytes w p)
  ]

  pub set_state-Holds :
      (next : TerminalState) (text : Status) (a : At W)
      → Holds P a
      → Holds P (set_state env next text a)
  unfolding set_state
  set_state-Holds next text a h = record {
    valid = IsValid-moved next text a.service h.valid;
    held =
        held-if (can_transition_to next a.service.machine) _ a.world (calls.emits _ a.world h.held)
          h.held;
  }

  pub request_state-Holds : (a : At W) → Holds P a → Holds P (request_state env a)
  unfolding request_state
  request_state-Holds a h = set_state-Holds _ _ a h

  pub report_terminal_error-Holds :
      (code : TerminalErrorCode) (retryable : Bool) (technical : List String) (a : At W)
      → Holds P a
      → Holds P (report_terminal_error env code retryable technical a)
  unfolding report_terminal_error
  report_terminal_error-Holds code retryable technical a h = emit-Holds _ a h

  pub send_control-Holds :
      (m : TerminalMessage) (a : At W) → Holds P a → Holds P (send_control env m a).0
  unfolding send_control
  send_control-Holds m a h =
      let w = env.send_command m (env.session_generation a.world) a.world in
      let p = calls.commands m (env.session_generation a.world) a.world h.held in
      record { valid = h.valid; held = held-if w.1 w.0 _ p (calls.emits _ w.0 p) }

  pub notify_peer-Holds :
      (reason : String) (a : At W) → Holds P a → Holds P (notify_peer env reason a)
  unfolding notify_peer
  notify_peer-Holds reason a h = Holds-if _ _ _ (send_control-Holds _ a h) h

  pub ruleset basics = (
    Holds-if, emit-Holds, pause-Holds, close_frontend-Holds, set_state-Holds, request_state-Holds,
    report_terminal_error-Holds, send_control-Holds, notify_peer-Holds,
  )

  before_stop-Holds :
      (notify : Bool) (reason : String) (a : At W)
      → Holds P a
      → Holds P (before_stop env notify reason a)
  unfolding before_stop
  before_stop-Holds notify reason a h = search (basics)

  pub request_host_stop-Holds : (a : At W) → Holds P a → Holds P (request_host_stop env a)
  unfolding request_host_stop
  request_host_stop-Holds a h =
      Holds-world a _ h (calls.stops (env.session_generation a.world) a.world h.held)

  pub stop_host-Holds :
      (notify : Bool) (reason : String) (a : At W)
      → Holds P a
      → Holds P (stop_host env notify reason a)
  unfolding stop_host
  stop_host-Holds notify reason a h =
      let b = before_stop-Holds notify reason a h in
      let ended =
        Holds-if a.service.is_controller _ _
          (close_frontend-Holds _ (set_state-Holds closed terminal_closed _ b))
          (request_host_stop-Holds _ b) in
      Holds-if _ _ _ h (Holds-stopped _ ended)

  pub fail_terminal-Holds :
      (code : String) (text : Status) (technical : List String) (a : At W)
      → Holds P a
      → Holds P (fail_terminal env code text technical a)
  unfolding fail_terminal
  fail_terminal-Holds code text technical a h = search (basics, stop_host-Holds)

  pub reset_session-Holds : (a : At W) → Holds P a → Holds P (reset_session env a)
  unfolding reset_session
  reset_session-Holds a h =
      let k = close_frontend-Holds _ (pause-Holds false a h) in
      set_state-Holds _ _ _ (Holds-blank _ _ k (calls.clears _ k.held))

  pub start_host-Holds :
      (id : String) (columns rows : ℕ) (a : At W)
      → AllowsStart env P
      → Holds P a
      → Holds P (start_host env id columns rows a)
  unfolding start_host
  start_host-Holds id columns rows a allowed h =
      let b = set_state env opening starting_shell a in
      let started = env.host_start (env.session_generation b.world) columns rows b.world in
      let opened = set_state-Holds opening starting_shell a h in
      let i = Holds-world b started.0 opened (allowed _ columns rows b.world opened.held) in
      let k = send_control-Holds (message_of accepted id) _ i in
      elim (Option-cases started.1) [
        | inl e ↦
            rw (e, start_host)
              (Holds-if _ _ _ (stop_host-Holds _ _ _ (set_state-Holds failed accept_failed _ k))
                (set_state-Holds opening waiting_for_accept _ k))
        | inr (reason, e) ↦
            rw (e, start_host)
              (report_terminal_error-Holds _ _ _ _
                (set_state-Holds failed start_failed _ (send_control-Holds _ _ i)))
      ]

  pub close_terminal-Holds : (a : At W) → Holds P a → Holds P (close_terminal env a)
  unfolding close_terminal
  close_terminal-Holds a h = stop_host-Holds _ _ a h

  pub shutdown-Holds : (a : At W) → Holds P a → Holds P (shutdown env a)
  unfolding shutdown
  shutdown-Holds a h = close_frontend-Holds _ (
      stop_host-Holds _ _ _
        (Holds-of (record a.service { open_after_connect = false }) a.world h.valid h.held))
