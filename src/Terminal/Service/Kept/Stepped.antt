-- ===== src/Terminal/Service/Kept/Stepped.antt =====
-- The invariant of KTerminalSessionService through all its entries
-- (src/terminal/terminalsessionservice.cpp), and what it says of the start of the host.
use win_remote_control.Prelude.{◌≡◌, refl, true, false, List, [], ◌∷◌, arith}
use win_remote_control.Terminal.Service.Types.{At, Surroundings, new_service}
use win_remote_control.Terminal.Service.Queues.{IsBounded-empty}
use win_remote_control.Terminal.Service.Kept.{
  AllowsStart, Holds, Holds-if, Holds-of, IsClosed, IsValid, close_terminal-Holds,
  request_state-Holds, shutdown-Holds,
}
use win_remote_control.Terminal.Service.Steps.{
  Event, approval_ends, channel_moves, closes, completes, controls, drained, frontend_closes,
  frontend_connects, frontend_fails, frontend_resizes, frontend_types, host_exits, host_fails,
  host_stops, host_writes, is_named, is_observed, negotiated, opens, opens_endpoint, receives,
  requests_state, resizes, responds, run, session_moves, sets_timeout, shuts_down, starts,
  starts_any, step, stop_ends, times_out, types,
}
use win_remote_control.Terminal.Service.Kept.Queued.{
  handle_host_output-Holds, handle_low_watermark-Holds, send_input-Holds,
}
use win_remote_control.Terminal.Service.Kept.Received.{handle_terminal_data-Holds}
use win_remote_control.Terminal.Service.Kept.Opened.{
  handle_approval_timeout-Holds, open_current_terminal-Holds, open_terminal_for_endpoint-Holds,
  resize_terminal-Holds, respond_incoming_request-Holds, set_approval_timeout_seconds-Holds,
}
use win_remote_control.Terminal.Service.Kept.Controlled.{
  execute_control_message-Holds, handle_command_completed-Holds, handle_command_timeout-Holds,
}
use win_remote_control.Terminal.Service.Kept.Signalled.{
  handle_access_observed-Holds, handle_capabilities_changed-Holds, handle_channel_changed-Holds,
  handle_device_info-Holds, handle_frontend_closed-Holds, handle_frontend_connected-Holds,
  handle_frontend_error-Holds, handle_host_error-Holds, handle_host_exited-Holds,
  handle_host_stopped-Holds, handle_session_state_changed-Holds, handle_stop_timeout-Holds,
}
use win_remote_control.Qt.{UuidLibrary}

IsValid-new : IsValid new_service
IsValid-new = record {
  same = refl;
  output = IsBounded-empty _ _ _;
  input = IsBounded-empty _ _ _;
  pending = IsBounded-empty _ _ _;
  timed = λ e. cc;
}

module _ (q : UuidLibrary) {W : Type 0} (env : Surroundings W) (P : W → Type 0)
    (calls : IsClosed env P) where
  step-Holds :
      (e : Event) (a : At W)
      → (starts e a.service ≡ true → AllowsStart env P)
      → Holds P a
      → Holds P (step q env e a)
  unfolding step
  step-Holds (opens columns rows) a allowed h = open_current_terminal-Holds env P calls _ _ a h
  step-Holds (opens_endpoint host port) a allowed h =
      open_terminal_for_endpoint-Holds env P calls _ _ a h
  step-Holds (responds id is_yes) a allowed h =
      respond_incoming_request-Holds env P calls _ _ a allowed h
  step-Holds (types bytes) a allowed h = send_input-Holds q env P calls _ a h
  step-Holds (resizes columns rows) a allowed h = resize_terminal-Holds env P calls _ _ a h
  step-Holds closes a allowed h = close_terminal-Holds env P calls a h
  step-Holds requests_state a allowed h = request_state-Holds env P calls a h
  step-Holds shuts_down a allowed h = shutdown-Holds env P calls a h
  step-Holds approval_ends a allowed h =
      Holds-if _ _ _ (handle_approval_timeout-Holds env P calls a h) h
  step-Holds stop_ends a allowed h = Holds-if _ _ _ (handle_stop_timeout-Holds q env P calls a h) h
  step-Holds drained a allowed h = handle_low_watermark-Holds q env P calls a h
  step-Holds (sets_timeout seconds) a allowed h =
      set_approval_timeout_seconds-Holds env P calls _ a h
  step-Holds (session_moves st) a allowed h =
      handle_session_state_changed-Holds q env P calls st a h
  step-Holds (negotiated c) a allowed h = handle_capabilities_changed-Holds q env P calls c a h
  step-Holds (channel_moves is_open) a allowed h =
      handle_channel_changed-Holds q env P calls is_open a h
  step-Holds (controls m) a allowed h = execute_control_message-Holds env P calls m a h
  step-Holds (completes type id success code g) a allowed h =
      handle_command_completed-Holds env P calls q _ _ _ _ _ a h
  step-Holds (times_out type id g) a allowed h = handle_command_timeout-Holds env P calls _ _ _ a h
  step-Holds (receives bytes) a allowed h = handle_terminal_data-Holds env P calls q bytes a h
  step-Holds (host_writes g bytes) a allowed h = handle_host_output-Holds q env P calls _ _ a h
  step-Holds (host_exits g code) a allowed h = handle_host_exited-Holds q env P calls g code a h
  step-Holds (host_stops g) a allowed h = handle_host_stopped-Holds q env P calls g a h
  step-Holds (host_fails g code technical) a allowed h =
      handle_host_error-Holds q env P calls g code technical a h
  step-Holds (frontend_connects g) a allowed h = handle_frontend_connected-Holds q env P calls g a h
  step-Holds (frontend_closes g) a allowed h = handle_frontend_closed-Holds q env P calls g a h
  step-Holds (frontend_types g bytes) a allowed h =
      Holds-if _ _ _ (send_input-Holds q env P calls bytes a h) h
  step-Holds (frontend_resizes g columns rows) a allowed h =
      Holds-if _ _ _ (resize_terminal-Holds env P calls columns rows a h) h
  step-Holds (frontend_fails g code technical) a allowed h =
      handle_frontend_error-Holds q env P calls g code technical a h
  step-Holds (is_observed name source) a allowed h =
      handle_access_observed-Holds q env P calls name source a h
  step-Holds (is_named name) a allowed h = handle_device_info-Holds q env P calls name a h

  run-Holds :
      (es : List Event) (a : At W)
      → (starts_any q env es a ≡ true → AllowsStart env P)
      → Holds P a
      → Holds P (run q env es a)
  unfolding run
  run-Holds [] a allowed h = h
  run-Holds (e ∷ es) a allowed h =
      run-Holds es (step q env e a) (λ k. allowed (ground arith))
        (step-Holds e a (λ k. allowed (ground arith)) h)

  -- A world that has a property which no call but the start of the host takes away, and entries from a
  -- new service of which none is an answer yes to the request that waits for it at that moment: then the
  -- world still has the property. So no terminal is started without that answer.
  pub started_needs_approval :
      (es : List Event) (w : W)
      → starts_any q env es (record { service = new_service; world = w }) ≡ false
      → P w
      → P (run q env es (record { service = new_service; world = w })).world
  started_needs_approval es w unanswered p =
      (run-Holds es _ (λ k. cc) (Holds-of new_service w IsValid-new p)).held

-- What holds of every world.
anything : {W : Type 0} (env : Surroundings W) → IsClosed env (λ w. Unit {0})
anything env = record {
  emits = λ signal w p. tt;
  commands = λ m g w p. tt;
  clears = λ w p. tt;
  connects = λ host port w p. tt;
  sends = λ bytes w p. tt;
  creates = λ w p. tt;
  types = λ g bytes w p. tt;
  resizes = λ g columns rows w p. tt;
  stops = λ g w p. tt;
  shows = λ f e. record {
    opens = λ g label w p. tt;
    focuses = λ w p. tt;
    writes = λ g bytes w p. tt;
    pauses = λ b w p. tt;
    closes = λ g w p. tt;
  };
}

module _ (q : UuidLibrary) {W : Type 0} (env : Surroundings W) where
  -- From a new service and in any surroundings, after any entries: the state that the service shows is
  -- that of its state machine; the queues of output, of input and of output that waits for the terminal
  -- hold at most 256 pieces, and 1 MiB, 256 KiB and 1 MiB; their counters are right; each piece has a
  -- byte and at most 16 KiB, or the payload of a frame where it waits; and the stop timer runs only
  -- while the host stops.
  pub run-IsValid :
      (es : List Event) (w : W)
      → IsValid (run q env es (record { service = new_service; world = w })).service
  run-IsValid es w =
      let new = Holds-of new_service w IsValid-new tt in
      (run-Holds q env (λ w. Unit {0}) (anything env) es _ (λ k. λ g columns rows v p. tt)
        new).valid
