-- ===== src/Terminal/Service/Tests.antt =====
-- A desk with a host and a frontend that always work, and the terminal service on it
-- (src/terminal/terminalsessionservice.cpp).
use mathlib.Core.List.{Sublistᴰ}
use mathlib.Core.Option.{some-injective}
use win_remote_control.Prelude.{
  ℕ, ◌+◌, ◌≡◌, refl, subst, true, false, none, some, List, [], ◌∷◌, ◌++◌, arith, length,
}
use win_remote_control.Terminal.Service.Types.{
  At, Signal, Surroundings, TerminalFrontend, TerminalMessage, accepted, incoming_request,
  message_of, new_service, open_request,
}
use win_remote_control.Terminal.Service.Basics.{emit, request_state, send_control, set_state}
use win_remote_control.Terminal.Service.Stopping.{start_host}
use win_remote_control.Terminal.Service.Output.{
  chunks, enqueue_output, fill, flush, flush_output, handle_host_output, send_data_frame,
}
use win_remote_control.Terminal.Service.Opening.{
  reject, respond_incoming_request, try_open_pending_terminal,
}
use win_remote_control.Terminal.Service.Control.{
  begin_approval, execute_control_message, execute_open_request, handle_command_completed,
}
use win_remote_control.Terminal.Service.Events.{
  handle_capabilities_changed, handle_channel_changed, handle_session_state_changed,
}
use win_remote_control.Terminal.Service.Steps.{
  Event, channel_moves, completes, controls, host_writes, negotiated, responds, run, session_moves,
  step,
}
use win_remote_control.Terminal.Service.Queues.{IsBounded-empty}
use win_remote_control.Terminal.Service.Kept.{IsClosed, IsShown, IsValid}
use win_remote_control.Terminal.Service.Kept.Stepped.{run-IsValid, started_needs_approval}
use win_remote_control.Terminal.Service.Stream.{Carries, IsRequest, Logs, nothing, one_more}
use win_remote_control.Terminal.Service.Stream.Sender.{
  ByteStream, Implements, Pushes, flat, handle_host_output-Pushes,
}
use win_remote_control.Terminal.Service.Stream.Receiver.{
  IsWatching, Shows, receive_all, receive_all-Sublist,
}
use win_remote_control.Terminal.Service.Stream.Arrival.{output_arrives}
use win_remote_control.Terminal.Service.Unanswered.{IsLogging, IsUnanswered, request_after_failure}
use win_remote_control.Prelude.Parts.{deliver}
use win_remote_control.Qt.Example.{sixteen, two_uuids}
use win_remote_control.Terminal.Machine.{
  can_transition_to, failed, running, switch_allows, transition_to,
}
use win_remote_control.Terminal.DataFrame.{decode, encode, output}
use win_remote_control.Session.Capability.{NegotiatedCapabilities, no_capabilities}
use win_remote_control.Session.Machine.{connected}

record Desk : Type 0 where
  pub host_starts : ℕ
  pub packets : List (List ℕ)
  pub screen : List (List ℕ)

abbrev empty_desk : Desk
empty_desk = record { host_starts = 0; packets = []; screen = [] }

abbrev window : TerminalFrontend Desk
window = record {
  frontend_supported = λ w. true;
  open_frontend = λ g label w. (w, none);
  focus = λ w. w;
  write_output = λ g bytes w. (record w { screen = w.screen ++ bytes ∷ [] }, true);
  set_input_paused = λ b w. w;
  close_frontend = λ g w. w;
}

abbrev desk : Surroundings Desk
desk = record {
  host_supported = λ w. true;
  host_start = λ g columns rows w. (record w { host_starts = w.host_starts + 1 }, none);
  host_write_input = λ g bytes w. (w, true);
  host_resize = λ g columns rows w. (w, true);
  host_request_stop = λ g w. w;
  frontend = some window;
  session_generation = λ w. 4;
  is_idle = λ w. true;
  matches_current_endpoint = λ host port w. true;
  connect_as_controller = λ host port w. w;
  send_terminal_data = λ b w. (record w { packets = w.packets ++ b ∷ [] }, true);
  is_backpressured = λ w. false;
  send_command = λ m g w. (w, true);
  clear_commands = λ w. w;
  create_uuid = λ w. (w, "7");
  now_ms = λ w. 0;
  emit = λ signal w. w;
}

abbrev with_terminal : NegotiatedCapabilities
with_terminal = record no_capabilities { valid = true; channels = "terminal" ∷ [] }

abbrev request : TerminalMessage
request = record (message_of open_request "7") { columns = 80; rows = 24 }

abbrev connected_first : List Event
connected_first = session_moves connected ∷ negotiated with_terminal ∷ channel_moves true ∷ []

-- A terminal that is asked for, allowed, started, and writes.
abbrev allowed_run : List Event
allowed_run =
    connected_first
    ++ controls request
      ∷ responds "7" true
      ∷ completes accepted "7" true "" 4
      ∷ host_writes 4 (108 ∷ 115 ∷ [])
      ∷ []

abbrev new_desk : At Desk
new_desk = record { service = new_service; world = empty_desk }

allowed_run_runs : (run two_uuids desk allowed_run new_desk).service.state ≡ running
unfolding run step handle_session_state_changed try_open_pending_terminal
    handle_capabilities_changed request_state set_state can_transition_to switch_allows
    transition_to handle_channel_changed execute_control_message execute_open_request begin_approval
    send_control emit respond_incoming_request start_host handle_command_completed flush_output
    flush handle_host_output enqueue_output fill chunks send_data_frame
allowed_run_runs = refl

allowed_run_starts : length (run two_uuids desk allowed_run new_desk).world.packets ≡ 1
unfolding run step handle_session_state_changed try_open_pending_terminal
    handle_capabilities_changed request_state set_state can_transition_to switch_allows
    transition_to handle_channel_changed execute_control_message execute_open_request begin_approval
    send_control emit respond_incoming_request start_host handle_command_completed flush_output
    flush handle_host_output enqueue_output fill chunks send_data_frame encode
allowed_run_starts = refl

run-IsValid_example : IsValid (run two_uuids desk allowed_run new_desk).service
run-IsValid_example = run-IsValid two_uuids desk allowed_run empty_desk

window_kept : IsShown window (λ w. w.host_starts ≡ 0)
window_kept = record {
  opens = λ g label w p. p;
  focuses = λ w p. p;
  writes = λ g bytes w p. p;
  pauses = λ b w p. p;
  closes = λ g w p. p;
}

not_started : IsClosed desk (λ w. w.host_starts ≡ 0)
not_started = record {
  emits = λ signal w p. p;
  commands = λ m g w p. p;
  clears = λ w p. p;
  connects = λ host port w p. p;
  sends = λ bytes w p. p;
  creates = λ w p. p;
  types = λ g bytes w p. p;
  resizes = λ g columns rows w p. p;
  stops = λ g w p. p;
  shows = λ f e.
      subst (λ t. IsShown t (λ w. w.host_starts ≡ 0)) (some-injective window f e) window_kept;
}

-- The answer names another request.
abbrev refused_run : List Event
refused_run = connected_first ++ controls request ∷ responds "8" true ∷ responds "7" false ∷ []

started_needs_approval_example : (run two_uuids desk refused_run new_desk).world.host_starts ≡ 0
unfolding run step handle_session_state_changed try_open_pending_terminal
    handle_capabilities_changed request_state set_state can_transition_to switch_allows
    transition_to handle_channel_changed execute_control_message execute_open_request begin_approval
    send_control emit respond_incoming_request start_host reject
started_needs_approval_example =
    started_needs_approval two_uuids desk (λ w. w.host_starts ≡ 0) not_started refused_run
      empty_desk refl refl

-- A terminal that runs, on the side of its host and on the other.
abbrev hosting : At Desk
hosting = record {
  service = record new_service {
    state = running;
    machine = running;
    request_id = "7";
    channel_open = true;
  };
  world = empty_desk;
}

abbrev watching : At Desk
watching = record hosting { service = record hosting.service { is_controller = true } }

hosting_IsValid : IsValid hosting.service
hosting_IsValid = record {
  same = refl;
  output = IsBounded-empty _ _ _;
  input = IsBounded-empty _ _ _;
  pending = IsBounded-empty _ _ _;
  timed = λ e. cc;
}

seven : IsRequest two_uuids "7"
seven = record { named = refl; identified = refl; canonical = refl }

watching_IsWatching : IsWatching "7" 0 watching.service
watching_IsWatching = record { controls = refl; runs = refl; named = refl; reached = refl }

logged : Logs desk (λ w. w.packets)
logged = record { sent = λ b w e. refl; kept = λ b w e. cc }

on_screen : Shows desk (λ w. w.screen)
on_screen = record { writes = λ bytes w. (refl, refl); emits = λ signal w. refl }

abbrev no_bytes : ByteStream
no_bytes = record { sent = []; waiting = [] }

nothing_sent : Implements two_uuids desk (λ w. w.packets) logged [] 1 no_bytes hosting
nothing_sent = record {
  chunks_sent = [];
  packets = [];
  logged = refl;
  carried = nothing;
  sent_bytes = refl;
  waiting_bytes = refl;
  numbered = refl;
}

abbrev ls : List ℕ
ls = 108 ∷ 115 ∷ []

abbrev after_ls : At Desk
after_ls = handle_host_output two_uuids desk 4 ls hosting

handle_host_output-Pushes_example :
    (t : ByteStream) × Pushes ls no_bytes t
    × Implements two_uuids desk (λ w. w.packets) logged [] 1 t after_ls
unfolding chunks
handle_host_output-Pushes_example =
    handle_host_output-Pushes two_uuids desk (λ w. w.packets) logged [] 1 no_bytes hosting ls
      (omega arith) hosting_IsValid seven refl refl (omega arith) (omega arith) (omega arith)
      nothing_sent

output_arrives_example :
    (packets : List (List ℕ)) × (after_ls.world.packets ≡ [] ++ packets)
    × (flat (receive_all two_uuids desk packets watching).world.screen
          ++ flat after_ls.service.output_queue
        ≡ [] ++ ([] ++ ([] ++ ls)))
unfolding chunks handle_host_output enqueue_output fill flush_output flush
output_arrives_example =
    output_arrives two_uuids desk (λ w. w.packets) logged desk (λ w. w.screen) on_screen [] 1 0
      no_bytes hosting watching ls (omega arith) (omega arith) hosting_IsValid seven refl refl
      (omega arith) (omega arith) (omega arith) nothing_sent watching_IsWatching

-- The frame of one byte.
abbrev packet_of : ℕ → ℕ → List ℕ
packet_of n c =
    (0x57 ∷ 0x52 ∷ 0x44 ∷ 0x54 ∷ 1 ∷ 0 ∷ 2 ∷ 0 ∷ [])
    ++ (sixteen 7 ++ (n ∷ 0 ∷ 0 ∷ 0 ∷ 0 ∷ 0 ∷ 0 ∷ 0 ∷ 1 ∷ 0 ∷ 0 ∷ 0 ∷ c ∷ []))

two_packets :
    Carries two_uuids output "7" 1
      ((108 ∷ []) ∷ (115 ∷ []) ∷ [])
      (packet_of 1 108 ∷ packet_of 2 115 ∷ [])
unfolding decode
two_packets = one_more refl (one_more refl nothing)

-- The second packet comes before the first, and once more.
receive_all-Sublist_example :
    (ys : List (List ℕ)) × ((receive_all two_uuids desk
        (deliver (1 ∷ 0 ∷ 1 ∷ []) (packet_of 1 108 ∷ packet_of 2 115 ∷ []))
        watching).world.screen
      ≡ [] ++ ys)
    × Sublistᴰ ys ((108 ∷ []) ∷ (115 ∷ []) ∷ [])
receive_all-Sublist_example =
    receive_all-Sublist two_uuids desk (λ w. w.screen) on_screen "7" 1 0
      ((108 ∷ []) ∷ (115 ∷ []) ∷ []) (packet_of 1 108 ∷ packet_of 2 115 ∷ []) (1 ∷ 0 ∷ 1 ∷ [])
      watching two_packets watching_IsWatching

-- A world of what was signalled and what was sent.
record Heard : Type 0 where
  pub signals : List Signal
  pub commands : List TerminalMessage

abbrev listener : Surroundings Heard
listener = record {
  host_supported = λ w. true;
  host_start = λ g columns rows w. (w, some "no shell");
  host_write_input = λ g bytes w. (w, true);
  host_resize = λ g columns rows w. (w, true);
  host_request_stop = λ g w. w;
  frontend = none;
  session_generation = λ w. 4;
  is_idle = λ w. true;
  matches_current_endpoint = λ host port w. true;
  connect_as_controller = λ host port w. w;
  send_terminal_data = λ b w. (w, true);
  is_backpressured = λ w. false;
  send_command = λ m g w. (record w { commands = w.commands ++ m ∷ [] }, true);
  clear_commands = λ w. w;
  create_uuid = λ w. (w, "7");
  now_ms = λ w. 500;
  emit = λ signal w. record w { signals = w.signals ++ signal ∷ [] };
}

listener_logs : IsLogging listener (λ w. w.signals) (λ w. w.commands)
listener_logs = record {
  hears = λ signal w. refl;
  leaves = λ signal w. refl;
  takes = λ m g w. refl;
}

-- A terminal whose host has failed to start.
abbrev broken : At Heard
broken = record {
  service = record new_service {
    state = failed;
    machine = failed;
    session_state = connected;
    capabilities = with_terminal;
    channel_open = true;
  };
  world = record { signals = []; commands = [] };
}

shown_once :
    (execute_control_message listener request broken).0.world.signals
    ≡ incoming_request "7" "" "" 30500 ∷ []
unfolding execute_control_message execute_open_request begin_approval send_control emit set_state
    can_transition_to switch_allows
shown_once = refl

request_after_failure_example :
    ((execute_control_message listener request broken).1 ≡ none)
    × IsUnanswered listener
        (λ w. w.signals)
        (λ w. w.commands)
        request
        broken
        (execute_control_message listener request broken).0
request_after_failure_example =
    request_after_failure listener (λ w. w.signals) (λ w. w.commands) listener_logs request broken
      refl refl refl refl refl
