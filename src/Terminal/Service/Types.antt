-- ===== src/Terminal/Service/Types.antt =====
-- What KTerminalSessionService keeps and what it works with (src/terminal/terminalsessionservice.h,
-- core/protocol/terminalmessage.h, core/terminal/terminalhost.h and terminalfrontend.h). A text
-- that a user reads is a constructor. Numbers of columns and rows are not negative.
use win_remote_control.Prelude.{ℕ, Bool, true, false, Option, List, [], String}
use win_remote_control.Terminal.Machine.{TerminalState, closed}
use win_remote_control.Session.Machine.{SessionState, idle}
use win_remote_control.Session.Capability.{NegotiatedCapabilities, no_capabilities}

pub data TerminalMessageType : Type 0 where
  invalid_message open_request approval_pending accepted rejected : TerminalMessageType
  resize close exited error command_result : TerminalMessageType

pub record TerminalMessage : Type 0 where
  pub type : TerminalMessageType
  pub request_id : String
  pub command_id : String
  pub reason : String
  pub error_code : String
  pub columns : ℕ
  pub rows : ℕ
  pub timeout_seconds : ℕ
  pub exit_code : ℕ  -- the bits of an int
  pub success : Bool

-- A message with the default values of the structure.
abbrev pub message_of : TerminalMessageType → String → TerminalMessage
message_of type id = record {
  type = type;
  request_id = id;
  command_id = "";
  reason = "";
  error_code = "";
  columns = 0;
  rows = 0;
  timeout_seconds = 0;
  exit_code = 0;
  success = false;
}

-- m_strStatus: the texts in the order of the source, with what is filled in.
pub data Status : Type 0 where
  no_status not_connected waiting_for_channel waiting_for_peer connecting_device : Status
  frontend_unavailable request_rejected input_congested network_recovering restored : Status
  waiting_for_user peer_waits_for_user building_channel shell_connected peer_rejected : Status
  peer_error peer_running user_timed_out starting_shell start_failed accept_failed : Status
  waiting_for_accept closing_terminal terminal_closed stop_timed_out shell_ended : Status
  command_timed_out host_error accept_not_confirmed relay_write_failed input_overflow : Status
  output_overflow pending_overflow input_queue_overflow : Status
  shell_exited : ℕ → Status
  state_name : TerminalState → Status

abbrev pub is_congested : Status → Bool
is_congested input_congested = true
is_congested _ = false

abbrev pub has_text : Status → Bool
has_text no_status = false
has_text _ = true

-- The codes of KSessionErrorCode that the service reports.
pub data TerminalErrorCode : Type 0 where
  shutdown_timeout terminal_unavailable terminal_approval_rejected terminal_input_overflow :
      TerminalErrorCode
  terminal_output_overflow terminal_host_start_failed terminal_command_timeout : TerminalErrorCode
  terminal_relay_handshake_failed : TerminalErrorCode

-- The signals. An error has its code, whether it can be tried again, and the parts of its technical
-- message; its domain and stage are always the same.
pub data Signal : Type 0 where
  state_changed : TerminalState → Bool → Status → String → String → Signal
  output_ready : List ℕ → Signal
  incoming_request : String → String → String → ℕ → Signal
  incoming_request_cleared : String → String → Signal
  structured_terminal_error : TerminalErrorCode → Bool → List String → Signal

-- KTerminalFrontend, on a world `W`; opening it returns an error, and the calls the generation.
pub record TerminalFrontend (W : Type 0) : Type 0 where
  pub frontend_supported : W → Bool
  pub open_frontend : ℕ → String → W → W × Option String
  pub focus : W → W
  pub write_output : ℕ → List ℕ → W → W × Bool
  pub set_input_paused : Bool → W → W
  pub close_frontend : ℕ → W → W

-- What the service calls: KTerminalHost, KTerminalFrontend or a null pointer, KSessionController,
-- KTerminalCommandDispatcher, QUuid::createUuid, the clock and the receivers of its signals.
pub record Surroundings (W : Type 0) : Type 0 where
  pub host_supported : W → Bool
  pub host_start : ℕ → ℕ → ℕ → W → W × Option String
  pub host_write_input : ℕ → List ℕ → W → W × Bool
  pub host_resize : ℕ → ℕ → ℕ → W → W × Bool
  pub host_request_stop : ℕ → W → W
  pub frontend : Option (TerminalFrontend W)
  pub session_generation : W → ℕ
  pub is_idle : W → Bool
  pub matches_current_endpoint : String → ℕ → W → Bool
  pub connect_as_controller : String → ℕ → W → W  -- setRole("controller"), then connectSignaling
  pub send_terminal_data : List ℕ → W → W × Bool
  pub is_backpressured : W → Bool
  pub send_command : TerminalMessage → ℕ → W → W × Bool
  pub clear_commands : W → W
  pub create_uuid : W → W × String
  pub now_ms : W → ℕ
  pub emit : Signal → W → W

pub record TerminalSessionService : Type 0 where
  pub state : TerminalState
  pub machine : TerminalState  -- m_stateMachine
  pub status : Status
  pub session_state : SessionState
  pub capabilities : NegotiatedCapabilities
  pub output_queue : List (List ℕ)
  pub queued_output_bytes : ℕ
  pub input_queue : List (List ℕ)
  pub queued_input_bytes : ℕ
  pub pending_queue : List (List ℕ)  -- m_pendingControllerOutputQueue
  pub pending_bytes : ℕ
  pub input_bytes : ℕ  -- quint64
  pub output_bytes : ℕ  -- quint64
  pub next_send_sequence : ℕ  -- quint64
  pub last_received_sequence : ℕ  -- quint64
  pub request_id : String
  pub device_name : String
  pub device_source : String
  pub pending_host : String
  pub pending_port : ℕ
  pub columns : ℕ
  pub rows : ℕ
  pub approval_timeout_seconds : ℕ
  pub channel_open : Bool
  pub frontend_connected : Bool
  pub is_controller : Bool
  pub permission_denied : Bool
  pub open_after_connect : Bool
  pub host_stop_pending : Bool
  pub approval_timer_active : Bool
  pub stop_timer_active : Bool

abbrev pub new_service : TerminalSessionService
new_service = record {
  state = closed;
  machine = closed;
  status = no_status;
  session_state = idle;
  capabilities = no_capabilities;
  output_queue = [];
  queued_output_bytes = 0;
  input_queue = [];
  queued_input_bytes = 0;
  pending_queue = [];
  pending_bytes = 0;
  input_bytes = 0;
  output_bytes = 0;
  next_send_sequence = 1;
  last_received_sequence = 0;
  request_id = "";
  device_name = "";
  device_source = "";
  pending_host = "";
  pending_port = 0;
  columns = 100;
  rows = 30;
  approval_timeout_seconds = 30;
  channel_open = false;
  frontend_connected = false;
  is_controller = false;
  permission_denied = false;
  open_after_connect = false;
  host_stop_pending = false;
  approval_timer_active = false;
  stop_timer_active = false;
}

-- The service and the world at a moment.
pub record At (W : Type 0) : Type 0 where
  pub service : TerminalSessionService
  pub world : W
