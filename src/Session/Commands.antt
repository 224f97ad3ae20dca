-- ===== src/Session/Commands.antt =====
-- KSessionCommandDispatcher (src/session/sessioncommanddispatcher.h and .cpp): commands between the
-- two devices, sent again until an answer comes, and carried out once. The functions that transmit
-- and that carry out a message act on a world `W`; `none` where the source has set none. Of a message
-- the dispatcher reads four fields, and `B` is the rest of it. The clock and a new identifier are
-- arguments, the QTimer is a mark that it runs, and the signals of a call are a list; what is connected
-- to them runs after the call.
pub mod Timer
pub mod Incoming
pub mod Answered
pub mod Settled
pub mod Memory
pub mod Repeats
mod Tests
use win_remote_control.Prelude.{
  Outcome, ok, err, passed, ℕ, zero, suc, ◌+◌, ◌-◌, ◌*◌, ◌/◌, ◌%◌, ◌^◌, ◌≤◌, ◌<◌, min, max, ◌≡◌,
  refl, sym, ap, subst, ◌∙◌, ◌≢◌, ◌↔◌, ◌⊎◌, inl, inr, Bool, true, false, not, ◌&&◌, ◌||◌, Option,
  none, some, List, [], ◌∷◌, ◌++◌, map, Memᴰ, append-nil, append_assoc, arith, String, str_eq,
  str_eq_iff, ltb, leb, ◌==◌, if◌then◌else◌, ltb→lt, lt→ltb, leb→le, ==_iff, tests, Bool-cases,
  Option-cases, length, take, drop, length-append, length-drop, take-append_length,
  drop-append_length, List-cases, take_all, length-take, byte_at, write_le, write_be, read_le,
  read_be, byte_at-append, take-append, drop-append, byte_at-skip, drop-skip, take-skip,
}
use win_remote_control.Prelude.Table.{lookup, insert, erase}
use win_remote_control.Protocol.Router.{
  ProtocolHandlerResult, ProtocolHandlerStatus, succeeded, execution_failed, is_success,
}

pub data SessionMessageType : Type 0 where
  invalid device_info_request device_info start_streaming stop_streaming : SessionMessageType
  end_session stream_config capabilities capability_rejected : SessionMessageType
  set_privacy_mode privacy_mode_state : SessionMessageType
  set_post_session_action post_session_action_state command_result : SessionMessageType

abbrev pub is_command : SessionMessageType → Bool
is_command device_info_request = true
is_command start_streaming = true
is_command stop_streaming = true
is_command end_session = true
is_command stream_config = true
is_command set_privacy_mode = true
is_command set_post_session_action = true
is_command _ = false

abbrev pub is_result : SessionMessageType → Bool
is_result command_result = true
is_result _ = false

abbrev pub is_end : SessionMessageType → Bool
is_end end_session = true
is_end _ = false

pub record SessionMessage (B : Type 0) : Type 0 where
  pub type : SessionMessageType
  pub request_id : String
  pub success : Bool
  pub error_code : String
  pub body : B

pub record SessionCommandTransmitResult : Type 0 where
  pub accepted : Bool
  pub error_code : String

pub record PendingCommand (B : Type 0) : Type 0 where
  pub message : SessionMessage B
  pub sent_ms : ℕ
  pub attempts : ℕ
  pub generation : ℕ  -- quint64

pub record SessionCommandDispatcher (B : Type 0) : Type 0 where
  pub pending_commands : List (String × PendingCommand B)
  pub recent_results : List (String × SessionMessage B)
  pub recent_ids : List String
  pub timer_active : Bool

-- commandCompleted and commandTimedOut, each with the type, the identifier and the generation.
pub data Signal : Type 0 where
  completed : SessionMessageType → String → Bool → String → ℕ → Signal
  timed_out : SessionMessageType → String → ℕ → Signal

abbrev pub command_timeout_ms : ℕ
command_timeout_ms = 1000

abbrev pub maximum_command_attempts : ℕ
maximum_command_attempts = 2

abbrev pub maximum_recent_command_results : ℕ
maximum_recent_command_results = 128

abbrev pub code_or : String → String → String
code_or code default = if str_eq code "" then default else code

abbrev pub new_dispatcher : (B : Type 0) → SessionCommandDispatcher B
new_dispatcher B = record {
  pending_commands = [];
  recent_results = [];
  recent_ids = [];
  timer_active = false;
}

-- A dispatcher and its world after a call, with the signals of the call.
pub record After (B W : Type 0) : Type 0 where
  pub dispatcher : SessionCommandDispatcher B
  pub world : W
  pub signals : List Signal

module _ {B : Type 0} where
  unfoldable pub clear : SessionCommandDispatcher B → SessionCommandDispatcher B
  clear d = new_dispatcher B

  -- A command without an identifier gets a new one.
  abbrev pub with_request_id : String → SessionMessage B → SessionMessage B
  with_request_id new_uuid m =
      if is_command m.type && str_eq m.request_id "" then record m { request_id = new_uuid } else m

  abbrev pub all_failed : String → List (String × PendingCommand B) → List Signal
  all_failed error [] = []
  all_failed error ((id, p) ∷ ps) =
      completed p.message.type p.message.request_id false error p.generation ∷ all_failed error ps

  unfoldable pub fail_all :
      String → SessionCommandDispatcher B → SessionCommandDispatcher B × List Signal
  unfolding clear
  fail_all error d = (clear d, all_failed error d.pending_commands)

  unfoldable pub handle_command_result :
      SessionMessage B → ℕ → SessionCommandDispatcher B → SessionCommandDispatcher B × List Signal
  handle_command_result m generation d = elim (lookup m.request_id d.pending_commands) [
    | none ↦ (d, [])
    | some p ↦
        let left = erase m.request_id d.pending_commands in
        if not (p.generation == generation) then (d, []) else (
          record d {
            pending_commands = left;
            timer_active = elim left [ [] ↦ false | e ∷ es ↦ d.timer_active ];
          },
          completed p.message.type m.request_id m.success m.error_code p.generation ∷ [],
        )
  ]

  -- The while loop of rememberCommandResult.
  unfoldable pub trim :
      List String
      → List (String × SessionMessage B)
      → List String × List (String × SessionMessage B)
  trim [] recent = ([], recent)
  trim (id ∷ ids) recent =
      let rest = trim ids (erase id recent) in
      if ltb maximum_recent_command_results (length (id ∷ ids)) then rest else (id ∷ ids, recent)

  unfoldable pub remember_command_result :
      SessionMessage B → SessionCommandDispatcher B → SessionCommandDispatcher B
  remember_command_result m d = elim (lookup m.request_id d.recent_results) [
    | some r ↦ d
    | none ↦
        let kept =
          trim (d.recent_ids ++ m.request_id ∷ []) (insert m.request_id m d.recent_results) in
        record d { recent_ids = kept.0; recent_results = kept.1 }
  ]

  -- `no_body` stands for the default values of the fields that a result does not set.
  unfoldable pub create_command_result : B → String → ProtocolHandlerResult → SessionMessage B
  create_command_result no_body request_id r = record {
    type = command_result;
    request_id = request_id;
    success = is_success r.status;
    error_code = if is_success r.status then "" else code_or r.error_code "execution_failed";
    body = no_body;
  }

module _ {B W : Type 0}
    (transmit_function : Option (SessionMessage B → W → W × SessionCommandTransmitResult)) where
  unfoldable pub transmit : SessionMessage B → W → W × SessionCommandTransmitResult
  transmit m w = elim transmit_function [
    | none ↦ (w, record { accepted = false; error_code = "send_failed" })
    | some f ↦ f m w
  ]

  -- `send` for a message that has its identifier; the text is what the call returns.
  unfoldable pub send_message :
      ℕ → SessionMessage B → ℕ → SessionCommandDispatcher B → W → After B W × String
  send_message now m generation d w =
      let (w', r) = transmit m w in
      if not r.accepted
      then (
        record {
          dispatcher = d;
          world = w';
          signals =
              if is_command m.type
              then completed m.type m.request_id false (code_or r.error_code "send_failed")
                  generation
                ∷ []
              else [];
        },
        "",
      )
      else if not (is_command m.type)
      then (record { dispatcher = d; world = w'; signals = [] }, m.request_id)
      else (
        record {
          dispatcher = record d {
            pending_commands =
                insert m.request_id
                  (record { message = m; sent_ms = now; attempts = 1; generation = generation })
                  d.pending_commands;
            timer_active = true;
          };
          world = w';
          signals = [];
        },
        m.request_id,
      )

  unfoldable pub send :
      String → ℕ → SessionMessage B → ℕ → SessionCommandDispatcher B → W → After B W × String
  send new_uuid now m generation d w = send_message now (with_request_id new_uuid m) generation d w
