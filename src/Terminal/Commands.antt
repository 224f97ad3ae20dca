-- ===== src/Terminal/Commands.antt =====
-- KTerminalCommandDispatcher (src/terminal/terminalcommanddispatcher.h and .cpp): the reliable messages of
-- a terminal. The function that transmits acts on a world `W` and does not call back; the handler may,
-- so it acts on the dispatcher too. The clock and a new identifier are arguments. The signals are
-- values, in their order; what the source does by a timer of no time is one of them.
use win_remote_control.Prelude.{
  Outcome, ok, err, passed, ℕ, zero, suc, ◌+◌, ◌-◌, ◌*◌, ◌/◌, ◌%◌, ◌^◌, ◌≤◌, ◌<◌, min, max, ◌≡◌,
  refl, sym, ap, subst, ◌∙◌, ◌≢◌, ◌↔◌, ◌⊎◌, inl, inr, Bool, true, false, not, ◌&&◌, ◌||◌, Option,
  none, some, List, [], ◌∷◌, ◌++◌, map, Memᴰ, append-nil, append_assoc, arith, String, str_eq,
  str_eq_iff, ltb, leb, ◌==◌, if◌then◌else◌, ltb→lt, lt→ltb, leb→le, ==_iff, tests, Bool-cases,
  Option-cases, if-true, if-false, length, take, drop, length-append, length-drop,
  take-append_length, drop-append_length, List-cases, take_all, length-take, byte_at, write_le,
  write_be, read_le, read_be, byte_at-append, take-append, drop-append, byte_at-skip, drop-skip,
  take-skip,
}
use win_remote_control.Prelude.Table.{erase, insert, lookup}
use win_remote_control.Terminal.Service.Types.{
  TerminalMessage, TerminalMessageType, command_result, invalid_message, resize,
}
pub mod Incoming
pub mod Bounds
pub mod Kept
mod Tests

-- KTerminalMessageCodec::isReliableCommand.
abbrev pub is_reliable : TerminalMessageType → Bool
is_reliable invalid_message = false
is_reliable command_result = false
is_reliable _ = true

abbrev pub is_resize : TerminalMessageType → Bool
is_resize resize = true
is_resize _ = false

abbrev pub is_result : TerminalMessageType → Bool
is_result command_result = true
is_result _ = false

abbrev pub command_timeout_ms : ℕ
command_timeout_ms = 1000

abbrev pub maximum_attempts : ℕ
maximum_attempts = 2

abbrev pub maximum_pending_commands : ℕ
maximum_pending_commands = 128

abbrev pub maximum_recent_results : ℕ
maximum_recent_results = 128

abbrev pub maximum_pending_bytes : ℕ
maximum_pending_bytes = 256 * 1024

abbrev pub maximum_recent_result_bytes : ℕ
maximum_recent_result_bytes = 256 * 1024

pub record PendingCommand : Type 0 where
  pub message : TerminalMessage
  pub sent_ms : ℕ
  pub attempts : ℕ
  pub generation : ℕ  -- quint64
  pub encoded_bytes : ℕ

pub record TerminalCommandDispatcher : Type 0 where
  pub pending : List (String × PendingCommand)
  pub pending_bytes : ℕ
  pub recent_results : List (String × TerminalMessage)
  pub recent_result_ids : List String
  pub recent_result_bytes : ℕ
  pub deferred_resize : Option (TerminalMessage × ℕ)  -- with its generation
  pub timer_active : Bool

-- commandCompleted, commandTimedOut, and the call of `send` that sendDeferredResize schedules.
pub data CommandSignal : Type 0 where
  completed : TerminalMessageType → String → String → Bool → String → ℕ → CommandSignal
  timed_out : TerminalMessageType → String → String → ℕ → CommandSignal
  sends_later : TerminalMessage → ℕ → CommandSignal

abbrev pub new_dispatcher : TerminalCommandDispatcher
new_dispatcher = record {
  pending = [];
  pending_bytes = 0;
  recent_results = [];
  recent_result_ids = [];
  recent_result_bytes = 0;
  deferred_resize = none;
  timer_active = false;
}

unfoldable pub clear : TerminalCommandDispatcher → TerminalCommandDispatcher
clear d = new_dispatcher

abbrev pub has_pending_resize : List (String × PendingCommand) → Bool
has_pending_resize [] = false
has_pending_resize ((id, p) ∷ ps) = is_resize p.message.type || has_pending_resize ps

-- The deferred resize goes out, if there is one.
abbrev pub deferred_signals : Option (TerminalMessage × ℕ) → List CommandSignal
deferred_signals none = []
deferred_signals (some (m, g)) = sends_later m g ∷ []

abbrev pub add_deferred : Bool → Option (TerminalMessage × ℕ) → List CommandSignal
add_deferred ends deferred = if ends then deferred_signals deferred else []

abbrev pub left_deferred : Bool → Option (TerminalMessage × ℕ) → Option (TerminalMessage × ℕ)
left_deferred ends deferred = if ends then none else deferred

-- A message of the peer that answers a command.
unfoldable pub handle_result :
    TerminalMessage → ℕ → TerminalCommandDispatcher → TerminalCommandDispatcher × List CommandSignal
handle_result m generation d = elim (lookup m.command_id d.pending) [
  | none ↦ (d, [])
  | some p ↦
      let ends = is_resize p.message.type in
      if not (p.generation == generation) || not (str_eq p.message.request_id m.request_id)
      then (d, [])
      else (
        record d {
          pending = erase m.command_id d.pending;
          pending_bytes = d.pending_bytes - p.encoded_bytes;
          deferred_resize = left_deferred ends d.deferred_resize;
        },
        completed p.message.type m.request_id m.command_id m.success m.error_code generation
            ∷ add_deferred ends d.deferred_resize,
      )
]

abbrev pub with_command_id : String → TerminalMessage → TerminalMessage
with_command_id new_uuid m =
    if str_eq m.command_id "" then record m { command_id = new_uuid } else m

pub record Sender (W : Type 0) : Type 0 where
  pub dispatcher : TerminalCommandDispatcher
  pub world : W

module _ (encoded_size : TerminalMessage → ℕ) {W : Type 0} where
  -- `send` from where the command has its identifier.
  unfoldable pub send_command :
      (TerminalMessage → W → W × Bool) → ℕ → TerminalMessage → ℕ → Sender W → Sender W × Bool
  send_command transmit now m generation a =
      let d = a.dispatcher in
      let n = encoded_size m in
      let (w, sent) = transmit m a.world in
      let p : PendingCommand = record {
        message = m;
        sent_ms = now;
        attempts = 1;
        generation = generation;
        encoded_bytes = n;
      } in
      let added : TerminalCommandDispatcher = record d {
        pending = insert m.command_id p d.pending;
        pending_bytes = d.pending_bytes + n;
        timer_active = true;
      } in
      let taken_back : TerminalCommandDispatcher = record d {
        pending = erase m.command_id d.pending;
      } in
      if n == 0
        || (leb maximum_pending_commands (length d.pending)
            || ltb maximum_pending_bytes (d.pending_bytes + n))
      then (a, false)
      else if not sent
      then (record { dispatcher = taken_back; world = w }, false)
      else (record { dispatcher = added; world = w }, true)

  unfoldable pub send :
      Option (TerminalMessage → W → W × Bool)
      → String
      → ℕ
      → TerminalMessage
      → ℕ
      → Sender W
      → Sender W × Bool
  send none new_uuid now m generation a = (a, false)
  send (some transmit) new_uuid now m generation a =
      let d = a.dispatcher in
      let (w, sent) = transmit m a.world in
      let deferred : TerminalCommandDispatcher = record d {
        deferred_resize = some (record m { command_id = "" }, generation);
      } in
      if not (is_reliable m.type)
      then (record a { world = w }, sent)
      else if is_resize m.type && has_pending_resize d.pending
      then (record a { dispatcher = deferred }, true)
      else send_command transmit now (with_command_id new_uuid m) generation a
