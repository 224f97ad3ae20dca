-- ===== src/Terminal/Commands/Incoming.antt =====
-- KTerminalCommandDispatcher::handleIncoming and handleTimer
-- (src/terminal/terminalcommanddispatcher.cpp). Both are called when the function that transmits is set.
use win_remote_control.Prelude.{
  ℕ, ◌+◌, ◌-◌, Bool, false, not, ◌||◌, Option, none, some, List, [], ◌∷◌, ◌++◌, String, str_eq, ltb,
  ◌==◌, if◌then◌else◌, length,
}
use win_remote_control.Prelude.Table.{erase, insert, lookup}
use win_remote_control.Terminal.Commands.{
  CommandSignal, PendingCommand, Sender, TerminalCommandDispatcher, add_deferred,
  command_timeout_ms, handle_result, is_reliable, is_resize, is_result, left_deferred,
  maximum_attempts, maximum_recent_result_bytes, maximum_recent_results, timed_out,
}
use win_remote_control.Terminal.Service.Types.{TerminalMessage, command_result, message_of}

abbrev pub failure_code : Bool → String → String
failure_code succeeds code =
    if succeeds then "" else if str_eq code "" then "invalid_state" else code

abbrev pub result_of : TerminalMessage → Bool → String → TerminalMessage
result_of m succeeds code = record (message_of command_result m.request_id) {
  command_id = m.command_id;
  success = succeeds;
  error_code = failure_code succeeds code;
}

module _ (encoded_size : TerminalMessage → ℕ) where
  -- The while loop of rememberResult.
  unfoldable pub trim :
      List String
      → List (String × TerminalMessage)
      → ℕ
      → List String × List (String × TerminalMessage) × ℕ
  trim [] recent bytes = ([], recent, bytes)
  trim (id ∷ ids) recent bytes =
      let freed : ℕ = elim (lookup id recent) [ none ↦ 0 | some r ↦ encoded_size r ] in
      let rest : List String × List (String × TerminalMessage) × ℕ =
        trim ids (erase id recent) (bytes - freed) in
      if ltb maximum_recent_results (length (id ∷ ids)) || ltb maximum_recent_result_bytes bytes
      then rest
      else (id ∷ ids, recent, bytes)

  unfoldable pub remember_result :
      TerminalMessage → TerminalCommandDispatcher → TerminalCommandDispatcher
  remember_result r d =
      let n = encoded_size r in
      let (ids, recent, bytes) =
        trim (d.recent_result_ids ++ r.command_id ∷ []) (insert r.command_id r d.recent_results)
          (d.recent_result_bytes + n) in
      if n == 0 || ltb maximum_recent_result_bytes n then d else record d {
        recent_result_ids = ids;
        recent_results = recent;
        recent_result_bytes = bytes;
      }

  module _ {W : Type 0} (transmit : TerminalMessage → W → W × Bool)
      (handler : Option (TerminalMessage → Sender W → Sender W × Bool × String)) where
    abbrev pub run_handler : TerminalMessage → Sender W → Sender W × Bool × String
    run_handler m a = elim handler [ none ↦ (a, false, "") | some h ↦ h m a ]

    unfoldable pub answer_command : TerminalMessage → Sender W → Sender W
    answer_command m a = elim (lookup m.command_id a.dispatcher.recent_results) [
      | some cached ↦ record a { world = (transmit cached a.world).0 }
      | none ↦
          let (b, succeeds, code) = run_handler m a in
          let r = result_of m succeeds code in
          record { dispatcher = remember_result r b.dispatcher; world = (transmit r b.world).0 }
    ]

    unfoldable pub handle_incoming : TerminalMessage → ℕ → Sender W → Sender W × List CommandSignal
    handle_incoming m generation a =
        let (d, signals) = handle_result m generation a.dispatcher in
        if is_result m.type
        then (record a { dispatcher = d }, signals)
        else if not (is_reliable m.type)
        then ((run_handler m a).0, [])
        else (answer_command m a, [])

-- What a round of the timer does with a command: keep it, perhaps as sent again, or give it up.
pub data Round : Type 0 where
  stays : PendingCommand → Round
  ends : Round

-- The table and its bytes, the deferred resize, the world and the signals after the rounds.
pub record Loop (W : Type 0) : Type 0 where
  pub pending : List (String × PendingCommand)
  pub pending_bytes : ℕ
  pub deferred : Option (TerminalMessage × ℕ)
  pub world : W
  pub signals : List CommandSignal

module _ {W : Type 0} (transmit : TerminalMessage → W → W × Bool) where
  unfoldable pub timer_round : ℕ → PendingCommand → W → W × Round
  timer_round now p w =
      let (v, sent) = transmit p.message w in
      if ltb (now - p.sent_ms) command_timeout_ms
      then (w, stays p)
      else if ltb p.attempts maximum_attempts
      then if sent
        then (v, stays (record p { attempts = p.attempts + 1; sent_ms = now }))
        else (v, ends)
      else (w, ends)

  abbrev pub bytes_after : Round → PendingCommand → ℕ → ℕ
  bytes_after (stays q) p bytes = bytes
  bytes_after ends p bytes = bytes - p.encoded_bytes

  abbrev pub ends_resize : Round → PendingCommand → Bool
  ends_resize (stays q) p = false
  ends_resize ends p = is_resize p.message.type

  abbrev pub after_round :
      String → Round → PendingCommand → Option (TerminalMessage × ℕ) → Loop W → Loop W
  after_round id (stays q) p deferred l = record l { pending = (id, q) ∷ l.pending }
  after_round id ends p deferred l = record l {
    signals =
        timed_out p.message.type p.message.request_id p.message.command_id p.generation
          ∷ add_deferred (is_resize p.message.type) deferred
        ++ l.signals;
  }

  unfoldable pub timer_loop :
      ℕ → List (String × PendingCommand) → ℕ → Option (TerminalMessage × ℕ) → W → Loop W
  timer_loop now [] bytes deferred w = record {
    pending = [];
    pending_bytes = bytes;
    deferred = deferred;
    world = w;
    signals = [];
  }
  timer_loop now ((id, p) ∷ ps) bytes deferred w =
      let (v, r) = timer_round now p w in
      after_round id r p deferred
        (timer_loop now ps (bytes_after r p bytes) (left_deferred (ends_resize r p) deferred) v)

  unfoldable pub handle_timer : ℕ → Sender W → Sender W × List CommandSignal
  handle_timer now a =
      let d = a.dispatcher in
      let l = timer_loop now d.pending d.pending_bytes d.deferred_resize a.world in
      let e : TerminalCommandDispatcher = record d {
        pending = l.pending;
        pending_bytes = l.pending_bytes;
        deferred_resize = l.deferred;
        timer_active = elim l.pending [ [] ↦ false | x ∷ xs ↦ d.timer_active ];
      } in
      (record { dispatcher = e; world = l.world }, l.signals)
