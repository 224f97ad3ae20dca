-- ===== src/Session/Commands/Answered.antt =====
-- Every command gets one answer (src/session/sessioncommanddispatcher.cpp): a completion, which may
-- report a failure, or a timeout.
use win_remote_control.Prelude.{
  ℕ, ◌+◌, ◌≤◌, ◌≡◌, refl, ◌∙◌, inl, inr, Bool, true, false, ◌&&◌, Option, List, [], ◌∷◌, ◌++◌,
  arith, String, str_eq, str_eq_iff, if◌then◌else◌, Bool-cases, Option-cases,
}
use win_remote_control.Prelude.Table.{
  entries, entries-erase, entries-insert, entries-lookup, erase, lookup,
}
use win_remote_control.Protocol.Router.{ProtocolHandlerResult}
use win_remote_control.Session.Commands.{
  After, PendingCommand, SessionCommandDispatcher, SessionCommandTransmitResult, SessionMessage,
  SessionMessageType, Signal, all_failed, clear, completed, fail_all, handle_command_result,
  is_command, remember_command_result, send, send_message, timed_out, with_request_id,
}
use win_remote_control.Session.Commands.Timer.{handle_timer, timer_loop, timer_round}
use win_remote_control.Session.Commands.Incoming.{answer_command, handle_incoming}

-- The calls that a dispatcher gets. The first has the new identifier, the time and the generation.
pub data Event (B : Type 0) : Type 0 where
  sends : String → ℕ → SessionMessage B → ℕ → Event B
  receives : SessionMessage B → ℕ → Event B
  ticks : ℕ → Event B
  fails : String → Event B

abbrev pub answers_to : String → Signal → ℕ
answers_to i (completed type id succeeds error generation) = if str_eq id i then 1 else 0
answers_to i (timed_out type id generation) = if str_eq id i then 1 else 0

-- How many of the signals answer the command `i`.
abbrev pub answers : String → List Signal → ℕ
answers i [] = 0
answers i (s ∷ ss) = answers_to i s + answers i ss

answers-append :
    (i : String) (xs ys : List Signal) → answers i (xs ++ ys) ≡ answers i xs + answers i ys
answers-append i [] ys = omega arith
answers-append i (x ∷ xs) ys = omega (arith, answers-append i xs ys)

abbrev pub one_if : Bool → ℕ
one_if true = 1
one_if false = 0

module _ {B : Type 0} where
  -- How many of the calls send the command `i`.
  abbrev pub sends_of : String → List (Event B) → ℕ
  sends_of i [] = 0
  sends_of i (sends new_uuid now m generation ∷ es) =
      one_if (is_command m.type && str_eq (with_request_id new_uuid m).request_id i) + sends_of i es
  sends_of i (_ ∷ es) = sends_of i es

  -- Each pending command stands under its own identifier.
  abbrev pub IsKeyed : List (String × PendingCommand B) → Type 0
  IsKeyed [] = Unit {0}
  IsKeyed ((id, p) ∷ ps) = (p.message.request_id ≡ id) × IsKeyed ps

  IsKeyed-erase :
      (k : String) (ps : List (String × PendingCommand B)) → IsKeyed ps → IsKeyed (erase k ps)
  IsKeyed-erase k [] v = tt
  IsKeyed-erase k ((id, p) ∷ ps) v = ground (arith, IsKeyed-erase k ps)

  answers-all_failed :
      (i error : String) (ps : List (String × PendingCommand B))
      → IsKeyed ps
      → answers i (all_failed error ps) ≡ entries i ps
  answers-all_failed i error [] v = refl
  answers-all_failed i error ((id, p) ∷ ps) v = ground (arith, answers-all_failed i error ps)

module _ {B W : Type 0} (no_body : B)
    (transmit_function : Option (SessionMessage B → W → W × SessionCommandTransmitResult))
    (handlers : SessionMessageType
      → Option (SessionMessage B → W → W × ProtocolHandlerResult)) where
  unfoldable pub step : Event B → SessionCommandDispatcher B → W → After B W
  unfolding fail_all
  step (sends new_uuid now m generation) d w =
      (send transmit_function new_uuid now m generation d w).0
  step (receives m generation) d w =
      (handle_incoming no_body transmit_function handlers m generation d w).0
  step (ticks now) d w = handle_timer transmit_function now d w
  step (fails error) d w = record {
    dispatcher = (fail_all error d).0;
    world = w;
    signals = (fail_all error d).1;
  }

  -- The calls one after the other, with all their signals.
  unfoldable pub run : List (Event B) → SessionCommandDispatcher B → W → After B W
  run [] d w = record { dispatcher = d; world = w; signals = [] }
  run (e ∷ es) d w =
      let a = step e d w in
      let b = run es a.dispatcher a.world in
      record { dispatcher = b.dispatcher; world = b.world; signals = a.signals ++ b.signals }

  -- A step on the command `i`, of which `n` have been answered or are pending already.
  pub record Counts (i : String) (e : Event B) (d : SessionCommandDispatcher B) (a : After B W)
      : Type 0 where
    pub keyed : IsKeyed a.dispatcher.pending_commands
    pub count :
        answers i a.signals + entries i a.dispatcher.pending_commands
        ≡ sends_of i (e ∷ []) + entries i d.pending_commands

  timer_loop-Counts :
      (i : String) (now : ℕ) (ps : List (String × PendingCommand B)) (w : W)
      → IsKeyed ps
      → IsKeyed (timer_loop transmit_function now ps w).pending
        × (answers i (timer_loop transmit_function now ps w).signals
              + entries i (timer_loop transmit_function now ps w).pending
            ≡ entries i ps)
  unfolding timer_loop timer_round
  timer_loop-Counts i now [] w v = (tt, refl)
  timer_loop-Counts i now ((id, p) ∷ ps) w v =
      ground (arith, timer_loop-Counts i now ps (timer_round transmit_function now id p w).0)

  with_request_id-type :
      (new_uuid : String) (m : SessionMessage B)
      → is_command (with_request_id new_uuid m).type ≡ is_command m.type
  with_request_id-type new_uuid m =
      elim (Bool-cases (is_command m.type && str_eq m.request_id "")) [
        | inl e ↦ rw e refl
        | inr e ↦ rw e refl
      ]

  -- Sending a message with its identifier, of which none is pending if it is the command `i`.
  send_message-count :
      (i : String) (now : ℕ) (m : SessionMessage B) (generation : ℕ)
      (d : SessionCommandDispatcher B) (w : W)
      → IsKeyed d.pending_commands
      → one_if (is_command m.type && str_eq m.request_id i) + entries i d.pending_commands ≤ 1
      → let a = (send_message transmit_function now m generation d w).0 in
        IsKeyed a.dispatcher.pending_commands
        × (answers i a.signals + entries i a.dispatcher.pending_commands
            ≡ one_if (is_command m.type && str_eq m.request_id i) + entries i d.pending_commands)
  unfolding send_message
  send_message-count i now m generation d w v h =
      let inserted =
        entries-insert i m.request_id
          (record { message = m; sent_ms = now; attempts = 1; generation = generation })
          d.pending_commands in
      ground (
        arith,
        IsKeyed-erase m.request_id d.pending_commands v,
        inserted,
        entries-erase i m.request_id d.pending_commands,
      )

  handle_command_result-count :
      (i : String) (m : SessionMessage B) (generation : ℕ) (d : SessionCommandDispatcher B)
      → IsKeyed d.pending_commands
      → entries i d.pending_commands ≤ 1
      → let r = handle_command_result m generation d in
        IsKeyed r.0.pending_commands
        × (answers i r.1 + entries i r.0.pending_commands ≡ entries i d.pending_commands)
  unfolding handle_command_result
  handle_command_result-count i m generation d v h =
      elim (Option-cases (lookup m.request_id d.pending_commands)) [
        | inl n ↦ rw (n, handle_command_result) (v, omega arith)
        | inr (p, n) ↦
            rw (n, handle_command_result)
              (ground (
                arith,
                IsKeyed-erase m.request_id d.pending_commands v,
                entries-erase i m.request_id d.pending_commands,
                entries-lookup m.request_id d.pending_commands p n,
                str_eq_iff m.request_id i,
              ))
      ]

  pub answer_command-pending :
      (m : SessionMessage B) (d : SessionCommandDispatcher B) (w : W)
      → (answer_command no_body transmit_function handlers m d w).dispatcher.pending_commands
        ≡ d.pending_commands
  unfolding answer_command remember_command_result
  answer_command-pending m d w = ground arith

  step-Counts :
      (i : String) (e : Event B) (d : SessionCommandDispatcher B) (w : W)
      → IsKeyed d.pending_commands
      → sends_of i (e ∷ []) + entries i d.pending_commands ≤ 1
      → Counts i e d (step e d w)
  unfolding step send handle_incoming handle_timer fail_all clear
  step-Counts i (sends new_uuid now m generation) d w v h =
      let m' = with_request_id new_uuid m in
      let t = with_request_id-type new_uuid m in
      let c = send_message-count i now m' generation d w v (rw t (omega arith)) in
      record { keyed = c.0; count = rw t at (c.1) ∙ omega arith }
  step-Counts i (receives m generation) d w v h =
      ground (arith, handle_command_result-count i m generation d v, answer_command-pending m d w)
  step-Counts i (ticks now) d w v h = ground (arith, timer_loop-Counts i now d.pending_commands w v)
  step-Counts i (fails error) d w v h =
      ground (arith, answers-all_failed i error d.pending_commands v)

  sends_of-cons :
      (i : String) (e : Event B) (es : List (Event B))
      → sends_of i (e ∷ es) ≡ sends_of i (e ∷ []) + sends_of i es
  sends_of-cons i (sends new_uuid now m generation) es = omega arith
  sends_of-cons i (receives m generation) es = omega arith
  sends_of-cons i (ticks now) es = omega arith
  sends_of-cons i (fails error) es = omega arith

  pub run-count :
      (i : String) (es : List (Event B)) (d : SessionCommandDispatcher B) (w : W)
      → IsKeyed d.pending_commands
      → sends_of i es + entries i d.pending_commands ≤ 1
      → answers i (run es d w).signals + entries i (run es d w).dispatcher.pending_commands
        ≡ sends_of i es + entries i d.pending_commands
  unfolding run
  run-count i [] d w v h = omega arith
  run-count i (e ∷ es) d w v h =
      let a = step e d w in
      let split = sends_of-cons i e es in
      let c = step-Counts i e d w v (omega (arith, split)) in
      let rest = run-count i es a.dispatcher a.world c.keyed (omega (arith, split, c.count)) in
      omega (
        arith,
        split,
        c.count,
        rest,
        answers-append i a.signals (run es a.dispatcher a.world).signals,
      )

  -- Without a bound on the sends.
  step-IsKeyed :
      (e : Event B) (d : SessionCommandDispatcher B) (w : W)
      → IsKeyed d.pending_commands
      → IsKeyed (step e d w).dispatcher.pending_commands
  unfolding step send send_message handle_incoming handle_command_result handle_timer fail_all clear
  step-IsKeyed (sends new_uuid now m generation) d w v =
      ground (arith, IsKeyed-erase (with_request_id new_uuid m).request_id d.pending_commands v)
  step-IsKeyed (receives m generation) d w v =
      ground (arith, IsKeyed-erase m.request_id d.pending_commands v, answer_command-pending m d w)
  step-IsKeyed (ticks now) d w v = (timer_loop-Counts "" now d.pending_commands w v).0
  step-IsKeyed (fails error) d w v = tt

  pub run-IsKeyed :
      (es : List (Event B)) (d : SessionCommandDispatcher B) (w : W)
      → IsKeyed d.pending_commands
      → IsKeyed (run es d w).dispatcher.pending_commands
  unfolding run
  run-IsKeyed [] d w v = v
  run-IsKeyed (e ∷ es) d w v =
      run-IsKeyed es (step e d w).dispatcher (step e d w).world (step-IsKeyed e d w v)
