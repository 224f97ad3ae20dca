-- ===== src/Session/Commands/Settled.antt =====
-- No command stays pending (src/session/sessioncommanddispatcher.cpp): one timer round sends it again
-- or ends it, and the next ends it.
use win_remote_control.Prelude.{ℕ, ◌+◌, ◌≤◌, ◌≡◌, refl, ap, Option, List, [], ◌∷◌, arith, String}
use win_remote_control.Prelude.Table.{entries, erase}
use win_remote_control.Protocol.Router.{ProtocolHandlerResult}
use win_remote_control.Session.Commands.{
  PendingCommand, SessionCommandDispatcher, SessionCommandTransmitResult, SessionMessage,
  SessionMessageType, clear, command_timeout_ms, fail_all, handle_command_result,
  maximum_command_attempts, new_dispatcher, send, send_message, with_request_id,
}
use win_remote_control.Session.Commands.Timer.{handle_timer, timer_loop, timer_round}
use win_remote_control.Session.Commands.Incoming.{handle_incoming}
use win_remote_control.Session.Commands.Answered.{
  Event, answer_command-pending, answers, fails, receives, run, run-IsKeyed, run-count, sends,
  sends_of, step, ticks,
}

module _ {B : Type 0} where
  -- Sent by the time `t`, once at least.
  abbrev pub AllSent : ℕ → List (String × PendingCommand B) → Type 0
  AllSent t [] = Unit {0}
  AllSent t ((id, p) ∷ ps) = (p.sent_ms ≤ t) × (1 ≤ p.attempts) × AllSent t ps

  -- Sent by the time `t`, as often as it is tried.
  abbrev AllTried : ℕ → List (String × PendingCommand B) → Type 0
  AllTried t [] = Unit {0}
  AllTried t ((id, p) ∷ ps) =
      (p.sent_ms ≤ t) × (maximum_command_attempts ≤ p.attempts) × AllTried t ps

  -- The calls come at times up to `t`.
  abbrev pub HappenBy : ℕ → List (Event B) → Type 0
  HappenBy t [] = Unit {0}
  HappenBy t (sends new_uuid now m generation ∷ es) = (now ≤ t) × HappenBy t es
  HappenBy t (ticks now ∷ es) = (now ≤ t) × HappenBy t es
  HappenBy t (_ ∷ es) = HappenBy t es

  HappenBy-cons :
      (t : ℕ) (e : Event B) (es : List (Event B))
      → HappenBy t (e ∷ es)
      → HappenBy t (e ∷ []) × HappenBy t es
  HappenBy-cons t (sends new_uuid now m generation) es h = ((h.0, tt), h.1)
  HappenBy-cons t (receives m generation) es h = (tt, h)
  HappenBy-cons t (ticks now) es h = ((h.0, tt), h.1)
  HappenBy-cons t (fails error) es h = (tt, h)

  AllSent-erase :
      (t : ℕ) (k : String) (ps : List (String × PendingCommand B))
      → AllSent t ps
      → AllSent t (erase k ps)
  AllSent-erase t k [] v = tt
  AllSent-erase t k ((id, p) ∷ ps) v = ground (arith, AllSent-erase t k ps)

module _ {B W : Type 0}
    (transmit_function : Option (SessionMessage B → W → W × SessionCommandTransmitResult)) where
  timer_loop-AllSent :
      (t now : ℕ) (ps : List (String × PendingCommand B)) (w : W)
      → now ≤ t
      → AllSent t ps
      → AllSent t (timer_loop transmit_function now ps w).pending
  unfolding timer_loop timer_round
  timer_loop-AllSent t now [] w h v = tt
  timer_loop-AllSent t now ((id, p) ∷ ps) w h v =
      ground (arith, timer_loop-AllSent t now ps (timer_round transmit_function now id p w).0)

  timer_loop-AllTried :
      (t now : ℕ) (ps : List (String × PendingCommand B)) (w : W)
      → t + command_timeout_ms ≤ now
      → AllSent t ps
      → AllTried now (timer_loop transmit_function now ps w).pending
  unfolding timer_loop timer_round
  timer_loop-AllTried t now [] w h v = tt
  timer_loop-AllTried t now ((id, p) ∷ ps) w h v =
      ground (arith, timer_loop-AllTried t now ps (timer_round transmit_function now id p w).0)

  timer_loop_ends :
      (t now : ℕ) (ps : List (String × PendingCommand B)) (w : W)
      → t + command_timeout_ms ≤ now
      → AllTried t ps
      → (timer_loop transmit_function now ps w).pending ≡ []
  unfolding timer_loop timer_round
  timer_loop_ends t now [] w h v = refl
  timer_loop_ends t now ((id, p) ∷ ps) w h v =
      ground (arith, timer_loop_ends t now ps (timer_round transmit_function now id p w).0)

module _ {B W : Type 0} (no_body : B)
    (transmit_function : Option (SessionMessage B → W → W × SessionCommandTransmitResult))
    (handlers : SessionMessageType
      → Option (SessionMessage B → W → W × ProtocolHandlerResult)) where
  handle_command_result-AllSent :
      (t : ℕ) (m : SessionMessage B) (generation : ℕ) (d : SessionCommandDispatcher B)
      → AllSent t d.pending_commands
      → AllSent t (handle_command_result m generation d).0.pending_commands
  unfolding handle_command_result
  handle_command_result-AllSent t m generation d v =
      ground (arith, AllSent-erase t m.request_id d.pending_commands v)

  step-AllSent :
      (t : ℕ) (e : Event B) (d : SessionCommandDispatcher B) (w : W)
      → HappenBy t (e ∷ [])
      → AllSent t d.pending_commands
      → AllSent t (step no_body transmit_function handlers e d w).dispatcher.pending_commands
  unfolding step send send_message handle_incoming handle_timer fail_all clear
  step-AllSent t (sends new_uuid now m generation) d w h v =
      ground (arith, AllSent-erase t (with_request_id new_uuid m).request_id d.pending_commands v)
  step-AllSent t (receives m generation) d w h v = ground (
    arith,
    handle_command_result-AllSent t m generation d v,
    answer_command-pending no_body transmit_function handlers m d w,
  )
  step-AllSent t (ticks now) d w h v =
      timer_loop-AllSent transmit_function t now d.pending_commands w h.0 v
  step-AllSent t (fails error) d w h v = tt

  run-AllSent :
      (t : ℕ) (es : List (Event B)) (d : SessionCommandDispatcher B) (w : W)
      → HappenBy t es
      → AllSent t d.pending_commands
      → AllSent t (run no_body transmit_function handlers es d w).dispatcher.pending_commands
  unfolding run
  run-AllSent t [] d w h v = v
  run-AllSent t (e ∷ es) d w h v =
      let p = HappenBy-cons t e es h in
      let a = step no_body transmit_function handlers e d w in
      run-AllSent t es a.dispatcher a.world p.1 (step-AllSent t e d w p.0 v)

  -- The two rounds at the end.
  rounds_end :
      (t t1 t2 : ℕ) (d : SessionCommandDispatcher B) (w : W)
      → t + command_timeout_ms ≤ t1
      → t1 + command_timeout_ms ≤ t2
      → AllSent t d.pending_commands
      → (run no_body transmit_function handlers
          (ticks t1 ∷ ticks t2 ∷ [])
          d
          w).dispatcher.pending_commands
        ≡ []
  unfolding run step handle_timer
  rounds_end t t1 t2 d w h k v =
      let l = timer_loop transmit_function t1 d.pending_commands w in
      timer_loop_ends transmit_function t1 t2 l.pending l.world k
        (timer_loop-AllTried transmit_function t t1 d.pending_commands w h v)

  -- A new dispatcher gets any calls but `clear` up to the time `t`, of which at most one sends the
  -- command `i`, and then two rounds of its timer, each at least the timeout after what went before.
  -- Then the command, if it was sent, has been answered exactly once, by a completion or a timeout, if
  -- it was not sent it has not been answered, and no command is pending.
  pub answered_once :
      (i : String) (es : List (Event B)) (t t1 t2 : ℕ) (w : W)
      → sends_of i es ≤ 1
      → HappenBy t es
      → t + command_timeout_ms ≤ t1
      → t1 + command_timeout_ms ≤ t2
      → let a = run no_body transmit_function handlers es (new_dispatcher B) w in
        let b =
          run no_body transmit_function handlers (ticks t1 ∷ ticks t2 ∷ []) a.dispatcher a.world in
        (answers i a.signals + answers i b.signals ≡ sends_of i es)
        × (b.dispatcher.pending_commands ≡ [])
  answered_once i es t t1 t2 w once h h1 h2 =
      let a = run no_body transmit_function handlers es (new_dispatcher B) w in
      let sent = run-AllSent t es (new_dispatcher B) w h tt in
      let first =
        run-count no_body transmit_function handlers i es (new_dispatcher B) w tt
          (omega (arith, once)) in
      let rounds : List (Event B) = ticks t1 ∷ ticks t2 ∷ [] in
      let left = run-IsKeyed no_body transmit_function handlers es (new_dispatcher B) w tt in
      let second =
        run-count no_body transmit_function handlers i rounds a.dispatcher a.world left
          (omega (arith, first)) in
      let gone = rounds_end t t1 t2 a.dispatcher a.world h1 h2 sent in
      (omega (arith, first, second, ap (entries i) gone), gone)
