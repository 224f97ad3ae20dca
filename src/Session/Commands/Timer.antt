-- ===== src/Session/Commands/Timer.antt =====
-- KSessionCommandDispatcher::handleTimer (src/session/sessioncommanddispatcher.cpp). Nothing changes
-- the table but the loop itself, so a round finds each key of the list that it starts with.
use win_remote_control.Prelude.{
  ℕ, ◌+◌, ◌-◌, false, Option, List, [], ◌∷◌, String, ltb, if◌then◌else◌,
}
use win_remote_control.Session.Commands.{
  SessionMessage, SessionCommandTransmitResult, PendingCommand, SessionCommandDispatcher, Signal,
  completed, timed_out, command_timeout_ms, maximum_command_attempts, code_or, After, transmit,
}

-- What a round does with an entry: keep it, perhaps as sent again, or end it by a signal.
pub data Round (B : Type 0) : Type 0 where
  stays : PendingCommand B → Round B
  ends : Signal → Round B

module _ {B W : Type 0}
    (transmit_function : Option (SessionMessage B → W → W × SessionCommandTransmitResult)) where
  unfoldable pub timer_round : ℕ → String → PendingCommand B → W → W × Round B
  timer_round now id p w =
      let (w', r) = transmit transmit_function p.message w in
      if ltb (now - p.sent_ms) command_timeout_ms
      then (w, stays p)
      else if ltb p.attempts maximum_command_attempts
      then if r.accepted
        then (w', stays (record p { attempts = p.attempts + 1; sent_ms = now }))
        else (
          w',
          ends
              (completed p.message.type id false (code_or r.error_code "send_failed") p.generation),
        )
      else (w, ends (timed_out p.message.type id p.generation))

  -- The table, the world and the signals after the loop.
  pub record Loop : Type 0 where
    pub pending : List (String × PendingCommand B)
    pub world : W
    pub signals : List Signal

  abbrev pub after_round : String → Round B → Loop → Loop
  after_round id (stays p) l = record l { pending = (id, p) ∷ l.pending }
  after_round id (ends s) l = record l { signals = s ∷ l.signals }

  unfoldable pub timer_loop : ℕ → List (String × PendingCommand B) → W → Loop
  timer_loop now [] w = record { pending = []; world = w; signals = [] }
  timer_loop now ((id, p) ∷ ps) w =
      after_round id (timer_round now id p w).1 (timer_loop now ps (timer_round now id p w).0)

  unfoldable pub handle_timer : ℕ → SessionCommandDispatcher B → W → After B W
  handle_timer now d w =
      let l = timer_loop now d.pending_commands w in
      record {
        dispatcher = record d {
          pending_commands = l.pending;
          timer_active = elim l.pending [ [] ↦ false | e ∷ es ↦ d.timer_active ];
        };
        world = l.world;
        signals = l.signals;
      }
