-- ===== src/Terminal/Commands/Tests.antt =====
-- Runs of KTerminalCommandDispatcher (src/terminal/terminalcommanddispatcher.cpp). The world is the
-- list of what was transmitted.
use win_remote_control.Prelude.{ℕ, ◌≡◌, refl, Bool, true, Option, some, List, [], ◌∷◌, ◌++◌, String}
use win_remote_control.Terminal.Commands.{
  Sender, completed, handle_result, new_dispatcher, send, send_command, sends_later, timed_out,
}
use win_remote_control.Terminal.Commands.Incoming.{
  answer_command, handle_incoming, handle_timer, remember_result, result_of, timer_loop,
  timer_round, trim,
}
use win_remote_control.Terminal.Commands.Bounds.{IsValid, new_dispatcher-IsValid}
use win_remote_control.Terminal.Commands.Kept.{call, call-IsValid, receives, sends, timer_fires}
use win_remote_control.Terminal.Service.Types.{
  TerminalMessage, close, command_result, message_of, resize,
}

abbrev size_of : TerminalMessage → ℕ
size_of m = 100

abbrev log : TerminalMessage → List TerminalMessage → List TerminalMessage × Bool
log m sent = (sent ++ m ∷ [], true)

abbrev accepts : Option (
    TerminalMessage → Sender (List TerminalMessage) → Sender (List TerminalMessage) × Bool × String)
accepts = some (λ m a. (a, true, ""))

abbrev resize_message : TerminalMessage
resize_message = message_of resize "r"

abbrev start : Sender (List TerminalMessage)
start = record { dispatcher = new_dispatcher; world = [] }

abbrev one_sent : Sender (List TerminalMessage)
one_sent = call size_of log accepts (sends "1" 0 resize_message 7) start

-- A resize waits for the one before it; the result of that one lets it go out.
abbrev two_sent : Sender (List TerminalMessage)
two_sent = call size_of log accepts (sends "2" 10 resize_message 7) one_sent

abbrev the_result : TerminalMessage
the_result = record (message_of command_result "r") { command_id = "1"; success = true }

deferred_goes :
    (handle_incoming size_of log accepts the_result 7 two_sent).1
    ≡ completed resize "r" "1" true "" 7 ∷ sends_later (message_of resize "r") 7 ∷ []
unfolding handle_incoming handle_result send send_command
deferred_goes = refl

-- Sent twice, it is given up.
gives_up :
    (handle_timer log 2000 (call size_of log accepts (timer_fires 1000) one_sent)).1
    ≡ timed_out resize "r" "1" 7 ∷ []
unfolding handle_timer timer_loop timer_round send send_command
gives_up = refl

-- The same command again is answered from memory.
answered_again :
    let m : TerminalMessage = record (message_of close "r") { command_id = "c" } in
    (call size_of log accepts (receives m 7) (call size_of log accepts (receives m 7) start)).world
    ≡ result_of m true "" ∷ result_of m true "" ∷ []
unfolding handle_incoming handle_result answer_command remember_result trim
answered_again = refl

call-IsValid_example :
    IsValid (call size_of log accepts (sends "2" 10 resize_message 7) one_sent).dispatcher
unfolding send send_command
call-IsValid_example =
    call-IsValid size_of log accepts (λ m a v. v) (sends "2" 10 resize_message 7) one_sent refl
      (call-IsValid size_of log accepts (λ m a v. v) (sends "1" 0 resize_message 7) start refl
        new_dispatcher-IsValid)
