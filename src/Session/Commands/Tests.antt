-- ===== src/Session/Commands/Tests.antt =====
-- Runs of the session command dispatcher (src/session/sessioncommanddispatcher.cpp) over a world that
-- counts the messages sent, whose handlers carry out every command.
use win_remote_control.Prelude.{
  ℕ, suc, ◌+◌, ◌≡◌, refl, true, false, some, List, [], ◌∷◌, arith, String,
}
use win_remote_control.Protocol.Router.{ProtocolHandlerResult, succeeded}
use win_remote_control.Session.Commands.{
  After, SessionCommandTransmitResult, SessionMessage, SessionMessageType, command_result,
  completed, create_command_result, end_session, handle_command_result, new_dispatcher,
  remember_command_result, send, send_message, start_streaming, stop_streaming, transmit, trim,
}
use win_remote_control.Session.Commands.Incoming.{answer_command, handle_incoming, success}
use win_remote_control.Session.Commands.Answered.{
  Event, answers, receives, run, sends, sends_of, step, ticks,
}
use win_remote_control.Session.Commands.Settled.{answered_once}
use win_remote_control.Session.Commands.Repeats.{carried_out_once}

abbrev counted : SessionMessage ℕ → ℕ → ℕ × SessionCommandTransmitResult
counted m w = (suc w, record { accepted = true; error_code = "" })

abbrev carried_out : SessionMessage ℕ → ℕ → ℕ × ProtocolHandlerResult
carried_out m w = (w + 1000, record { status = succeeded; error_code = ""; technical_message = "" })

abbrev message : SessionMessageType → String → SessionMessage ℕ
message type id = record { type = type; request_id = id; success = true; error_code = ""; body = 0 }

-- One command is answered, one times out.
abbrev calls : List (Event ℕ)
calls =
    sends "a" 5 (message start_streaming "") 1
    ∷ sends "b" 6 (message stop_streaming "") 1
    ∷ receives (message command_result "a") 1
    ∷ receives (message command_result "a") 1
    ∷ receives (message end_session "x") 1
    ∷ []

abbrev from_new : List (Event ℕ) → After ℕ ℕ
from_new es = run 0 (some counted) (λ type. some carried_out) es (new_dispatcher ℕ) 0

calls_answer : (from_new calls).signals ≡ completed start_streaming "a" true "" 1 ∷ []
unfolding run step send send_message transmit handle_incoming handle_command_result answer_command
    remember_command_result trim
calls_answer = refl

calls_world : (from_new calls).world ≡ 1003
unfolding run step send send_message transmit handle_incoming handle_command_result answer_command
    remember_command_result trim
calls_world = refl

answered_once_example :
    let a = from_new calls in
    let b =
      run 0
        (some counted)
        (λ type. some carried_out)
        (ticks 1006 ∷ ticks 2006 ∷ [])
        a.dispatcher
        a.world in
    (answers "b" a.signals + answers "b" b.signals ≡ sends_of "b" calls)
    × (b.dispatcher.pending_commands ≡ [])
answered_once_example =
    answered_once 0 (some counted) (λ type. some carried_out) "b" calls 6 1006 2006 0 (omega arith)
      (omega arith, (omega arith, tt)) (omega arith) (omega arith)

-- The session ends, and the command to end it comes again.
abbrev ends : SessionMessage ℕ
ends = message end_session "end"

carried_out_once_example :
    let a = from_new calls in
    let f = some counted in
    let handlers = λ (type : SessionMessageType). some carried_out in
    let b = (handle_incoming 0 f handlers ends 1 a.dispatcher a.world).0 in
    let c =
      run 0 f handlers
        (ticks 1006 ∷ receives (message start_streaming "b") 1 ∷ [])
        b.dispatcher
        b.world in
    let first = answer_command 0 f handlers ends a.dispatcher a.world in
    handle_incoming 0 f handlers ends 1 c.dispatcher c.world ≡ (
      record {
        dispatcher = c.dispatcher;
        world = (transmit f first.result c.world).0;
        signals = [];
      },
      record { handler_result = success; end_session_accepted = false },
    )
unfolding run step send send_message transmit handle_incoming handle_command_result answer_command
    remember_command_result create_command_result trim
carried_out_once_example =
    carried_out_once 0 (some counted) (λ type. some carried_out) calls
      (ticks 1006 ∷ receives (message start_streaming "b") 1 ∷ []) 0 ends ends 1 1 refl refl refl
      refl (omega arith) refl
