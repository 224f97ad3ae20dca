-- ===== src/Session/Commands/Incoming.antt =====
-- KSessionCommandDispatcher::handleIncoming (src/session/sessioncommanddispatcher.cpp).
use win_remote_control.Prelude.{ℕ, Bool, false, ◌&&◌, Option, none, some, [], if◌then◌else◌}
use win_remote_control.Prelude.Table.{lookup}
use win_remote_control.Protocol.Router.{
  ProtocolHandlerResult, succeeded, execution_failed, is_success,
}
use win_remote_control.Session.Commands.{
  SessionMessage, SessionMessageType, SessionCommandTransmitResult, SessionCommandDispatcher, After,
  transmit, is_command, is_result, is_end, handle_command_result, remember_command_result,
  create_command_result,
}

pub record SessionIncomingDispatchResult : Type 0 where
  pub handler_result : ProtocolHandlerResult
  pub end_session_accepted : Bool

-- KProtocolHandlerResult::success().
abbrev pub success : ProtocolHandlerResult
success = record { status = succeeded; error_code = ""; technical_message = "" }

-- KProtocolHandlerResult::failure(ProtocolHandlerExecutionFailed, "No session message handler").
abbrev pub no_handler : ProtocolHandlerResult
no_handler = record {
  status = execution_failed;
  error_code = "execution_failed";
  technical_message = "No session message handler";
}

module _ {B W : Type 0} (no_body : B)
    (transmit_function : Option (SessionMessage B → W → W × SessionCommandTransmitResult))
    (handlers : SessionMessageType
      → Option (SessionMessage B → W → W × ProtocolHandlerResult)) where
  abbrev pub run_handler : SessionMessage B → W → W × ProtocolHandlerResult
  run_handler m w = elim (handlers m.type) [ none ↦ (w, no_handler) | some h ↦ h m w ]

  -- What a command comes to before it is answered: its answer, and what the handler has returned.
  pub record Answer : Type 0 where
    pub dispatcher : SessionCommandDispatcher B
    pub world : W
    pub result : SessionMessage B
    pub dispatched : SessionIncomingDispatchResult

  unfoldable pub answer_command : SessionMessage B → SessionCommandDispatcher B → W → Answer
  answer_command m d w = elim (lookup m.request_id d.recent_results) [
    | some cached ↦ record {
      dispatcher = d;
      world = w;
      result = cached;
      dispatched = record { handler_result = success; end_session_accepted = false };
    }
    | none ↦
        let (w', r) = run_handler m w in
        let result = create_command_result no_body m.request_id r in
        record {
          dispatcher = remember_command_result result d;
          world = w';
          result = result;
          dispatched = record {
            handler_result = r;
            end_session_accepted = is_end m.type && is_success r.status;
          };
        }
  ]

  unfoldable pub handle_incoming :
      SessionMessage B
      → ℕ
      → SessionCommandDispatcher B
      → W
      → After B W × SessionIncomingDispatchResult
  handle_incoming m generation d w =
      let (d', signals) = handle_command_result m generation d in
      let a = answer_command m d w in
      let (w', r) = run_handler m w in
      if is_result m.type
      then (
        record { dispatcher = d'; world = w; signals = signals },
        record { handler_result = success; end_session_accepted = false },
      )
      else if is_command m.type
      then (
        record {
          dispatcher = a.dispatcher;
          world = (transmit transmit_function a.result a.world).0;
          signals = [];
        },
        a.dispatched,
      )
      else (
        record { dispatcher = d; world = w'; signals = [] },
        record { handler_result = r; end_session_accepted = false },
      )
