-- ===== src/Protocol/Router/Tests.antt =====
-- A router (protocolrouter.cpp) with a counter for its state, a guarded handler, and a second
-- registration for the same messages, which is refused.
use win_remote_control.Prelude.{
  Outcome, ok, ℕ, ◌+◌, ◌≡◌, refl, Bool, true, false, none, some, List, [], ◌∷◌, String, ltb,
}
use win_remote_control.Protocol.Router.{
  ProtocolChannel, ProtocolEnvelope, ProtocolHandlerResult, ProtocolRouteContext, Registration,
  route, session, succeeded,
}
use win_remote_control.Protocol.Router.Guarded.{has_run, register_all, route-register_all}

abbrev Counter : Type 0
Counter = ℕ

abbrev message_envelope : ProtocolEnvelope ℕ
message_envelope = record {
  version = 1;
  channel = session;
  type = "startStreaming";
  request_id = "";
  sequence = 1;
  payload = 5;
  raw_message = "";
  encoded_bytes = 0;
}

abbrev reads_always : ProtocolChannel → String → Outcome String (ProtocolEnvelope ℕ)
reads_always channel message = ok message_envelope

abbrev adds :
    ℕ → ProtocolEnvelope ℕ → ProtocolRouteContext → Counter → Counter × ProtocolHandlerResult
adds n envelope context s =
    (s + n, record { status = succeeded; error_code = ""; technical_message = "" })

abbrev below_ten : ProtocolEnvelope ℕ → ProtocolRouteContext → Counter → Bool
below_ten envelope context s = ltb s 10

abbrev registrations : List (Registration Counter ℕ)
registrations =
    record {
      channel = session;
      type = "startStreaming";
      guard = some below_ten;
      handler = some (adds 1);
    }
    ∷ (record {
      channel = session;
      type = "startStreaming";
      guard = none;
      handler = some (adds 100);
    }
        ∷ [])

abbrev at_rest : ProtocolRouteContext
at_rest = record { role = 0; state = 0; generation = 1; realtime_input = false }

route-register_all_example :
    (has_run (route reads_always session "m" at_rest (register_all registrations []) 7).1.status
      ≡ true)
    × ((route reads_always session "m" at_rest (register_all registrations []) 7).0 ≡ 8)
route-register_all_example =
    route-register_all reads_always registrations session "m" at_rest 7 message_envelope refl
