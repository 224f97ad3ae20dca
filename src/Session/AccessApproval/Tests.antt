-- ===== src/Session/AccessApproval/Tests.antt =====
-- A call with an empty request, a first and a second one (accessapprovalcontroller.cpp).
use win_remote_control.Prelude.{◌≡◌, false, none, List, [], ◌∷◌}
use win_remote_control.Session.AccessApproval.{
  AccessApprovalController, begin_incoming, incoming, matches, no_request,
}
use win_remote_control.Session.AccessApproval.Request.{
  Event, matches-run, request_received, run, timeout_stopped,
}

abbrev requests : List Event
requests =
    request_received "" "nobody" 30
    ∷ (request_received "a" "desk" 30 ∷ (timeout_stopped ∷ (request_received "b" "other" 30 ∷ [])))

abbrev resting : AccessApprovalController
resting = record { timer = none; request = no_request }

matches-run_example :
    ((run requests (begin_incoming "10.0.0.2" 4 0 resting)).request ≡ record {
      side = incoming;
      request_id = "a";
      device_name = "desk";
      source_address = "10.0.0.2";
      generation = 4;
    })
    × (matches "b" 4 (run requests (begin_incoming "10.0.0.2" 4 0 resting)) ≡ false)
matches-run_example = matches-run requests "10.0.0.2" 4 0 resting "b" 4
