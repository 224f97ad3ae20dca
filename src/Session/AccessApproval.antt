-- ===== src/Session/AccessApproval.antt =====
-- KAccessApprovalController (src/session/accessapprovalcontroller.h and .cpp): the one request for
-- access that waits for an answer. The timer is Qt's: the model keeps the time that it was last
-- started with, and its timeout is an event. A new identifier from QUuid::createUuid is an argument.
pub mod Request
mod Tests
use win_remote_control.Prelude.{
  Outcome, ok, err, passed, ℕ, zero, suc, ◌+◌, ◌-◌, ◌*◌, ◌/◌, ◌%◌, ◌^◌, ◌≤◌, ◌<◌, min, max, ◌≡◌,
  refl, sym, ap, subst, ◌∙◌, ◌≢◌, ◌↔◌, ◌⊎◌, inl, inr, Bool, true, false, not, ◌&&◌, ◌||◌, Option,
  none, some, List, [], ◌∷◌, ◌++◌, map, Memᴰ, append-nil, append_assoc, arith, String, str_eq,
  str_eq_iff, ltb, leb, ◌==◌, if◌then◌else◌, ltb→lt, lt→ltb, leb→le, ==_iff, tests, Bool-cases,
  Option-cases, length, take, drop, length-append, length-drop, take-append_length,
  drop-append_length, List-cases, take_all, length-take, byte_at, write_le, write_be, read_le,
  read_be, byte_at-append, take-append, drop-append, byte_at-skip, drop-skip, take-skip,
}

pub data AccessApprovalSide : Type 0 where
  no_side outgoing incoming : AccessApprovalSide

abbrev pub side_code : AccessApprovalSide → ℕ
side_code no_side = 0
side_code outgoing = 1
side_code incoming = 2

abbrev pub side_eq : AccessApprovalSide → AccessApprovalSide → Bool
side_eq a b = side_code a == side_code b

pub record AccessApprovalRequest : Type 0 where
  pub side : AccessApprovalSide
  pub request_id : String
  pub device_name : String
  pub source_address : String
  pub generation : ℕ  -- quint64

abbrev pub no_request : AccessApprovalRequest
no_request = record {
  side = no_side;
  request_id = "";
  device_name = "";
  source_address = "";
  generation = 0;
}

pub record AccessApprovalController : Type 0 where
  pub timer : Option ℕ
  pub request : AccessApprovalRequest

unfoldable pub start_timeout : ℕ → AccessApprovalController → AccessApprovalController
start_timeout timeout c = record c { timer = some (max 1 timeout) }

unfoldable pub clear : AccessApprovalController → AccessApprovalController × AccessApprovalRequest
clear c = (record { timer = none; request = no_request }, c.request)

unfoldable pub begin_outgoing :
    String → ℕ → ℕ → AccessApprovalController → AccessApprovalController × AccessApprovalRequest
unfolding clear start_timeout
begin_outgoing new_uuid generation timeout c =
    let request : AccessApprovalRequest = record (clear c).0.request {
      side = outgoing;
      request_id = new_uuid;
      generation = generation;
    } in
    (start_timeout timeout (record (clear c).0 { request = request }), request)

unfoldable pub begin_incoming : String → ℕ → ℕ → AccessApprovalController → AccessApprovalController
unfolding clear start_timeout
begin_incoming source_address generation timeout c = start_timeout timeout (record (clear c).0 {
  request = record (clear c).0.request {
    side = incoming;
    source_address = source_address;
    generation = generation;
  };
})

unfoldable pub receive_incoming_request :
    String → String → ℕ → AccessApprovalController → AccessApprovalController × Bool
unfolding start_timeout
receive_incoming_request request_id device_name timeout c =
    if not (side_eq c.request.side incoming)
      || (not (str_eq c.request.request_id "") || str_eq request_id "")
    then (c, false)
    else (
      start_timeout timeout (record c {
        request = record c.request { request_id = request_id; device_name = device_name };
      }),
      true,
    )

unfoldable pub extend_outgoing_timeout :
    String → ℕ → AccessApprovalController → AccessApprovalController × Bool
unfolding start_timeout
extend_outgoing_timeout request_id timeout c =
    if not (side_eq c.request.side outgoing) || not (str_eq request_id c.request.request_id)
    then (c, false)
    else (start_timeout timeout c, true)

unfoldable pub matches : String → ℕ → AccessApprovalController → Bool
matches request_id generation c =
    not (str_eq request_id "")
    && (str_eq request_id c.request.request_id && generation == c.request.generation)

unfoldable pub has_request_id : AccessApprovalController → Bool
has_request_id c = not (str_eq c.request.request_id "")

unfoldable pub stop_timeout : AccessApprovalController → AccessApprovalController
stop_timeout c = record c { timer = none }

pub data RemoteApprovalMode : Type 0 where
  ask_mode auto_accept_mode deny_mode : RemoteApprovalMode

pub data IncomingAccessDecision : Type 0 where
  ask accept deny disabled : IncomingAccessDecision

-- The two settings that the decision reads.
unfoldable pub incoming_decision : Bool → RemoteApprovalMode → IncomingAccessDecision
incoming_decision remote_access_enabled approval_mode =
    if not remote_access_enabled
    then disabled
    else elim approval_mode [ deny_mode ↦ deny | auto_accept_mode ↦ accept | ask_mode ↦ ask ]
