-- ===== src/Protocol/Router.antt =====
-- KProtocolRouter (src/core/protocol/protocolrouter.h and .cpp): from a message to the handler of its
-- channel and type. A handler and its guard are closures: what they read and change is the state `S`.
-- `J` is the type of JSON objects, and `decode` stands for KProtocolEnvelopeCodec::decode, which reads
-- the JSON. The hash table is an association list under the pair that the text of a key is made of.
pub mod Guarded
mod Tests
use win_remote_control.Prelude.{
  Outcome, ok, err, passed, ℕ, zero, suc, ◌+◌, ◌-◌, ◌*◌, ◌/◌, ◌%◌, ◌^◌, ◌≤◌, ◌<◌, min, max, ◌≡◌,
  refl, sym, ap, subst, ◌∙◌, ◌≢◌, ◌↔◌, ◌⊎◌, inl, inr, Bool, true, false, not, ◌&&◌, ◌||◌, Option,
  none, some, List, [], ◌∷◌, ◌++◌, map, Memᴰ, append-nil, append_assoc, arith, String, str_eq,
  str_eq_iff, ltb, leb, ◌==◌, if◌then◌else◌, ltb→lt, lt→ltb, leb→le, ==_iff, tests, Bool-cases,
  Option-cases, length, take, drop, length-append, length-drop, take-append_length,
  drop-append_length, List-cases, take_all, length-take, byte_at, write_le, write_be, read_le,
  read_be, byte_at-append, take-append, drop-append, byte_at-skip, drop-skip, take-skip,
}

pub data ProtocolChannel : Type 0 where
  invalid signaling input session clipboard file_control : ProtocolChannel

abbrev pub channel_code : ProtocolChannel → ℕ
channel_code invalid = 0
channel_code signaling = 1
channel_code input = 2
channel_code session = 3
channel_code clipboard = 4
channel_code file_control = 5

pub record ProtocolEnvelope (J : Type 0) : Type 0 where
  pub version : ℕ
  pub channel : ProtocolChannel
  pub type : String
  pub request_id : String
  pub sequence : ℕ
  pub payload : J
  pub raw_message : String
  pub encoded_bytes : ℕ

pub record ProtocolRouteContext : Type 0 where
  pub role : ℕ
  pub state : ℕ
  pub generation : ℕ
  pub realtime_input : Bool

pub data ProtocolRouteStatus : Type 0 where
  handled malformed unsupported_version unknown_type : ProtocolRouteStatus
  forbidden handler_failed : ProtocolRouteStatus

pub data ProtocolHandlerStatus : Type 0 where
  succeeded decode_failed invalid_state permission_denied : ProtocolHandlerStatus
  execution_failed : ProtocolHandlerStatus

pub record ProtocolHandlerResult : Type 0 where
  pub status : ProtocolHandlerStatus
  pub error_code : String
  pub technical_message : String

-- The default values of the structure.
abbrev pub no_handler_result : ProtocolHandlerResult
no_handler_result = record { status = execution_failed; error_code = ""; technical_message = "" }

abbrev pub is_success : ProtocolHandlerStatus → Bool
is_success succeeded = true
is_success _ = false

abbrev pub envelope_schema_version : ℕ
envelope_schema_version = 1

module _ (S J : Type 0) where
  abbrev pub Guard : Type 0
  Guard = ProtocolEnvelope J → ProtocolRouteContext → S → Bool

  abbrev pub Handler : Type 0
  Handler = ProtocolEnvelope J → ProtocolRouteContext → S → S × ProtocolHandlerResult

  pub record RouteEntry : Type 0 where
    pub guard : Option Guard
    pub handler : Handler

  -- A call of registerHandler.
  pub record Registration : Type 0 where
    pub channel : ProtocolChannel
    pub type : String
    pub guard : Option Guard
    pub handler : Option Handler

  abbrev pub Routes : Type 0
  Routes = List (ProtocolChannel × (String × RouteEntry))

  pub record ProtocolRouteResult : Type 0 where
    pub status : ProtocolRouteStatus
    pub envelope : Option (ProtocolEnvelope J)
    pub handler_result : ProtocolHandlerResult
    pub error : String

module _ {S J : Type 0} where
  unfoldable pub find : ProtocolChannel → String → Routes S J → Option (RouteEntry S J)
  find channel type [] = none
  find channel type ((c, (t, entry)) ∷ routes) =
      if channel_code c == channel_code channel && str_eq t type
      then some entry
      else find channel type routes

  unfoldable pub register_handler : Registration S J → Routes S J → Routes S J × Bool
  register_handler r routes = elim r.handler [
    | none ↦ (routes, false)
    | some handler ↦
        if channel_code r.channel == 0 || str_eq r.type ""
        then (routes, false)
        else elim (find r.channel r.type routes) [
          | some entry ↦ (routes, false)
          | none ↦
              ((r.channel, (r.type, record { guard = r.guard; handler = handler })) ∷ routes, true)
        ]
  ]

  -- `!iterator->guard || iterator->guard(...)`.
  abbrev pub passes : Option (Guard S J) → ProtocolEnvelope J → ProtocolRouteContext → S → Bool
  passes none envelope context s = true
  passes (some guard) envelope context s = guard envelope context s

  -- What `route` makes of the handler's result.
  unfoldable pub handled_result :
      ProtocolEnvelope J → ProtocolHandlerResult → ProtocolRouteResult S J
  handled_result envelope r = record {
    status = if is_success r.status then handled else handler_failed;
    envelope = some envelope;
    handler_result = r;
    error =
        if is_success r.status
        then ""
        else if str_eq r.technical_message ""
        then "Protocol handler failed"
        else r.technical_message;
  }

  abbrev pub refusal : ProtocolRouteStatus → ProtocolEnvelope J → String → ProtocolRouteResult S J
  refusal status envelope error = record {
    status = status;
    envelope = some envelope;
    handler_result = no_handler_result;
    error = error;
  }

  module _ (decode : ProtocolChannel → String → Outcome String (ProtocolEnvelope J)) where
    -- `route` for a message that has been decoded.
    unfoldable pub dispatch :
        ProtocolChannel
        → ProtocolEnvelope J
        → ProtocolRouteContext
        → Routes S J
        → S
        → S × ProtocolRouteResult S J
    dispatch channel envelope context routes s =
        if not (envelope.version == envelope_schema_version)
        then (s, refusal unsupported_version envelope "Unsupported protocol version")
        else elim (find channel envelope.type routes) [
          | none ↦ (s, refusal unknown_type envelope "Unknown protocol message type")
          | some entry ↦
              if not (passes entry.guard envelope context s)
              then (
                s,
                refusal forbidden envelope
                    "Protocol message is not allowed in the current session state",
              )
              else let r = entry.handler envelope context s in (r.0, handled_result envelope r.1)
        ]

    unfoldable pub route :
        ProtocolChannel
        → String
        → ProtocolRouteContext
        → Routes S J
        → S
        → S × ProtocolRouteResult S J
    route channel message context routes s = elim (decode channel message) [
      | err error ↦ (
        s,
        record {
          status = malformed;
          envelope = none;
          handler_result = no_handler_result;
          error = error;
        },
      )
      | ok envelope ↦ dispatch channel envelope context routes s
    ]
