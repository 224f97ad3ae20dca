-- ===== src/Session/Pairing.antt =====
-- KPairingTransaction (src/session/pairingtransaction.h and .cpp): how far the pairing of two
-- devices has come. The progress mask is a record with a Boolean for each of its flags.
-- `is_null_uuid` stands for QUuid(...).isNull().
pub mod Phases
pub mod Failure
pub mod Agreement
mod Tests
use win_remote_control.Prelude.{
  ℕ, zero, suc, ◌+◌, ◌-◌, ◌*◌, ◌/◌, ◌%◌, ◌^◌, ◌≤◌, ◌<◌, min, max, ◌≡◌, refl, sym, ap, subst, ◌∙◌,
  ◌≢◌, ◌↔◌, ◌⊎◌, inl, inr, Bool, true, false, not, ◌&&◌, ◌||◌, Option, none, some, List, [], ◌∷◌,
  ◌++◌, map, Memᴰ, append-nil, append_assoc, arith, String, str_eq, str_eq_iff, ltb, leb, ◌==◌,
  if◌then◌else◌, ltb→lt, lt→ltb, leb→le, ==_iff, tests, Bool-cases, Option-cases, length, take,
  drop, length-append, length-drop, take-append_length, drop-append_length, List-cases, byte_at,
  write_le, write_be, read_le, read_be, byte_at-append, take-append, drop-append,
}
use win_remote_control.Security.Permissions.{PermissionScopes, no_permissions}

pub data PairingTransactionState : Type 0 where
  inactive exchanging_hello awaiting_decision preparing committing : PairingTransactionState
  completed failed : PairingTransactionState

pub data ProgressFlag : Type 0 where
  hello_sent_flag hello_received_flag local_decision remote_decision : ProgressFlag
  local_prepared_flag remote_prepared local_committed_flag remote_committed : ProgressFlag

pub record Progress : Type 0 where
  pub sent : Bool
  pub received : Bool
  pub decided : Bool
  pub peer_decided : Bool
  pub prepared : Bool
  pub peer_prepared : Bool
  pub committed : Bool
  pub peer_committed : Bool

abbrev pub no_progress : Progress
no_progress = record {
  sent = false;
  received = false;
  decided = false;
  peer_decided = false;
  prepared = false;
  peer_prepared = false;
  committed = false;
  peer_committed = false;
}

pub record PairingTransaction : Type 0 where
  pub request_id : String
  pub generation : ℕ  -- quint64
  pub progress : Progress
  pub local_permissions : PermissionScopes
  pub remote_permissions : PermissionScopes
  pub state : PairingTransactionState

-- (m_nProgress & flag) != 0.
abbrev pub flag_in : ProgressFlag → Progress → Bool
flag_in hello_sent_flag p = p.sent
flag_in hello_received_flag p = p.received
flag_in local_decision p = p.decided
flag_in remote_decision p = p.peer_decided
flag_in local_prepared_flag p = p.prepared
flag_in remote_prepared p = p.peer_prepared
flag_in local_committed_flag p = p.committed
flag_in remote_committed p = p.peer_committed

-- m_nProgress |= flag.
abbrev pub with_flag : ProgressFlag → Progress → Progress
with_flag hello_sent_flag p = record p { sent = true }
with_flag hello_received_flag p = record p { received = true }
with_flag local_decision p = record p { decided = true }
with_flag remote_decision p = record p { peer_decided = true }
with_flag local_prepared_flag p = record p { prepared = true }
with_flag remote_prepared p = record p { peer_prepared = true }
with_flag local_committed_flag p = record p { committed = true }
with_flag remote_committed p = record p { peer_committed = true }

abbrev pub has_progress : ProgressFlag → PairingTransaction → Bool
has_progress flag t = flag_in flag t.progress

abbrev pub hello_sent : PairingTransaction → Bool
hello_sent t = has_progress hello_sent_flag t

abbrev pub hello_received : PairingTransaction → Bool
hello_received t = has_progress hello_received_flag t

abbrev pub decisions_complete : PairingTransaction → Bool
decisions_complete t = has_progress local_decision t && has_progress remote_decision t

abbrev pub local_prepared : PairingTransaction → Bool
local_prepared t = has_progress local_prepared_flag t

abbrev pub prepared_complete : PairingTransaction → Bool
prepared_complete t = has_progress local_prepared_flag t && has_progress remote_prepared t

abbrev pub local_committed : PairingTransaction → Bool
local_committed t = has_progress local_committed_flag t

abbrev pub committed_complete : PairingTransaction → Bool
committed_complete t = has_progress local_committed_flag t && has_progress remote_committed t

unfoldable pub update_state : PairingTransaction → PairingTransaction
update_state t =
    if committed_complete t
    then record t { state = committing }
    else if prepared_complete t || local_committed t
    then record t { state = committing }
    else if decisions_complete t || local_prepared t
    then record t { state = preparing }
    else if hello_sent t && hello_received t
    then record t { state = awaiting_decision }
    else record t { state = exchanging_hello }

abbrev pub is_terminal : PairingTransactionState → Bool
is_terminal completed = true
is_terminal failed = true
is_terminal _ = false

abbrev pub is_inactive : PairingTransactionState → Bool
is_inactive inactive = true
is_inactive _ = false

abbrev pub is_completed : PairingTransactionState → Bool
is_completed completed = true
is_completed _ = false

abbrev pub is_failed : PairingTransactionState → Bool
is_failed failed = true
is_failed _ = false

abbrev pub is_active : PairingTransaction → Bool
is_active t = not (is_inactive t.state) && not (is_terminal t.state)

unfoldable pub mark_progress : ProgressFlag → PairingTransaction → PairingTransaction × Bool
mark_progress flag t =
    if is_inactive t.state || (is_terminal t.state || has_progress flag t)
    then (t, false)
    else (update_state (record t { progress = with_flag flag t.progress }), true)

unfoldable pub mark_hello_sent : PairingTransaction → PairingTransaction × Bool
mark_hello_sent t = mark_progress hello_sent_flag t

unfoldable pub mark_hello_received : PairingTransaction → PairingTransaction × Bool
mark_hello_received t = mark_progress hello_received_flag t

unfoldable pub mark_local_decision :
    PermissionScopes → PairingTransaction → PairingTransaction × Bool
mark_local_decision permissions t =
    if has_progress local_decision t
    then (t, false)
    else mark_progress local_decision (record t { local_permissions = permissions })

unfoldable pub mark_remote_decision :
    PermissionScopes → PairingTransaction → PairingTransaction × Bool
mark_remote_decision permissions t =
    if has_progress remote_decision t
    then (t, false)
    else mark_progress remote_decision (record t { remote_permissions = permissions })

-- `&&` makes the second call only where the first holds.
unfoldable pub mark_local_prepared : PairingTransaction → PairingTransaction × Bool
mark_local_prepared t =
    if decisions_complete t then mark_progress local_prepared_flag t else (t, false)

unfoldable pub mark_remote_prepared : PairingTransaction → PairingTransaction × Bool
mark_remote_prepared t =
    if decisions_complete t then mark_progress remote_prepared t else (t, false)

unfoldable pub mark_local_committed : PairingTransaction → PairingTransaction × Bool
mark_local_committed t =
    if prepared_complete t then mark_progress local_committed_flag t else (t, false)

unfoldable pub mark_remote_committed : PairingTransaction → PairingTransaction × Bool
mark_remote_committed t =
    if prepared_complete t then mark_progress remote_committed t else (t, false)

unfoldable pub mark_completed : PairingTransaction → PairingTransaction × Bool
mark_completed t =
    if not (committed_complete t) || is_completed t.state
    then (t, false)
    else (record t { state = completed }, true)

unfoldable pub mark_failed : PairingTransaction → PairingTransaction
mark_failed t = if not (is_completed t.state) then record t { state = failed } else t

abbrev pub fresh : PairingTransaction
fresh = record {
  request_id = "";
  generation = 0;
  progress = no_progress;
  local_permissions = no_permissions;
  remote_permissions = no_permissions;
  state = inactive;
}

unfoldable pub reset : PairingTransaction → PairingTransaction
reset t = fresh

unfoldable pub begin : (String → Bool) → String → ℕ → PairingTransaction → PairingTransaction
unfolding reset
begin is_null_uuid request_id generation t =
    if is_null_uuid request_id || generation == 0
    then record (reset t) { state = failed }
    else record (reset t) {
      request_id = request_id;
      generation = generation;
      state = exchanging_hello;
    }

unfoldable pub matches : String → ℕ → PairingTransaction → Bool
matches request_id generation t =
    not (is_inactive t.state)
    && (not (is_failed t.state) && (str_eq request_id t.request_id && generation == t.generation))
