-- ===== src/Session/PeerLifecycle.antt =====
-- KPeerLifecycleController (src/session/peerlifecyclecontroller.h and .cpp): generations of the peer
-- connection, and the rollback of one whose start has failed. The transport is two functions on a
-- world `W`; its shutdownFinished comes as a call of its own. The QTimer is a mark that it runs.
use win_remote_control.Prelude.{
  Outcome, ok, err, passed, ℕ, zero, suc, ◌+◌, ◌-◌, ◌*◌, ◌/◌, ◌%◌, ◌^◌, ◌≤◌, ◌<◌, min, max, ◌≡◌,
  refl, sym, ap, subst, ◌∙◌, ◌≢◌, ◌↔◌, ◌⊎◌, inl, inr, Bool, true, false, not, ◌&&◌, ◌||◌, Option,
  none, some, List, [], ◌∷◌, ◌++◌, map, Memᴰ, append-nil, append_assoc, arith, String, str_eq,
  str_eq_iff, ltb, leb, ◌==◌, if◌then◌else◌, ltb→lt, lt→ltb, leb→le, ==_iff, tests, Bool-cases,
  Option-cases, if-true, if-false, length, take, drop, length-append, length-drop,
  take-append_length, drop-append_length, List-cases, take_all, length-take, byte_at, write_le,
  write_be, read_le, read_be, byte_at-append, take-append, drop-append, byte_at-skip, drop-skip,
  take-skip,
}
pub mod Rollback
mod Tests

abbrev pub rollback_timeout_ms : ℕ
rollback_timeout_ms = 3000

pub data PeerInitializationStatus : Type 0 where
  initialized rollback_needed rejected : PeerInitializationStatus

-- KPeerInitializationResult, without the stage.
pub record PeerInitializationResult : Type 0 where
  pub status : PeerInitializationStatus
  pub technical_message : String

pub record PeerLifecycleController : Type 0 where
  pub generation : ℕ  -- quint64
  pub shutdown_completion_generation : ℕ  -- quint64
  pub rollback_pending : Bool
  pub rollback_timed_out : Bool
  pub timer_active : Bool

abbrev pub new_controller : PeerLifecycleController
new_controller = record {
  generation = 0;
  shutdown_completion_generation = 0;
  rollback_pending = false;
  rollback_timed_out = false;
  timer_active = false;
}

pub data LifecycleSignal : Type 0 where
  rollback_started rollback_timeout : ℕ → ℕ → LifecycleSignal
  rollback_finished : ℕ → Bool → LifecycleSignal
  peer_shutdown_finished : ℕ → LifecycleSignal

pub record After (W : Type 0) : Type 0 where
  pub controller : PeerLifecycleController
  pub world : W
  pub signals : List LifecycleSignal

abbrev pub rollback_is_pending : PeerInitializationResult
rollback_is_pending = record { status = rejected; technical_message = "peer rollback is pending" }

abbrev pub needs_rollback : PeerInitializationStatus → Bool
needs_rollback rollback_needed = true
needs_rollback _ = false

-- The slot of the rollback timer, which is a single shot.
unfoldable pub handle_rollback_timer :
    PeerLifecycleController → PeerLifecycleController × List LifecycleSignal
handle_rollback_timer c =
    let late : PeerLifecycleController = record c {
      rollback_timed_out = true;
      timer_active = false;
    } in
    if not c.rollback_pending || c.rollback_timed_out
    then (record c { timer_active = false }, [])
    else (late, rollback_timeout c.generation rollback_timeout_ms ∷ [])

unfoldable pub handle_shutdown_finished :
    ℕ → PeerLifecycleController → PeerLifecycleController × List LifecycleSignal
handle_shutdown_finished generation c =
    let rolled_back : List LifecycleSignal =
      if c.rollback_pending then rollback_finished generation c.rollback_timed_out ∷ [] else [] in
    let completion =
      if c.shutdown_completion_generation == 0
      then generation
      else c.shutdown_completion_generation in
    let left : PeerLifecycleController = record c {
      shutdown_completion_generation = 0;
      rollback_pending = false;
      rollback_timed_out = if c.rollback_pending then false else c.rollback_timed_out;
      timer_active = if c.rollback_pending then false else c.timer_active;
    } in
    if not (generation == c.generation)
    then (c, [])
    else (left, rolled_back ++ peer_shutdown_finished completion ∷ [])

-- The calls, the timer and the transport's signal.
pub data Event (R : Type 0) : Type 0 where
  initializes : R → Event R
  requests_shutdown : ℕ → Event R
  timer_fires : Event R
  finishes : ℕ → Event R

abbrev pub quiet : {W : Type 0} → W → PeerLifecycleController × List LifecycleSignal → After W
quiet w (c, ss) = record { controller = c; world = w; signals = ss }

module _ {R W : Type 0} (transport_initialize : R → ℕ → W → W × PeerInitializationResult)
    (transport_request_shutdown : ℕ → W → W) where
  unfoldable pub initialize : R → PeerLifecycleController → W → After W × PeerInitializationResult
  initialize role c w =
      let generation = (c.generation + 1) % 2 ^ 64 in
      let (v, result) = transport_initialize role generation w in
      let begun : PeerLifecycleController = record c { generation = generation } in
      let rolls_back : PeerLifecycleController = record begun {
        rollback_pending = true;
        rollback_timed_out = false;
        timer_active = true;
      } in
      if c.rollback_pending
      then (record { controller = c; world = w; signals = [] }, rollback_is_pending)
      else if needs_rollback result.status
      then (
        record {
          controller = rolls_back;
          world = v;
          signals = rollback_started generation rollback_timeout_ms ∷ [];
        },
        result,
      )
      else (record { controller = begun; world = v; signals = [] }, result)

  unfoldable pub request_shutdown : ℕ → PeerLifecycleController → W → After W
  request_shutdown completion_generation c w = record {
    controller = record c { shutdown_completion_generation = completion_generation };
    world = transport_request_shutdown c.generation w;
    signals = [];
  }

  abbrev pub handle : Event R → PeerLifecycleController → W → After W
  handle (initializes role) c w = (initialize role c w).0
  handle (requests_shutdown g) c w = request_shutdown g c w
  handle timer_fires c w = quiet w (handle_rollback_timer c)
  handle (finishes g) c w = quiet w (handle_shutdown_finished g c)

  unfoldable pub run : List (Event R) → PeerLifecycleController → W → After W
  run [] c w = record { controller = c; world = w; signals = [] }
  run (e ∷ es) c w =
      let a = handle e c w in
      let b = run es a.controller a.world in record b { signals = a.signals ++ b.signals }
