-- ===== src/Session/Shutdown.antt =====
-- KShutdownCoordinator (src/session/shutdowncoordinator.cpp): waits for the capture and the peer
-- connection to end, with a watchdog. The signals that a call emits are returned as a list. The
-- timers are Qt's: the watchdog's timeout is an event that comes with the time measured, and the
-- single-shot timer is only noted as started.
pub mod Completion
mod Tests
use win_remote_control.Prelude.{
  Outcome, ok, err, passed, ℕ, zero, suc, ◌+◌, ◌-◌, ◌*◌, ◌/◌, ◌%◌, ◌^◌, ◌≤◌, ◌<◌, min, max, ◌≡◌,
  refl, sym, ap, subst, ◌∙◌, ◌≢◌, ◌↔◌, ◌⊎◌, inl, inr, Bool, true, false, not, ◌&&◌, ◌||◌, Option,
  none, some, List, [], ◌∷◌, ◌++◌, map, Memᴰ, append-nil, append_assoc, arith, String, str_eq,
  str_eq_iff, ltb, leb, ◌==◌, if◌then◌else◌, ltb→lt, lt→ltb, leb→le, ==_iff, tests, Bool-cases,
  Option-cases, length, take, drop, length-append, length-drop, take-append_length,
  drop-append_length, List-cases, take_all, length-take, byte_at, write_le, write_be, read_le,
  read_be, byte_at-append, take-append, drop-append, byte_at-skip, drop-skip, take-skip,
}

pub record ShutdownCoordinator : Type 0 where
  pub generation : ℕ  -- quint64
  pub active : Bool
  pub capture_pending : Bool
  pub peer_pending : Bool
  pub timed_out : Bool
  pub watchdog_started : Bool
  pub elapsed_valid : Bool

pub data Signal : Type 0 where
  finished : ℕ → Bool → Signal
  watchdog_expired : ℕ → Bool → Bool → ℕ → Signal

unfoldable pub clear : ShutdownCoordinator → ShutdownCoordinator
clear c = record {
  generation = 0;
  active = false;
  capture_pending = false;
  peer_pending = false;
  timed_out = false;
  watchdog_started = false;
  elapsed_valid = false;
}

unfoldable pub try_finish : ShutdownCoordinator → ShutdownCoordinator × List Signal
unfolding clear
try_finish c =
    if not c.active || (c.capture_pending || c.peer_pending)
    then (c, [])
    else (clear c, finished c.generation c.timed_out ∷ [])

unfoldable pub begin : ℕ → Bool → Bool → ShutdownCoordinator → ShutdownCoordinator × List Signal
unfolding try_finish
begin generation capture_pending peer_pending c = try_finish (record {
  generation = generation;
  active = true;
  capture_pending = capture_pending;
  peer_pending = peer_pending;
  timed_out = false;
  watchdog_started = true;
  elapsed_valid = true;
})

unfoldable pub complete_capture : ℕ → ShutdownCoordinator → ShutdownCoordinator × List Signal
unfolding try_finish
complete_capture generation c =
    if not c.active || not (generation == c.generation)
    then (c, [])
    else try_finish (record c { capture_pending = false })

unfoldable pub complete_peer : ℕ → ShutdownCoordinator → ShutdownCoordinator × List Signal
unfolding try_finish
complete_peer generation c =
    if not c.active || not (generation == c.generation)
    then (c, [])
    else try_finish (record c { peer_pending = false })

-- The timer's slot, with the time that the elapsed timer shows.
unfoldable pub watchdog_timeout : ℕ → ShutdownCoordinator → ShutdownCoordinator × List Signal
watchdog_timeout elapsed c = if not c.active || c.timed_out then (c, []) else (
  record c { timed_out = true },
  watchdog_expired c.generation c.capture_pending c.peer_pending
        (if c.elapsed_valid then elapsed else 0)
      ∷ [],
)
