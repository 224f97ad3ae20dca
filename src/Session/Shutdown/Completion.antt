-- ===== src/Session/Shutdown/Completion.antt =====
-- A shutdown finishes once, and when (src/session/shutdowncoordinator.cpp).
use win_remote_control.Prelude.{
  ℕ, suc, ◌+◌, ◌≡◌, refl, Bool, true, false, not, ◌&&◌, ◌||◌, List, [], ◌∷◌, ◌++◌, arith, ◌==◌,
  if◌then◌else◌,
}
use win_remote_control.Session.Shutdown.{
  watchdog_timeout, complete_peer, begin, complete_capture, ShutdownCoordinator, Signal, finished,
  watchdog_expired,
}

-- What can happen between one `begin` and the next.
pub data Event : Type 0 where
  capture_done peer_done : ℕ → Event
  watchdog : ℕ → Event

unfoldable pub step : Event → ShutdownCoordinator → ShutdownCoordinator × List Signal
unfolding complete_capture complete_peer watchdog_timeout
step (capture_done g) c = complete_capture g c
step (peer_done g) c = complete_peer g c
step (watchdog elapsed) c = watchdog_timeout elapsed c

-- All signals of a sequence of events.
unfoldable pub signals : List Event → ShutdownCoordinator → List Signal
signals [] c = []
signals (e ∷ es) c = (step e c).1 ++ signals es (step e c).0

abbrev pub finish_count : List Signal → ℕ
finish_count [] = 0
finish_count (finished g late ∷ ss) = suc (finish_count ss)
finish_count (watchdog_expired g c p t ∷ ss) = finish_count ss

-- Whether the end of the capture, or of the peer connection, of this generation is among the events.
abbrev pub hears_capture : ℕ → List Event → Bool
hears_capture g [] = false
hears_capture g (capture_done h ∷ es) = h == g || hears_capture g es
hears_capture g (_ ∷ es) = hears_capture g es

abbrev pub hears_peer : ℕ → List Event → Bool
hears_peer g [] = false
hears_peer g (peer_done h ∷ es) = h == g || hears_peer g es
hears_peer g (_ ∷ es) = hears_peer g es

finish_count-append :
    (xs ys : List Signal) → finish_count (xs ++ ys) ≡ finish_count xs + finish_count ys
finish_count-append [] ys = omega arith
finish_count-append (finished g l ∷ xs) ys = omega (arith, finish_count-append xs ys)
finish_count-append (watchdog_expired g c p t ∷ xs) ys = omega (arith, finish_count-append xs ys)

signals_inactive :
    (es : List Event) (c : ShutdownCoordinator) → c.active ≡ false → signals es c ≡ []
unfolding signals step
signals_inactive [] c h = refl
signals_inactive (capture_done g ∷ es) c h = ground (arith, signals_inactive es c h)
signals_inactive (peer_done g ∷ es) c h = ground (arith, signals_inactive es c h)
signals_inactive (watchdog t ∷ es) c h = ground (arith, signals_inactive es c h)

-- From an active coordinator with something pending.
finish_count_active :
    (es : List Event) (c : ShutdownCoordinator)
    → c.active ≡ true
    → (c.capture_pending || c.peer_pending) ≡ true
    → finish_count (signals es c) ≡ (
        if (not c.capture_pending || hears_capture c.generation es)
          && (not c.peer_pending || hears_peer c.generation es)
        then 1
        else 0)
unfolding signals step
finish_count_active [] c a p = ground arith
finish_count_active (capture_done g ∷ es) c a p =
    let c' : ShutdownCoordinator = (complete_capture g c).0 in
    ground (
      arith,
      finish_count-append (complete_capture g c).1 (signals es c'),
      finish_count_active es c',
      signals_inactive es c',
    )
finish_count_active (peer_done g ∷ es) c a p =
    let c' : ShutdownCoordinator = (complete_peer g c).0 in
    ground (
      arith,
      finish_count-append (complete_peer g c).1 (signals es c'),
      finish_count_active es c',
      signals_inactive es c',
    )
finish_count_active (watchdog t ∷ es) c a p =
    let c' : ShutdownCoordinator = (watchdog_timeout t c).0 in
    ground (
      arith,
      finish_count-append (watchdog_timeout t c).1 (signals es c'),
      finish_count_active es c',
    )

-- After `begin` and any events, in any order, with the ends of other generations among them, the
-- shutdown has finished once if everything that was pending has ended, and not at all otherwise. The
-- watchdog does not change that.
pub finish_count-begin :
    (g : ℕ) (capture peer : Bool) (c : ShutdownCoordinator) (es : List Event)
    → let (started, first) = begin g capture peer c in
      finish_count (first ++ signals es started)
      ≡ (if (not capture || hears_capture g es) && (not peer || hears_peer g es) then 1 else 0)
unfolding begin
finish_count-begin g capture peer c es =
    let started : ShutdownCoordinator = (begin g capture peer c).0 in
    ground (
      arith,
      finish_count_active es started,
      signals_inactive es started,
      finish_count-append (begin g capture peer c).1 (signals es started),
    )
