-- ===== src/Session/Shutdown/Tests.antt =====
-- A shutdown (shutdowncoordinator.cpp) that hears a stale end, the watchdog and then both ends.
use win_remote_control.Prelude.{◌≡◌, true, false, List, [], ◌∷◌, ◌++◌}
use win_remote_control.Session.Shutdown.Completion.{
  Event, capture_done, finish_count, finish_count-begin, peer_done, signals, watchdog,
}
use win_remote_control.Session.Shutdown.{ShutdownCoordinator, begin}

abbrev ends : List Event
ends = capture_done 6 ∷ (peer_done 7 ∷ (watchdog 5000 ∷ (capture_done 7 ∷ (peer_done 7 ∷ []))))

abbrev at_rest : ShutdownCoordinator
at_rest = record {
  generation = 0;
  active = false;
  capture_pending = false;
  peer_pending = false;
  timed_out = false;
  watchdog_started = false;
  elapsed_valid = false;
}

finish_count-begin_example :
    finish_count ((begin 7 true true at_rest).1 ++ signals ends (begin 7 true true at_rest).0) ≡ 1
finish_count-begin_example = finish_count-begin 7 true true at_rest ends
