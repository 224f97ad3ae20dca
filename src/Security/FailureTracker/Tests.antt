-- ===== src/Security/FailureTracker/Tests.antt =====
-- A source that fails twice, at 100 and at 150 milliseconds, under a limit of two
-- (sourcefailuretracker.cpp).
use win_remote_control.Prelude.{suc, min, ◌≡◌, refl, [], ◌∷◌, arith, leb}
use win_remote_control.Security.FailureTracker.{
  SourceFailureTracker, find, is_rate_limited, record_failure,
}
use win_remote_control.Security.FailureTracker.Bounds.{IsValid, record_failure-IsValid}
use win_remote_control.Security.FailureTracker.Window.{is_rate_limited-recent, recent_in}
use win_remote_control.Security.FailureTracker.Recording.{recent_in-record_failure}

abbrev tracker : SourceFailureTracker
tracker = record {
  maximum_failures = 2;
  window_ms = 1000;
  maximum_sources = 1;
  failures = ("a", 100 ∷ (150 ∷ [])) ∷ [];
}

tracker-IsValid : IsValid 150 tracker
unfolding find
tracker-IsValid = ground arith

record_failure-IsValid_example : IsValid 1120 (record_failure tracker "b" 1120)
record_failure-IsValid_example =
    record_failure-IsValid tracker "b" 150 1120 (omega arith) tracker-IsValid

is_rate_limited-recent_example :
    ((is_rate_limited tracker "a" 1120).1 ≡ leb 2 (recent_in 1000 1120 "a" tracker.failures))
    × IsValid 1120 (is_rate_limited tracker "a" 1120).0
is_rate_limited-recent_example =
    is_rate_limited-recent tracker "a" 150 1120 (omega arith) refl tracker-IsValid

recent_in-record_failure_example :
    recent_in 1000 1120 "a" (record_failure tracker "a" 1120).failures
    ≡ min 2 (suc (recent_in 1000 1120 "a" tracker.failures))
recent_in-record_failure_example =
    recent_in-record_failure tracker "a" 150 1120 (omega arith) refl tracker-IsValid
