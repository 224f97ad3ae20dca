-- ===== src/Media/LatestFrame/Tests.antt =====
-- Four frames (latestdecodedframequeue.cpp), of which the second replaces the first and the third is cleared away.
use win_remote_control.Prelude.{ℕ, ◌≡◌, refl, true, false, none, List, [], ◌∷◌}
use win_remote_control.Media.LatestFrame.{
  DecodedVideoFrame, clear, complete_presentation, enqueue, record_presented, take_latest,
}
use win_remote_control.Media.LatestFrame.Accounts.{
  Event, IsBalanced, clears, completes, enqueues, opened, presents, run, run-IsBalanced, step,
  takes,
}

abbrev frame : ℕ → DecodedVideoFrame
frame n = record { frame_index = n; bytes = n ∷ []; render_enqueued_at = none }

abbrev pictures : List Event
pictures =
    enqueues true (frame 1) 10
    ∷ enqueues true (frame 2) 20
    ∷ takes true
    ∷ presents
    ∷ completes
    ∷ enqueues true (frame 3) 30
    ∷ clears
    ∷ enqueues true (frame 4) 40
    ∷ takes false
    ∷ []

one_report :
    (run pictures opened).reports ≡ record { received = 3; presented = 1; coalesced = 1 } ∷ []
unfolding run step enqueue take_latest record_presented complete_presentation clear
one_report = refl

run-IsBalanced_example : IsBalanced (run pictures opened)
run-IsBalanced_example = run-IsBalanced pictures
