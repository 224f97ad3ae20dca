-- ===== src/Session/InputFeedback/Tests.antt =====
-- Runs of KInputFeedbackTracker (src/session/inputfeedbacktracker.cpp).
use win_remote_control.Prelude.{◌≡◌, refl, true, false, [], ◌∷◌, arith}
use win_remote_control.Session.InputFeedback.{
  InputFeedbackTracker, add_sample, answer_trace, handle_rendered, log_round_trip_stats, make_room,
  measure, new_tracker, record_input_sent, reset, round_trip_summary, sort, stats,
}
use win_remote_control.Session.InputFeedback.Measured.{IsRight, call, call-IsRight, resets}
use win_remote_control.Input.MouseRouting.{mouse_move, text}

abbrev moved : InputFeedbackTracker
moved = record_input_sent true 100 mouse_move 2 false new_tracker

abbrev measured : InputFeedbackTracker
measured = (handle_rendered true 130 2 (record_input_sent true 104 text 3 false moved)).0

-- Only the traces of the same parity go.
one_left : measured.sent_traces ≡ (3, record { sent_ms = 4; type = text; key_pressed = false }) ∷ []
unfolding handle_rendered answer_trace measure add_sample record_input_sent make_room
one_left = refl

summary :
    (reset true measured).1
    ≡ stats (record {
      name = round_trip_summary;
      samples = 1;
      total_samples = 1;
      average_ms = 30;
      p50_ms = 30;
      p95_ms = 30;
      max_ms = 30;
    })
      ∷ []
unfolding reset log_round_trip_stats sort handle_rendered answer_trace measure add_sample
    record_input_sent make_room
summary = refl

abbrev three_samples : InputFeedbackTracker
three_samples = record new_tracker { round_trip_samples = 30 ∷ 10 ∷ 20 ∷ [] }

call-IsRight_example : IsRight (call true resets three_samples)
call-IsRight_example = call-IsRight true resets three_samples (omega arith, omega arith)
