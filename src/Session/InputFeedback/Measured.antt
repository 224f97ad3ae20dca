-- ===== src/Session/InputFeedback/Measured.antt =====
-- The statistics of KInputFeedbackTracker (src/session/inputfeedbacktracker.cpp).
use win_remote_control.Prelude.{
  ℕ, ◌+◌, ◌-◌, ◌*◌, ◌/◌, ◌%◌, ◌≤◌, ◌<◌, ◌≡◌, refl, inl, inr, Bool, true, false, not, ◌||◌, Option,
  none, some, List, [], ◌∷◌, arith, ltb, leb, ◌==◌, Bool-cases, Option-cases, length, drop,
  length-append, length-drop,
}
use win_remote_control.Session.InputFeedback.{
  EventName, InputFeedbackTracker, LogLine, PendingInputTrace, add_sample, answer_trace,
  erase_rendered, find_trace, handle_rendered, input_move_trace_interval_ms,
  input_round_trip_stats_interval, input_round_trip_window_size, insert_trace, is_key,
  log_round_trip_stats, make_room, max_pending_input_trace_count, measure, out_of_range,
  record_input_sent, reset, round_trip, round_trip_stats, round_trip_summary,
  should_trace_mouse_move, sort, stats,
}
use win_remote_control.Session.InputFeedback.Sorted.{
  at-value_at, at_rises, length-sort, sort-IsSorted,
}
use win_remote_control.Input.MouseRouting.{InputMessageType}

-- A line of statistics: its percentiles stand in order, and it is of 1 to 120 samples.
abbrev pub IsMeasured : LogLine → Type 0
IsMeasured (round_trip seq type pressed ms included) = seq ≡ seq
IsMeasured (stats r) =
    (r.p50_ms ≤ r.p95_ms)
    × (r.p95_ms ≤ r.max_ms)
    × (1 ≤ r.samples)
    × (r.samples ≤ input_round_trip_window_size)
IsMeasured out_of_range = ⊥

abbrev pub AreMeasured : List LogLine → Type 0
AreMeasured [] = 0 ≤ 0
AreMeasured (l ∷ ls) = IsMeasured l × AreMeasured ls

abbrev pub IsValid : InputFeedbackTracker → Type 0
IsValid t =
    (length t.sent_traces ≤ max_pending_input_trace_count)
    × (length t.round_trip_samples ≤ input_round_trip_window_size)

log-AreMeasured :
    (name : EventName) (t : InputFeedbackTracker)
    → IsValid t
    → AreMeasured (log_round_trip_stats name t)
unfolding log_round_trip_stats
log-AreMeasured name t v = elim (Bool-cases (length t.round_trip_samples == 0)) [
  | inl e ↦ rw e (omega arith)
  | inr e ↦
      let xs = sort t.round_trip_samples in
      let n = length xs in
      let same = length-sort t.round_trip_samples in
      let some_there : 0 < n = ground (arith, e, same) in
      let s = sort-IsSorted t.round_trip_samples in
      let i = (n - 1) * 50 / 100 in
      let j = (n * 95 + 99) / 100 - 1 in
      let i≤j : i ≤ j = omega (arith, some_there) in
      let j≤k : j ≤ n - 1 = omega (arith, some_there) in
      let f = at-value_at i xs (omega (arith, i≤j, j≤k, some_there)) in
      let g = at-value_at j xs (omega (arith, j≤k, some_there)) in
      let h = at-value_at (n - 1) xs (omega (arith, some_there)) in
      let low = at_rises i j _ _ xs s i≤j f g in
      let high = at_rises j (n - 1) _ _ xs s j≤k g h in
      let few : n ≤ input_round_trip_window_size = omega (arith, same, v.1) in
      rw (e, f, g, h) ((low, high, omega (arith, some_there), few), omega arith)
]

length-make_room :
    (ts : List (ℕ × PendingInputTrace)) → length (make_room ts) < max_pending_input_trace_count
unfolding make_room
length-make_room [] = omega arith
length-make_room (t ∷ ts) =
    elim (Bool-cases (leb max_pending_input_trace_count (length (t ∷ ts)))) [
      | inl e ↦ rw e (length-make_room ts)
      | inr e ↦ rw e (ground (arith, e))
    ]

length-insert_trace :
    (k : ℕ) (p : PendingInputTrace) (ts : List (ℕ × PendingInputTrace))
    → length (insert_trace k p ts) ≤ length ts + 1
length-insert_trace k p [] = omega arith
length-insert_trace k p ((j, q) ∷ ts) = ground (arith, length-insert_trace k p ts)

length-erase_rendered :
    (seq : ℕ) (ts : List (ℕ × PendingInputTrace)) → length (erase_rendered seq ts) ≤ length ts
length-erase_rendered seq [] = omega arith
length-erase_rendered seq ((j, q) ∷ ts) = ground (arith, length-erase_rendered seq ts)

record_input_sent-IsValid :
    (enabled : Bool) (now : ℕ) (type : InputMessageType) (sequence : ℕ) (pressed : Bool)
    (t : InputFeedbackTracker)
    → IsValid t
    → IsValid (record_input_sent enabled now type sequence pressed t)
unfolding record_input_sent
record_input_sent-IsValid false now type sequence pressed t v = v
record_input_sent-IsValid true now type sequence pressed t v =
    let room = length-make_room t.sent_traces in
    (omega (arith, room, length-insert_trace sequence _ (make_room t.sent_traces)), v.1)

add_sample-IsValid : (ms : ℕ) (t : InputFeedbackTracker) → IsValid t → IsValid (add_sample ms t)
unfolding add_sample
add_sample-IsValid ms t v = (
  v.0,
  ground (
    arith,
    v.1,
    length-append t.round_trip_samples (ms ∷ []),
    length-append (drop 1 t.round_trip_samples) (ms ∷ []),
    length-drop 1 t.round_trip_samples,
  ),
)

-- A tracker within its limits, after lines that are right.
abbrev pub IsRight : InputFeedbackTracker × List LogLine → Type 0
IsRight (t, ls) = IsValid t × AreMeasured ls

measure-IsRight :
    (seq ms : ℕ) (trace : PendingInputTrace) (t : InputFeedbackTracker)
    → IsValid t
    → IsRight (measure seq ms trace t)
unfolding measure
measure-IsRight seq ms trace t v =
    let w = add_sample-IsValid ms t v in
    elim (Bool-cases (not (not (is_key trace.type) || trace.key_pressed))) [
      | inl e ↦ rw e (v, (refl, omega arith))
      | inr e ↦
          elim (Bool-cases
            ((add_sample ms t).round_trip_sample_count % input_round_trip_stats_interval == 0)) [
              | inl f ↦ rw (e, f) (w, (refl, log-AreMeasured round_trip_stats (add_sample ms t) w))
              | inr f ↦ rw (e, f) (w, (refl, omega arith))
            ]
    ]

answer_trace-IsRight :
    (seq elapsed : ℕ) (found : Option PendingInputTrace) (t : InputFeedbackTracker)
    → IsValid t
    → IsRight (answer_trace seq elapsed found t)
unfolding answer_trace
answer_trace-IsRight seq elapsed none t v = (v, omega arith)
answer_trace-IsRight seq elapsed (some trace) t v = elim (Bool-cases (ltb elapsed trace.sent_ms)) [
  | inl h ↦ rw h (v, omega arith)
  | inr h ↦ rw h (measure-IsRight seq (elapsed - trace.sent_ms) trace t v)
]

handle_rendered-IsRight :
    (enabled : Bool) (now seq : ℕ) (t : InputFeedbackTracker)
    → IsValid t
    → IsRight (handle_rendered enabled now seq t)
unfolding handle_rendered
handle_rendered-IsRight enabled now seq t v =
    let left : InputFeedbackTracker = record t { sent_traces = erase_rendered seq t.sent_traces } in
    let w : IsValid left = (omega (arith, v.0, length-erase_rendered seq t.sent_traces), v.1) in
    elim (Bool-cases (not enabled || seq == 0)) [
      | inl e ↦ rw e (v, omega arith)
      | inr e ↦ elim (Option-cases t.round_trip_timer) [
        | inl f ↦ rw (e, f) (v, omega arith)
        | inr (start, f) ↦
            rw (e, f) (answer_trace-IsRight seq (now - start) (find_trace seq t.sent_traces) left w)
      ]
    ]

should_trace-IsValid :
    (enabled : Bool) (now : ℕ) (t : InputFeedbackTracker)
    → IsValid t
    → IsValid (should_trace_mouse_move enabled now t).0
unfolding should_trace_mouse_move
should_trace-IsValid false now t v = v
should_trace-IsValid true now t v = elim (Option-cases t.move_trace_timer) [
  | inl e ↦ rw e v
  | inr (start, e) ↦ elim (Bool-cases (ltb (now - start) input_move_trace_interval_ms)) [
    | inl h ↦ rw (e, h) v
    | inr h ↦ rw (e, h) v
  ]
]

reset-IsRight : (enabled : Bool) (t : InputFeedbackTracker) → IsValid t → IsRight (reset enabled t)
unfolding reset
reset-IsRight false t v = ((omega arith, omega arith), omega arith)
reset-IsRight true t v = ((omega arith, omega arith), log-AreMeasured round_trip_summary t v)

-- The calls of the tracker.
pub data Call : Type 0 where
  asks_move : ℕ → Call
  sends : ℕ → InputMessageType → ℕ → Bool → Call
  renders : ℕ → ℕ → Call
  resets : Call

abbrev pub call : Bool → Call → InputFeedbackTracker → InputFeedbackTracker × List LogLine
call enabled (asks_move now) t = ((should_trace_mouse_move enabled now t).0, [])
call enabled (sends now type sequence pressed) t =
    (record_input_sent enabled now type sequence pressed t, [])
call enabled (renders now seq) t = handle_rendered enabled now seq t
call enabled resets t = reset enabled t

-- A call keeps the limits of the tracker, no more than 2048 traces and 120 samples, and every line of
-- statistics that it writes is of 1 to 120 samples, with the 50th percentile at most the 95th,
-- that at most the maximum, and no read beyond the samples.
pub call-IsRight :
    (enabled : Bool) (c : Call) (t : InputFeedbackTracker) → IsValid t → IsRight (call enabled c t)
call-IsRight enabled (asks_move now) t v = (should_trace-IsValid enabled now t v, omega arith)
call-IsRight enabled (sends now type sequence pressed) t v =
    (record_input_sent-IsValid enabled now type sequence pressed t v, omega arith)
call-IsRight enabled (renders now seq) t v = handle_rendered-IsRight enabled now seq t v
call-IsRight enabled resets t v = reset-IsRight enabled t v
