-- ===== src/Session/InputFeedback.antt =====
-- KInputFeedbackTracker (src/session/inputfeedbacktracker.h and .cpp): how long an input takes until its
-- effect is rendered. A timer is the time that it was started at, `none` where it is not valid. The
-- time and whether the latency trace is enabled come with each call, and what is written to the trace
-- is a list of lines. Of an input message the type, the number and whether a key is pressed are kept.
use win_remote_control.Prelude.{
  Outcome, ok, err, passed, ℕ, zero, suc, ◌+◌, ◌-◌, ◌*◌, ◌/◌, ◌%◌, ◌^◌, ◌≤◌, ◌<◌, min, max, ◌≡◌,
  refl, sym, ap, subst, ◌∙◌, ◌≢◌, ◌↔◌, ◌⊎◌, inl, inr, Bool, true, false, not, ◌&&◌, ◌||◌, Option,
  none, some, List, [], ◌∷◌, ◌++◌, map, Memᴰ, append-nil, append_assoc, arith, String, str_eq,
  str_eq_iff, ltb, leb, ◌==◌, if◌then◌else◌, ltb→lt, lt→ltb, leb→le, ==_iff, tests, Bool-cases,
  Option-cases, if-true, if-false, length, take, drop, length-append, length-drop,
  take-append_length, drop-append_length, List-cases, take_all, length-take, byte_at, write_le,
  write_be, read_le, read_be, byte_at-append, take-append, drop-append, byte_at-skip, drop-skip,
  take-skip,
}
use win_remote_control.Input.MouseRouting.{InputMessageType, key}
pub mod Sorted
pub mod Measured
mod Tests

abbrev pub input_move_trace_interval_ms : ℕ
input_move_trace_interval_ms = 500

abbrev pub max_pending_input_trace_count : ℕ
max_pending_input_trace_count = 2048

abbrev pub input_round_trip_window_size : ℕ
input_round_trip_window_size = 120

abbrev pub input_round_trip_stats_interval : ℕ
input_round_trip_stats_interval = 30

pub record PendingInputTrace : Type 0 where
  pub sent_ms : ℕ
  pub type : InputMessageType
  pub key_pressed : Bool

pub record InputFeedbackTracker : Type 0 where
  pub round_trip_sample_count : ℕ  -- quint64
  pub move_trace_timer : Option ℕ
  pub round_trip_timer : Option ℕ
  pub sent_traces : List (ℕ × PendingInputTrace)  -- a QMap, by rising keys
  pub round_trip_samples : List ℕ

abbrev pub new_tracker : InputFeedbackTracker
new_tracker = record {
  round_trip_sample_count = 0;
  move_trace_timer = none;
  round_trip_timer = none;
  sent_traces = [];
  round_trip_samples = [];
}

-- The lines "input_roundtrip", "input_roundtrip_stats" and "input_roundtrip_summary", and a read of
-- the samples beyond their end, which Qt does not allow.
pub data EventName : Type 0 where
  round_trip_stats round_trip_summary : EventName

pub record RoundTripStats : Type 0 where
  pub name : EventName
  pub samples : ℕ
  pub total_samples : ℕ
  pub average_ms : ℕ
  pub p50_ms : ℕ
  pub p95_ms : ℕ
  pub max_ms : ℕ

pub data LogLine : Type 0 where
  round_trip : ℕ → InputMessageType → Bool → ℕ → Bool → LogLine
  stats : RoundTripStats → LogLine
  out_of_range : LogLine

unfoldable pub should_trace_mouse_move :
    Bool → ℕ → InputFeedbackTracker → InputFeedbackTracker × Bool
should_trace_mouse_move enabled now t =
    let started : InputFeedbackTracker = record t { move_trace_timer = some now } in
    if not enabled then (t, false) else elim t.move_trace_timer [
      | none ↦ (started, true)
      | some start ↦
          if ltb (now - start) input_move_trace_interval_ms then (t, false) else (started, true)
    ]

-- QMap::insert, which replaces.
abbrev pub insert_trace :
    ℕ → PendingInputTrace → List (ℕ × PendingInputTrace) → List (ℕ × PendingInputTrace)
insert_trace k p [] = (k, p) ∷ []
insert_trace k p ((j, q) ∷ ts) =
    let rest = insert_trace k p ts in
    if ltb k j then (k, p) ∷ (j, q) ∷ ts else if k == j then (k, p) ∷ ts else (j, q) ∷ rest

abbrev pub find_trace : ℕ → List (ℕ × PendingInputTrace) → Option PendingInputTrace
find_trace k [] = none
find_trace k ((j, q) ∷ ts) = if j == k then some q else find_trace k ts

-- The while loop of recordInputSent.
unfoldable pub make_room : List (ℕ × PendingInputTrace) → List (ℕ × PendingInputTrace)
make_room [] = []
make_room (t ∷ ts) =
    let rest = make_room ts in
    if leb max_pending_input_trace_count (length (t ∷ ts)) then rest else t ∷ ts

abbrev pub started_at : ℕ → Option ℕ → ℕ
started_at now none = now
started_at now (some start) = start

unfoldable pub record_input_sent :
    Bool → ℕ → InputMessageType → ℕ → Bool → InputFeedbackTracker → InputFeedbackTracker
record_input_sent enabled now type sequence pressed t =
    let start = started_at now t.round_trip_timer in
    let trace : PendingInputTrace = record {
      sent_ms = now - start;
      type = type;
      key_pressed = pressed;
    } in
    if not enabled then t else record t {
      round_trip_timer = some start;
      sent_traces = insert_trace sequence trace (make_room t.sent_traces);
    }

-- The for loop of handleRendered.
abbrev pub erase_rendered : ℕ → List (ℕ × PendingInputTrace) → List (ℕ × PendingInputTrace)
erase_rendered seq [] = []
erase_rendered seq ((j, q) ∷ ts) =
    let rest = erase_rendered seq ts in
    if (j % 2 == seq % 2) && leb j seq then rest else (j, q) ∷ rest

-- std::sort.
abbrev pub insert_sample : ℕ → List ℕ → List ℕ
insert_sample x [] = x ∷ []
insert_sample x (y ∷ ys) = let rest = insert_sample x ys in if leb x y then x ∷ y ∷ ys else y ∷ rest

unfoldable pub sort : List ℕ → List ℕ
sort [] = []
sort (x ∷ xs) = insert_sample x (sort xs)

abbrev pub total : List ℕ → ℕ
total [] = 0
total (x ∷ xs) = x + total xs

-- QVector::at.
abbrev pub at : ℕ → List ℕ → Option ℕ
at i [] = none
at zero (x ∷ xs) = some x
at (suc i) (x ∷ xs) = at i xs

abbrev pub stats_line : EventName → ℕ → ℕ → ℕ → Option ℕ → Option ℕ → Option ℕ → LogLine
stats_line name samples total_samples average (some p50) (some p95) (some m) = stats (record {
  name = name;
  samples = samples;
  total_samples = total_samples;
  average_ms = average;
  p50_ms = p50;
  p95_ms = p95;
  max_ms = m;
})
stats_line _ _ _ _ _ _ _ = out_of_range

unfoldable pub log_round_trip_stats : EventName → InputFeedbackTracker → List LogLine
log_round_trip_stats name t =
    let sorted = sort t.round_trip_samples in
    let n = length sorted in
    if length t.round_trip_samples == 0
    then []
    else stats_line name n t.round_trip_sample_count ((total sorted + n / 2) / n)
        (at ((n - 1) * 50 / 100) sorted) (at ((n * 95 + 99) / 100 - 1) sorted) (at (n - 1) sorted)
      ∷ []

abbrev pub is_key : InputMessageType → Bool
is_key key = true
is_key _ = false

-- The sample goes to the end, and the oldest one may have to go.
unfoldable pub add_sample : ℕ → InputFeedbackTracker → InputFeedbackTracker
add_sample ms t =
    let kept =
      if leb input_round_trip_window_size (length t.round_trip_samples)
      then drop 1 t.round_trip_samples
      else t.round_trip_samples in
    record t {
      round_trip_samples = kept ++ ms ∷ [];
      round_trip_sample_count = (t.round_trip_sample_count + 1) % 2 ^ 64;
    }

-- The end of handleRendered, with the time of the round trip.
unfoldable pub measure :
    ℕ → ℕ → PendingInputTrace → InputFeedbackTracker → InputFeedbackTracker × List LogLine
measure seq ms trace t =
    let included = not (is_key trace.type) || trace.key_pressed in
    let line = round_trip seq trace.type trace.key_pressed ms included in
    let u = add_sample ms t in
    if not included
    then (t, line ∷ [])
    else if u.round_trip_sample_count % input_round_trip_stats_interval == 0
    then (u, line ∷ log_round_trip_stats round_trip_stats u)
    else (u, line ∷ [])

-- The rest of handleRendered from where the table is cleared.
unfoldable pub answer_trace :
    ℕ → ℕ → Option PendingInputTrace → InputFeedbackTracker → InputFeedbackTracker × List LogLine
answer_trace seq elapsed none t = (t, [])
answer_trace seq elapsed (some trace) t =
    if ltb elapsed trace.sent_ms then (t, []) else measure seq (elapsed - trace.sent_ms) trace t

unfoldable pub handle_rendered :
    Bool → ℕ → ℕ → InputFeedbackTracker → InputFeedbackTracker × List LogLine
handle_rendered enabled now seq t =
    let left : InputFeedbackTracker = record t { sent_traces = erase_rendered seq t.sent_traces } in
    if not enabled || seq == 0 then (t, []) else elim t.round_trip_timer [
      | none ↦ (t, [])
      | some start ↦ answer_trace seq (now - start) (find_trace seq t.sent_traces) left
    ]

unfoldable pub reset : Bool → InputFeedbackTracker → InputFeedbackTracker × List LogLine
reset enabled t = (
  record t {
    sent_traces = [];
    round_trip_samples = [];
    round_trip_sample_count = 0;
    round_trip_timer = none;
  },
  if enabled then log_round_trip_stats round_trip_summary t else [],
)
