-- ===== src/Media/LatestFrame.antt =====
-- KLatestDecodedFrameQueue (src/core/media/latestdecodedframequeue.h and .cpp): the newest decoded
-- frame on its way from the decoder to the window. Every method runs under the mutex, so a call is a
-- step. Of a frame its index, its bytes and the time of enqueuing are kept; what hasPixels answers,
-- which may change when a render session ends, comes with the call. A null `pFrame` is not modelled.
pub mod Accounts
mod Tests
use win_remote_control.Prelude.{
  Outcome, ok, err, passed, ℕ, zero, suc, ◌+◌, ◌-◌, ◌*◌, ◌/◌, ◌%◌, ◌^◌, ◌≤◌, ◌<◌, min, max, ◌≡◌,
  refl, sym, ap, subst, ◌∙◌, ◌≢◌, ◌↔◌, ◌⊎◌, inl, inr, Bool, true, false, not, ◌&&◌, ◌||◌, Option,
  none, some, List, [], ◌∷◌, ◌++◌, map, Memᴰ, append-nil, append_assoc, arith, String, str_eq,
  str_eq_iff, ltb, leb, ◌==◌, if◌then◌else◌, ltb→lt, lt→ltb, leb→le, ==_iff, tests, Bool-cases,
  Option-cases, length, take, drop, length-append, length-drop, take-append_length,
  drop-append_length, List-cases, take_all, length-take, byte_at, write_le, write_be, read_le,
  read_be, byte_at-append, take-append, drop-append, byte_at-skip, drop-skip, take-skip,
}

pub record DecodedVideoFrame : Type 0 where
  pub frame_index : ℕ
  pub bytes : List ℕ
  pub render_enqueued_at : Option ℕ  -- -1 is none

abbrev pub no_frame : DecodedVideoFrame
no_frame = record { frame_index = 0; bytes = []; render_enqueued_at = none }

pub record LatestDecodedFrameQueueStats : Type 0 where
  pub received : ℕ  -- quint64
  pub presented : ℕ
  pub coalesced : ℕ

abbrev pub no_stats : LatestDecodedFrameQueueStats
no_stats = record { received = 0; presented = 0; coalesced = 0 }

pub record LatestDecodedFrameEnqueueResult : Type 0 where
  pub stats : LatestDecodedFrameQueueStats
  pub needs_presentation : Bool
  pub frame_coalesced : Bool

pub record LatestDecodedFrameQueue : Type 0 where
  pub latest_frame : DecodedVideoFrame
  pub stats : LatestDecodedFrameQueueStats
  pub has_pending_frame : Bool
  pub presentation_queued : Bool

abbrev pub new_queue : LatestDecodedFrameQueue
new_queue = record {
  latest_frame = no_frame;
  stats = no_stats;
  has_pending_frame = false;
  presentation_queued = false;
}

-- `++` on a quint64.
abbrev pub next : ℕ → ℕ
next n = (n + 1) % 2 ^ 64

unfoldable pub enqueue :
    Bool
    → DecodedVideoFrame
    → ℕ
    → LatestDecodedFrameQueue
    → LatestDecodedFrameQueue × LatestDecodedFrameEnqueueResult
enqueue has_pixels frame enqueued_at q =
    let stats = record q.stats {
      received = next q.stats.received;
      coalesced = if q.has_pending_frame then next q.stats.coalesced else q.stats.coalesced;
    } in
    if not has_pixels
    then (q, record { stats = q.stats; needs_presentation = false; frame_coalesced = false })
    else (
      record {
        latest_frame = record frame { render_enqueued_at = some enqueued_at };
        stats = stats;
        has_pending_frame = true;
        presentation_queued = true;
      },
      record {
        stats = stats;
        needs_presentation = not q.presentation_queued;
        frame_coalesced = q.has_pending_frame;
      },
    )

-- `none` where the source answers false. The frame that is moved out leaves its place unspecified:
-- the place is not read again before an assignment, and the model leaves the frame there.
unfoldable pub take_latest :
    Bool → LatestDecodedFrameQueue → LatestDecodedFrameQueue × Option DecodedVideoFrame
take_latest has_pixels q =
    if not q.has_pending_frame || not has_pixels
    then (
      record q { latest_frame = no_frame; has_pending_frame = false; presentation_queued = false },
      none,
    )
    else (record q { has_pending_frame = false }, some q.latest_frame)

unfoldable pub record_presented :
    LatestDecodedFrameQueue → LatestDecodedFrameQueue × LatestDecodedFrameQueueStats
record_presented q =
    let stats = record q.stats { presented = next q.stats.presented } in
    (record q { stats = stats }, stats)

-- Whether the presentation has to go on.
unfoldable pub complete_presentation : LatestDecodedFrameQueue → LatestDecodedFrameQueue × Bool
complete_presentation q =
    if q.has_pending_frame then (q, true) else (record q { presentation_queued = false }, false)

unfoldable pub clear :
    LatestDecodedFrameQueue → LatestDecodedFrameQueue × LatestDecodedFrameQueueStats
clear q = (new_queue, q.stats)
