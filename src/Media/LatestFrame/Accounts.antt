-- ===== src/Media/LatestFrame/Accounts.antt =====
-- The frames of KLatestDecodedFrameQueue accounted for, by what its callers see.
use win_remote_control.Prelude.{
  ℕ, ◌+◌, ◌%◌, ◌^◌, ◌≤◌, ◌≡◌, refl, Bool, true, false, ◌||◌, Option, none, some, List, [], ◌∷◌,
  arith, if◌then◌else◌,
}
use win_remote_control.Media.LatestFrame.{
  DecodedVideoFrame, LatestDecodedFrameEnqueueResult, LatestDecodedFrameQueue,
  LatestDecodedFrameQueueStats, clear, complete_presentation, enqueue, new_queue, no_frame,
  record_presented, take_latest,
}

-- The calls of the decoder and of the window.
pub data Event : Type 0 where
  enqueues : Bool → DecodedVideoFrame → ℕ → Event
  takes : Bool → Event
  presents completes clears : Event

-- What the callers can know since the last call of `clear`: how many frames went in, how many of them
-- replaced one, came out, or were found without pixels, how many were presented, whether a frame waits
-- and which, and whether a presentation that was asked for is still to end.
pub record Accounts : Type 0 where
  pub received : ℕ
  pub coalesced : ℕ
  pub taken : ℕ
  pub lost : ℕ
  pub presented : ℕ
  pub waiting : Bool
  pub newest : DecodedVideoFrame
  pub outstanding : Bool

abbrev pub no_accounts : Accounts
no_accounts = record {
  received = 0;
  coalesced = 0;
  taken = 0;
  lost = 0;
  presented = 0;
  waiting = false;
  newest = no_frame;
  outstanding = false;
}

-- The queue with the accounts, and from every call of `clear`, the last one first, what it answered and
-- the accounts that it ended.
pub record Watched : Type 0 where
  pub queue : LatestDecodedFrameQueue
  pub accounts : Accounts
  pub reports : List LatestDecodedFrameQueueStats
  pub closed : List Accounts

abbrev pub opened : Watched
opened = record { queue = new_queue; accounts = no_accounts; reports = []; closed = [] }

abbrev pub after_enqueue :
    Bool → DecodedVideoFrame → ℕ → LatestDecodedFrameEnqueueResult → Accounts → Accounts
after_enqueue false frame at r a = a
after_enqueue true frame at r a = record a {
  received = a.received + 1;
  coalesced = if r.frame_coalesced then a.coalesced + 1 else a.coalesced;
  waiting = true;
  newest = record frame { render_enqueued_at = some at };
  outstanding = a.outstanding || r.needs_presentation;
}

abbrev pub after_take : Option DecodedVideoFrame → Accounts → Accounts
after_take (some frame) a = record a { taken = a.taken + 1; waiting = false }
after_take none a = record a {
  lost = if a.waiting then a.lost + 1 else a.lost;
  waiting = false;
  outstanding = false;
}

abbrev pub after_complete : Bool → Accounts → Accounts
after_complete true a = a
after_complete false a = record a { outstanding = false }

unfoldable pub step : Event → Watched → Watched
step (enqueues has_pixels frame at) w =
    let r = enqueue has_pixels frame at w.queue in
    record w { queue = r.0; accounts = after_enqueue has_pixels frame at r.1 w.accounts }
step (takes has_pixels) w =
    let r = take_latest has_pixels w.queue in
    record w { queue = r.0; accounts = after_take r.1 w.accounts }
step presents w = record w {
  queue = (record_presented w.queue).0;
  accounts = record w.accounts { presented = w.accounts.presented + 1 };
}
step completes w =
    let r = complete_presentation w.queue in
    record w { queue = r.0; accounts = after_complete r.1 w.accounts }
step clears w =
    let r = clear w.queue in
    record {
      queue = r.0;
      accounts = no_accounts;
      reports = r.1 ∷ w.reports;
      closed = w.accounts ∷ w.closed;
    }

unfoldable pub run : List Event → Watched → Watched
run [] w = w
run (e ∷ es) w = run es (step e w)

abbrev pub one_if : Bool → ℕ
one_if true = 1
one_if false = 0

-- The counters are the numbers of the accounts, in 64 bits.
abbrev pub Counts : LatestDecodedFrameQueueStats → Accounts → Type 0
Counts s a =
    (s.received ≡ a.received % 2 ^ 64)
    × (s.coalesced ≡ a.coalesced % 2 ^ 64)
    × (s.presented ≡ a.presented % 2 ^ 64)

-- Each frame that went in was replaced by a newer one, came out, was found without pixels, or waits.
abbrev pub IsSettled : Accounts → Type 0
IsSettled a = a.received ≡ a.coalesced + a.taken + a.lost + one_if a.waiting

-- Each answer of `clear` against the accounts that it ended.
abbrev pub AreReported : List LatestDecodedFrameQueueStats → List Accounts → Type 0
AreReported [] [] = 0 ≤ 0
AreReported (s ∷ ss) (a ∷ others) = Counts s a × IsSettled a × AreReported ss others
AreReported _ _ = ⊥

-- The queue's own state against the accounts.
pub record IsBalanced (w : Watched) : Type 0 where
  pub frames : IsSettled w.accounts
  pub counted : Counts w.queue.stats w.accounts
  pub reported : AreReported w.reports w.closed
  pub pending : w.queue.has_pending_frame ≡ w.accounts.waiting
  pub newest : w.accounts.waiting ≡ true → w.queue.latest_frame ≡ w.accounts.newest
  pub queued : w.queue.presentation_queued ≡ w.accounts.outstanding
  pub scheduled : w.accounts.waiting ≡ true → w.accounts.outstanding ≡ true

next_lem : (m n : ℕ) → m ≡ n % 2 ^ 64 → (m + 1) % 2 ^ 64 ≡ (n + 1) % 2 ^ 64
next_lem m n e = omega arith

step-IsBalanced : (e : Event) (w : Watched) → IsBalanced w → IsBalanced (step e w)
unfolding step enqueue take_latest record_presented complete_presentation clear
step-IsBalanced (enqueues true frame at) w v = ground (
  arith,
  next_lem w.queue.stats.received w.accounts.received v.counted.0,
  next_lem w.queue.stats.coalesced w.accounts.coalesced v.counted.1,
)
step-IsBalanced (enqueues false frame at) w v = ground arith
step-IsBalanced (takes b) w v = ground arith
step-IsBalanced presents w v =
    ground (arith, next_lem w.queue.stats.presented w.accounts.presented v.counted.2)
step-IsBalanced completes w v = ground arith
step-IsBalanced clears w v = record {
  frames = refl;
  counted = (refl, refl, refl);
  reported = (v.counted, v.frames, v.reported);
  pending = refl;
  newest = λ e. cc;
  queued = refl;
  scheduled = λ e. cc;
}

run-IsBalanced_from : (es : List Event) (w : Watched) → IsBalanced w → IsBalanced (run es w)
unfolding run
run-IsBalanced_from [] w v = v
run-IsBalanced_from (e ∷ es) w v = run-IsBalanced_from es (step e w) (step-IsBalanced e w v)

-- After any calls of the decoder and the window on a new queue, every frame that went in since the
-- last `clear` has been replaced by a newer one, has come out, was found without pixels, or waits; the
-- counters of the queue are these numbers and the number of presented frames, in 64 bits; each `clear`
-- has answered the counters of what it ended, for which the same holds; the frame that waits is the
-- newest; and while one waits, a presentation that was asked for since the last `clear` has not ended,
-- so it is not forgotten.
pub run-IsBalanced : (es : List Event) → IsBalanced (run es opened)
run-IsBalanced es = run-IsBalanced_from es opened (ground arith)
