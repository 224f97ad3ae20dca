-- ===== src/Security/FailureTracker/Recording.antt =====
-- What KSourceFailureTracker::recordFailure does to the count of recent failures.
use win_remote_control.Prelude.{
  ℕ, suc, ◌≤◌, ◌<◌, min, ◌≡◌, refl, inl, inr, false, List, [], ◌∷◌, ◌++◌, arith, String, str_eq,
  str_eq_iff, ltb, if◌then◌else◌, length, List-cases,
}
use win_remote_control.Security.FailureTracker.{
  oldest_source, Failures, evict_oldest_source, prune, add_failure, drop_expired, find, make_place,
  prune_failures, record_failure, SourceFailureTracker,
}
use win_remote_control.Security.FailureTracker.Table.{AllEntries, IsSorted, IsSorted-tail}
use win_remote_control.Security.FailureTracker.Distinct.{has-remove}
use win_remote_control.Security.FailureTracker.Bounds.{IsValid, prune-IsValid, make_place_lem}
use win_remote_control.Security.FailureTracker.Window.{
  recent, recent_in, recent_all, size_in, size_in-prune_failures,
}

recent-drop_expired :
    (window now hi : ℕ) (ts : List ℕ)
    → IsSorted ts hi
    → recent window now (drop_expired window now ts) ≡ length (drop_expired window now ts)
unfolding drop_expired
recent-drop_expired window now hi [] s = refl
recent-drop_expired window now hi (t ∷ ts) s = ground (
  arith,
  recent_all window now hi t ts s,
  recent-drop_expired window now hi ts (IsSorted-tail t ts hi s),
)

-- After pruning every failure is recent.
recent_in-prune_failures :
    (limit window now hi : ℕ) (s : String) (fs : Failures)
    → AllEntries limit hi fs
    → recent_in window now s (prune_failures window now fs)
      ≡ size_in s (prune_failures window now fs)
unfolding prune_failures find
recent_in-prune_failures limit window now hi s [] a = refl
recent_in-prune_failures limit window now hi s ((r, ts) ∷ fs) a =
    let all = recent-drop_expired window now hi ts a.0.sorted in
    let rest = recent_in-prune_failures limit window now hi s fs a.1 in
    elim (List-cases (drop_expired window now ts)) [
      | inl e ↦ rw (e, prune_failures) rest
      | inr (t, us, e) ↦
          let all' : recent window now (t ∷ us) ≡ suc (length us) = rw e at all in
          rw (e, prune_failures) (ground (arith, rest, all'))
    ]

recent-append :
    (window now : ℕ) (ts : List ℕ)
    → 0 < window
    → recent window now (ts ++ now ∷ []) ≡ suc (recent window now ts)
recent-append window now [] w = ground arith
recent-append window now (t ∷ ts) w = ground (arith, recent-append window now ts w)

recent_in-add_failure :
    (limit window now : ℕ) (s : String) (fs : Failures)
    → 0 < limit
    → 0 < window
    → recent_in window now s (add_failure limit s now fs) ≡ (
        if ltb (size_in s fs) limit
        then suc (recent_in window now s fs)
        else recent_in window now s fs)
unfolding add_failure find
recent_in-add_failure limit window now s [] l w = ground (arith, str_eq_iff s s)
recent_in-add_failure limit window now s ((r, ts) ∷ fs) l w =
    ground (arith, recent-append window now ts w, recent_in-add_failure limit window now s fs l w)

make_place-in :
    (k : SourceFailureTracker) (s : String) (now : ℕ)
    → IsValid now k
    → let r = make_place k s now in
      (recent_in k.window_ms now s r.failures ≡ recent_in k.window_ms now s k.failures)
      × (size_in s r.failures ≡ size_in s k.failures)
unfolding make_place evict_oldest_source
make_place-in k s now v =
    let oldest : String = oldest_source "" now k.failures in
    ground (arith, has-remove s oldest k.failures)

size_in-le :
    (limit now : ℕ) (s : String) (fs : Failures) → AllEntries limit now fs → size_in s fs ≤ limit
unfolding find
size_in-le limit now s [] a = omega arith
size_in-le limit now s ((r, ts) ∷ fs) a = ground (arith, size_in-le limit now s fs a.1, a.0.bounded)

-- In a valid table, recording a failure of a named source at a time not before the earlier ones adds
-- one to that source's failures in the window, up to the maximum: evicting another source to make a
-- place never costs this one a failure.
pub recent_in-record_failure :
    (k : SourceFailureTracker) (s : String) (before now : ℕ)
    → before ≤ now
    → str_eq s "" ≡ false
    → IsValid before k
    → recent_in k.window_ms now s (record_failure k s now).failures
      ≡ min k.maximum_failures (suc (recent_in k.window_ms now s k.failures))
unfolding record_failure
recent_in-record_failure k s before now h named v =
    let p = prune k now in
    let valid = prune-IsValid k before now h v in
    let r = make_place p s now in
    ground (
      arith,
      make_place_lem p s now valid,
      make_place-in p s now valid,
      recent_in-add_failure r.maximum_failures k.window_ms now s r.failures,
      recent_in-prune_failures k.maximum_failures k.window_ms now before s k.failures v.entries,
      size_in-prune_failures k.maximum_failures k.window_ms now before s k.failures v.entries
          v.distinct,
      size_in-le k.maximum_failures now s p.failures valid.entries,
      v.some_limit,
      v.some_window,
    )
