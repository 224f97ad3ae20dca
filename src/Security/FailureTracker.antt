-- ===== src/Security/FailureTracker.antt =====
-- KSourceFailureTracker (src/core/security/sourcefailuretracker.h and .cpp):
-- how often pairing with a source has failed lately. The hash table is an
-- association list, in the order in which an iteration of it comes by the entries; the theorems hold
-- for any such order. Times are milliseconds since the epoch, so not negative.
pub mod Table
pub mod Distinct
pub mod Bounds
pub mod Window
pub mod Recording
mod Tests
use win_remote_control.Prelude.{
  ℕ, zero, suc, ◌+◌, ◌-◌, ◌*◌, ◌/◌, ◌%◌, ◌^◌, ◌≤◌, ◌<◌, min, max, ◌≡◌, refl, sym, ap, subst, ◌∙◌,
  ◌≢◌, ◌↔◌, ◌⊎◌, inl, inr, Bool, true, false, not, ◌&&◌, ◌||◌, Option, none, some, List, [], ◌∷◌,
  ◌++◌, map, Memᴰ, append-nil, append_assoc, arith, String, str_eq, str_eq_iff, ltb, leb, ◌==◌,
  if◌then◌else◌, ltb→lt, lt→ltb, leb→le, ==_iff, tests, Bool-cases, Option-cases, length, take,
  drop, length-append, length-drop, take-append_length, drop-append_length, byte_at, write_le,
  write_be, read_le, read_be, byte_at-append, take-append, drop-append,
}

abbrev pub Failures : Type 0
Failures = List (String × List ℕ)

pub record SourceFailureTracker : Type 0 where
  pub maximum_failures : ℕ
  pub window_ms : ℕ
  pub maximum_sources : ℕ
  pub failures : Failures

-- The constructor, with its qMax on each limit.
unfoldable pub new : ℕ → ℕ → ℕ → SourceFailureTracker
new maximum_failures window_ms maximum_sources = record {
  maximum_failures = max 1 maximum_failures;
  window_ms = max 1 window_ms;
  maximum_sources = max 1 maximum_sources;
  failures = [];
}

-- while (!failures.isEmpty() && failures.first() <= now - window) failures.removeFirst(); the
-- difference is signed, so the test reads first + window <= now.
unfoldable pub drop_expired : ℕ → ℕ → List ℕ → List ℕ
drop_expired window now [] = []
drop_expired window now (t ∷ ts) =
    let rest = drop_expired window now ts in if leb (t + window) now then rest else t ∷ ts

unfoldable pub prune_failures : ℕ → ℕ → Failures → Failures
prune_failures window now [] = []
prune_failures window now ((source, ts) ∷ fs) = elim (drop_expired window now ts) [
  | [] ↦ prune_failures window now fs
  | t ∷ kept ↦ (source, t ∷ kept) ∷ prune_failures window now fs
]

abbrev pub prune : SourceFailureTracker → ℕ → SourceFailureTracker
prune k now = record k { failures = prune_failures k.window_ms now k.failures }

unfoldable pub find : String → Failures → Option (List ℕ)
find source [] = none
find source ((s, ts) ∷ fs) = if str_eq s source then some ts else find source fs

unfoldable pub remove : String → Failures → Failures
remove source [] = []
remove source ((s, ts) ∷ fs) = if str_eq s source then fs else (s, ts) ∷ remove source fs

abbrev pub last : List ℕ → Option ℕ
last [] = none
last (t ∷ []) = some t
last (t ∷ u ∷ ts) = last (u ∷ ts)

-- The loop of evictOldestSource, over the entries left, with the best so far.
unfoldable pub oldest_source : String → ℕ → Failures → String
oldest_source best best_ms [] = best
oldest_source best best_ms ((s, ts) ∷ fs) = elim (last ts) [
  | none ↦ oldest_source best best_ms fs
  | some t ↦
      oldest_source (if leb t best_ms then s else best) (if leb t best_ms then t else best_ms) fs
]

unfoldable pub evict_oldest_source : SourceFailureTracker → ℕ → SourceFailureTracker
evict_oldest_source k now =
    let oldest = oldest_source "" now k.failures in
    if not (str_eq oldest "") then record k { failures = remove oldest k.failures } else k

-- m_failures[source], then append if the list is short of the limit.
unfoldable pub add_failure : ℕ → String → ℕ → Failures → Failures
add_failure limit source now [] = (source, if ltb 0 limit then now ∷ [] else []) ∷ []
add_failure limit source now ((s, ts) ∷ fs) =
    if str_eq s source
    then (s, if ltb (length ts) limit then ts ++ now ∷ [] else ts) ∷ fs
    else (s, ts) ∷ add_failure limit source now fs

unfoldable pub is_rate_limited : SourceFailureTracker → String → ℕ → SourceFailureTracker × Bool
is_rate_limited k source now =
    if str_eq source ""
    then (k, false)
    else let p = prune k now in
      elim (find source p.failures) [
        | none ↦ (p, false)
        | some ts ↦ (p, leb p.maximum_failures (length ts))
      ]

abbrev pub is_some : Option (List ℕ) → Bool
is_some none = false
is_some (some ts) = true

-- The eviction that `recordFailure` makes before it adds a source.
unfoldable pub make_place : SourceFailureTracker → String → ℕ → SourceFailureTracker
make_place p source now =
    if not (is_some (find source p.failures)) && leb p.maximum_sources (length p.failures)
    then evict_oldest_source p now
    else p

unfoldable pub record_failure : SourceFailureTracker → String → ℕ → SourceFailureTracker
record_failure k source now =
    if str_eq source ""
    then k
    else let r = make_place (prune k now) source now in
      record r { failures = add_failure r.maximum_failures source now r.failures }

abbrev pub tracked_source_count : SourceFailureTracker → ℕ
tracked_source_count k = length k.failures

unfoldable pub clear : SourceFailureTracker → SourceFailureTracker
clear k = record k { failures = [] }
