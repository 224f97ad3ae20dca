-- ===== src/Security/FailureTracker/Bounds.antt =====
-- What KSourceFailureTracker holds at most.
use win_remote_control.Prelude.{
  ℕ, ◌≤◌, ◌<◌, ◌≡◌, sym, subst, inl, inr, true, false, arith, String, str_eq, Bool-cases, length,
}
use win_remote_control.Security.FailureTracker.{
  add_failure, record_failure, oldest_source, evict_oldest_source, make_place, new, prune,
  SourceFailureTracker,
}
use win_remote_control.Security.FailureTracker.Table.{
  add_failure_lem, AllEntries-later, remove_lem, has-named, oldest_source_found, has,
  prune_failures-AllEntries, AllEntries,
}
use win_remote_control.Security.FailureTracker.Distinct.{
  add_failure-Distinct, remove-Distinct, prune_failures-Distinct, Distinct,
}

-- The table at a time that is not before any of its failures.
pub record IsValid (now : ℕ) (k : SourceFailureTracker) : Type 0 where
  pub some_limit : 0 < k.maximum_failures
  pub some_sources : 0 < k.maximum_sources
  pub some_window : 0 < k.window_ms
  pub entries : AllEntries k.maximum_failures now k.failures
  pub distinct : Distinct k.failures
  pub capped : length k.failures ≤ k.maximum_sources

pub new-IsValid : (f w s now : ℕ) → IsValid now (new f w s)
unfolding new
new-IsValid f w s now = ground arith

pub prune-IsValid :
    (k : SourceFailureTracker) (before now : ℕ)
    → before ≤ now
    → IsValid before k
    → IsValid now (prune k now)
prune-IsValid k before now h v =
    let e =
      prune_failures-AllEntries k.window_ms now k.maximum_failures before k.failures h v.entries in
    record {
      some_limit = v.some_limit;
      some_sources = v.some_sources;
      some_window = v.some_window;
      entries = e.0;
      distinct = prune_failures-Distinct k.window_ms now k.failures v.distinct;
      capped = omega (arith, e.1, v.capped);
    }

-- Making a place removes the source that has been quiet longest, if the table is full.
pub make_place_lem :
    (k : SourceFailureTracker) (s : String) (now : ℕ)
    → IsValid now k
    → let r = make_place k s now in
      IsValid now r
      × (r.maximum_failures ≡ k.maximum_failures)
      × (r.maximum_sources ≡ k.maximum_sources)
      × (has s k.failures ≡ true → r ≡ k)
      × (has s k.failures ≡ false → length r.failures < r.maximum_sources)
unfolding make_place evict_oldest_source
make_place_lem k s now v =
    let oldest : String = oldest_source "" now k.failures in
    ground (
      arith,
      oldest_source_found k.maximum_failures now k.failures,
      has-named k.maximum_failures now oldest k.failures v.entries,
      remove_lem k.maximum_failures now oldest k.failures v.entries,
      remove-Distinct oldest k.failures v.distinct,
    )

add_to_place :
    (k : SourceFailureTracker) (s : String) (now : ℕ)
    → str_eq s "" ≡ false
    → IsValid now k
    → let r = make_place k s now in
      IsValid now (record r { failures = add_failure r.maximum_failures s now r.failures })
add_to_place k s now named v =
    let r : SourceFailureTracker = make_place k s now in
    let place = make_place_lem k s now v in
    let added =
      add_failure_lem r.maximum_failures now s r.failures place.0.some_limit named
        place.0.entries in
    record {
      some_limit = place.0.some_limit;
      some_sources = place.0.some_sources;
      some_window = place.0.some_window;
      entries = added.0;
      distinct = add_failure-Distinct r.maximum_failures now s r.failures place.0.distinct;
      capped = elim (Bool-cases (has s k.failures)) [
        | inl here ↦
            let same = place.3 here in
            let still : has s r.failures ≡ true =
              subst (λ q. has s q.failures ≡ true) (sym same) here in
            ground (arith, added.1, place.0.capped, still)
        | inr new ↦ ground (arith, added.1, place.4 new)
      ];
    }

-- Recording a failure, at a time not before the earlier ones, keeps the table valid: no more
-- sources than the limit, each with at least one and at most the limit of failures in the order of
-- time, and no source twice.
pub record_failure-IsValid :
    (k : SourceFailureTracker) (s : String) (before now : ℕ)
    → before ≤ now
    → IsValid before k
    → IsValid now (record_failure k s now)
unfolding record_failure
record_failure-IsValid k s before now h v = elim (Bool-cases (str_eq s "")) [
  | inl unnamed ↦
      rw (unnamed, record_failure)
        (record {
          some_limit = v.some_limit;
          some_sources = v.some_sources;
          some_window = v.some_window;
          entries = AllEntries-later k.maximum_failures before now k.failures h v.entries;
          distinct = v.distinct;
          capped = v.capped;
        })
  | inr named ↦
      rw (named, record_failure)
        (add_to_place (prune k now) s now named (prune-IsValid k before now h v))
]
