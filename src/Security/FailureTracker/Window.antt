-- ===== src/Security/FailureTracker/Window.antt =====
-- When KSourceFailureTracker limits a source, in terms of the failures in the window.
use win_remote_control.Prelude.{
  ℕ, suc, ◌+◌, ◌≤◌, ◌<◌, ◌≡◌, refl, inl, inr, true, false, none, some, List, [], ◌∷◌, arith, String,
  str_eq, str_eq_iff, ltb, leb, if◌then◌else◌, length, List-cases,
}
use win_remote_control.Security.FailureTracker.{
  is_rate_limited, find, Failures, drop_expired, prune_failures, SourceFailureTracker,
}
use win_remote_control.Security.FailureTracker.Table.{AllEntries, IsSorted, IsSorted-tail, has}
use win_remote_control.Security.FailureTracker.Distinct.{Distinct, has-prune_failures}
use win_remote_control.Security.FailureTracker.Bounds.{prune-IsValid, IsValid}

-- How many failures are younger than the window.
abbrev pub recent : ℕ → ℕ → List ℕ → ℕ
recent window now [] = 0
recent window now (t ∷ ts) =
    if ltb now (t + window) then suc (recent window now ts) else recent window now ts

abbrev pub recent_in : ℕ → ℕ → String → Failures → ℕ
recent_in window now s fs = elim (find s fs) [ none ↦ 0 | some ts ↦ recent window now ts ]

abbrev pub size_in : String → Failures → ℕ
size_in s fs = elim (find s fs) [ none ↦ 0 | some ts ↦ length ts ]

pub recent_all :
    (window now hi t : ℕ) (ts : List ℕ)
    → IsSorted (t ∷ ts) hi
    → now < t + window
    → recent window now ts ≡ length ts
recent_all window now hi t [] s h = refl
recent_all window now hi t (u ∷ ts) s h = ground (arith, s.0, recent_all window now hi u ts s.1)

length-drop_expired :
    (window now hi : ℕ) (ts : List ℕ)
    → IsSorted ts hi
    → length (drop_expired window now ts) ≡ recent window now ts
unfolding drop_expired
length-drop_expired window now hi [] s = refl
length-drop_expired window now hi (t ∷ ts) s = ground (
  arith,
  recent_all window now hi t ts s,
  length-drop_expired window now hi ts (IsSorted-tail t ts hi s),
)

pub size_in-none : (s : String) (fs : Failures) → has s fs ≡ false → size_in s fs ≡ 0
size_in-none s fs h = ground arith

-- What is left of a source after pruning are its failures in the window.
pub size_in-prune_failures :
    (limit window now hi : ℕ) (s : String) (fs : Failures)
    → AllEntries limit hi fs
    → Distinct fs
    → size_in s (prune_failures window now fs) ≡ recent_in window now s fs
unfolding prune_failures find
size_in-prune_failures limit window now hi s [] a d = refl
size_in-prune_failures limit window now hi s ((r, ts) ∷ fs) a d =
    let size = length-drop_expired window now hi ts a.0.sorted in
    let rest = size_in-prune_failures limit window now hi s fs a.1 d.1 in
    let gone : str_eq r s ≡ true → has s (prune_failures window now fs) ≡ false =
      λ same. has-prune_failures window now s fs (rw ((str_eq_iff r s).0 same) at d.0) in
    elim (List-cases (drop_expired window now ts)) [
      | inl e ↦
          let none_left : 0 ≡ recent window now ts = rw e at size in
          rw (e, prune_failures)
            (ground (arith, rest, none_left, gone, size_in-none s (prune_failures window now fs)))
      | inr (t, us, e) ↦
          let left : suc (length us) ≡ recent window now ts = rw e at size in
          rw (e, prune_failures) (ground (arith, rest, left))
    ]

-- In a valid table, at a time not before the earlier ones, a named source is limited exactly when at
-- least the maximum of its recorded failures are younger than the window; and the table stays valid
-- when it is asked.
pub is_rate_limited-recent :
    (k : SourceFailureTracker) (s : String) (before now : ℕ)
    → before ≤ now
    → str_eq s "" ≡ false
    → IsValid before k
    → ((is_rate_limited k s now).1
        ≡ leb k.maximum_failures (recent_in k.window_ms now s k.failures))
      × IsValid now (is_rate_limited k s now).0
unfolding is_rate_limited
is_rate_limited-recent k s before now h named v = ground (
  arith,
  v.some_limit,
  prune-IsValid k before now h v,
  size_in-prune_failures k.maximum_failures k.window_ms now before s k.failures v.entries
      v.distinct,
)
