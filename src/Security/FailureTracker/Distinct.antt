-- ===== src/Security/FailureTracker/Distinct.antt =====
-- The sources of KSourceFailureTracker's table differ, as the keys of a hash table do.
use win_remote_control.Prelude.{
  ℕ, ◌≡◌, inl, inr, false, [], ◌∷◌, arith, String, str_eq, str_eq_iff, List-cases,
}
use win_remote_control.Security.FailureTracker.{
  drop_expired, find, add_failure, prune_failures, remove, Failures,
}
use win_remote_control.Security.FailureTracker.Table.{has}

abbrev pub Distinct : Failures → Type 0
Distinct [] = Unit {0}
Distinct ((s, ts) ∷ fs) = (has s fs ≡ false) × Distinct fs

pub has-prune_failures :
    (window now : ℕ) (s : String) (fs : Failures)
    → has s fs ≡ false
    → has s (prune_failures window now fs) ≡ false
unfolding prune_failures find
has-prune_failures window now s [] h = h
has-prune_failures window now s ((r, ts) ∷ fs) h = elim (List-cases (drop_expired window now ts)) [
  | inl e ↦ rw (e, prune_failures) (has-prune_failures window now s fs (ground arith))
  | inr (t, us, e) ↦ rw (e, prune_failures) (ground (arith, has-prune_failures window now s fs))
]

pub prune_failures-Distinct :
    (window now : ℕ) (fs : Failures) → Distinct fs → Distinct (prune_failures window now fs)
unfolding prune_failures
prune_failures-Distinct window now [] d = tt
prune_failures-Distinct window now ((r, ts) ∷ fs) d =
    elim (List-cases (drop_expired window now ts)) [
      | inl e ↦ rw (e, prune_failures) (prune_failures-Distinct window now fs d.1)
      | inr (t, us, e) ↦
          rw (e, prune_failures)
            (has-prune_failures window now r fs d.0, prune_failures-Distinct window now fs d.1)
    ]

pub has-remove : (s r : String) (fs : Failures) → has s fs ≡ false → has s (remove r fs) ≡ false
unfolding remove find
has-remove s r [] h = h
has-remove s r ((q, ts) ∷ fs) h = ground (arith, has-remove s r fs)

pub remove-Distinct : (r : String) (fs : Failures) → Distinct fs → Distinct (remove r fs)
unfolding remove
remove-Distinct r [] d = tt
remove-Distinct r ((q, ts) ∷ fs) d = ground (arith, has-remove q r fs d.0, remove-Distinct r fs d.1)

has-add_failure :
    (limit now : ℕ) (s r : String) (fs : Failures)
    → has s fs ≡ false
    → str_eq r s ≡ false
    → has s (add_failure limit r now fs) ≡ false
unfolding add_failure find
has-add_failure limit now s r [] h n = ground arith
has-add_failure limit now s r ((q, ts) ∷ fs) h n = ground (arith, has-add_failure limit now s r fs)

pub add_failure-Distinct :
    (limit now : ℕ) (r : String) (fs : Failures)
    → Distinct fs
    → Distinct (add_failure limit r now fs)
unfolding add_failure find
add_failure-Distinct limit now r [] d = ground arith
add_failure-Distinct limit now r ((q, ts) ∷ fs) d = ground (
  arith,
  add_failure-Distinct limit now r fs d.1,
  has-add_failure limit now q r fs d.0,
  str_eq_iff q r,
  str_eq_iff r q,
)
