-- ===== src/Security/FailureTracker/Table.antt =====
-- The table of KSourceFailureTracker: what its entries are like, and how each helper keeps them so.
use win_remote_control.Prelude.{
  ℕ, suc, ◌≤◌, ◌<◌, ◌≡◌, refl, inl, inr, Bool, true, false, some, List, [], ◌∷◌, ◌++◌, arith,
  String, str_eq, str_eq_iff, leb, if◌then◌else◌, Option-cases, length, length-append, List-cases,
}
use win_remote_control.Security.FailureTracker.{
  add_failure, find, is_some, last, oldest_source, remove, Failures, drop_expired, prune_failures,
}

-- Failures in the order of time, none after `now`.
abbrev pub IsSorted : List ℕ → ℕ → Type 0
IsSorted [] now = Unit {0}
IsSorted (t ∷ []) now = t ≤ now
IsSorted (t ∷ u ∷ ts) now = (t ≤ u) × IsSorted (u ∷ ts) now

-- An entry has a source, some failures and at most `limit` of them, in the order of time.
pub record IsEntry (limit now : ℕ) (s : String) (ts : List ℕ) : Type 0 where
  pub named : str_eq s "" ≡ false
  pub some_failure : 0 < length ts
  pub bounded : length ts ≤ limit
  pub sorted : IsSorted ts now

abbrev pub AllEntries : ℕ → ℕ → Failures → Type 0
AllEntries limit now [] = Unit {0}
AllEntries limit now ((s, ts) ∷ fs) = IsEntry limit now s ts × AllEntries limit now fs

pub IsSorted-later :
    (ts : List ℕ) {now later : ℕ} → now ≤ later → IsSorted ts now → IsSorted ts later
IsSorted-later [] h s = tt
IsSorted-later (t ∷ []) h s = omega arith
IsSorted-later (t ∷ u ∷ ts) h s = (s.0, IsSorted-later (u ∷ ts) h s.1)

pub AllEntries-later :
    (limit now later : ℕ) (fs : Failures)
    → now ≤ later
    → AllEntries limit now fs
    → AllEntries limit later fs
AllEntries-later limit now later [] h a = tt
AllEntries-later limit now later ((s, ts) ∷ fs) h a = (
  record {
    named = a.0.named;
    some_failure = a.0.some_failure;
    bounded = a.0.bounded;
    sorted = IsSorted-later ts h a.0.sorted;
  },
  AllEntries-later limit now later fs h a.1,
)

pub IsSorted-tail : (t : ℕ) (ts : List ℕ) (now : ℕ) → IsSorted (t ∷ ts) now → IsSorted ts now
IsSorted-tail t [] now s = tt
IsSorted-tail t (u ∷ ts) now s = s.1

pub drop_expired-keeps :
    (window now later : ℕ) (ts : List ℕ)
    → IsSorted ts later
    → IsSorted (drop_expired window now ts) later
      × (length (drop_expired window now ts) ≤ length ts)
unfolding drop_expired
drop_expired-keeps window now later [] s = (tt, omega arith)
drop_expired-keeps window now later (t ∷ ts) s =
    ground (arith, drop_expired-keeps window now later ts (IsSorted-tail t ts later s))

pub prune_failures-AllEntries :
    (window now limit before : ℕ) (fs : Failures)
    → before ≤ now
    → AllEntries limit before fs
    → AllEntries limit now (prune_failures window now fs)
      × (length (prune_failures window now fs) ≤ length fs)
unfolding prune_failures
prune_failures-AllEntries window now limit before [] h a = (tt, omega arith)
prune_failures-AllEntries window now limit before ((s, ts) ∷ fs) h a =
    let later : IsSorted ts now = IsSorted-later ts h a.0.sorted in
    let kept = drop_expired-keeps window now now ts later in
    let rest = prune_failures-AllEntries window now limit before fs h a.1 in
    elim (List-cases (drop_expired window now ts)) [
      | inl e ↦ rw (e, prune_failures) (rest.0, omega (arith, rest.1))
      | inr (t, us, e) ↦
          let kept' : IsSorted (t ∷ us) now × (length (t ∷ us) ≤ length ts) = rw e at kept in
          rw (e, prune_failures)
            (
              (
                record {
                  named = a.0.named;
                  some_failure = omega arith;
                  bounded = omega (arith, kept'.1, a.0.bounded);
                  sorted = kept'.0;
                },
                rest.0,
              ),
              omega (arith, rest.1),
            )
    ]

abbrev pub has : String → Failures → Bool
has s fs = is_some (find s fs)

pub remove_lem :
    (limit now : ℕ) (s : String) (fs : Failures)
    → AllEntries limit now fs
    → AllEntries limit now (remove s fs)
      × (has s fs ≡ true → length fs ≡ suc (length (remove s fs)))
unfolding remove find
remove_lem limit now s [] a = (tt, (λ (e : false ≡ true). cc))
remove_lem limit now s ((r, ts) ∷ fs) a = ground (arith, remove_lem limit now s fs a.1)

abbrev pub AllNames : (String → Bool) → Failures → Type 0
AllNames p [] = Unit {0}
AllNames p ((s, ts) ∷ fs) = (p s ≡ true) × AllNames p fs

-- The search ends at a source of the table if it starts at one.
pub oldest_source-mem :
    (p : String → Bool) (best : String) (ms : ℕ) (fs : Failures)
    → p best ≡ true
    → AllNames p fs
    → p (oldest_source best ms fs) ≡ true
unfolding oldest_source
oldest_source-mem p best ms [] b a = b
oldest_source-mem p best ms ((s, ts) ∷ fs) b a = elim (Option-cases (last ts)) [
  | inl e ↦ rw (e, oldest_source) (oldest_source-mem p best ms fs b a.1)
  | inr (t, e) ↦
      rw (e, oldest_source)
        (oldest_source-mem p (if leb t ms then s else best) (if leb t ms then t else ms) fs
          (ground arith) a.1)
]

pub AllNames-weaken :
    (p q : String → Bool) (fs : Failures)
    → ((s : String) → p s ≡ true → q s ≡ true)
    → AllNames p fs
    → AllNames q fs
AllNames-weaken p q [] h a = tt
AllNames-weaken p q ((s, ts) ∷ fs) h a = (h s a.0, AllNames-weaken p q fs h a.1)

pub AllNames-has : (fs : Failures) → AllNames (λ s. has s fs) fs
unfolding find
AllNames-has [] = tt
AllNames-has ((s, ts) ∷ fs) = (
  ground (arith, str_eq_iff s s),
  AllNames-weaken (λ r. has r fs) (λ r. has r ((s, ts) ∷ fs)) fs (λ r h. ground arith)
      (AllNames-has fs),
)

pub last_sorted :
    (ts : List ℕ) (now : ℕ)
    → 0 < length ts
    → IsSorted ts now
    → (t : ℕ) × (last ts ≡ some t) × (t ≤ now)
last_sorted [] now h s = absurd (omega arith)
last_sorted (t ∷ []) now h s = (t, refl, s)
last_sorted (t ∷ u ∷ ts) now h s = last_sorted (u ∷ ts) now (omega arith) s.1

-- With no failure after `now`, a table that is not empty has a source to evict.
pub oldest_source_found :
    (limit now : ℕ) (fs : Failures)
    → 0 < length fs
    → AllEntries limit now fs
    → has (oldest_source "" now fs) fs ≡ true
unfolding oldest_source
oldest_source_found limit now [] h a = absurd (omega arith)
oldest_source_found limit now ((s, ts) ∷ fs) h a =
    let (t, e, le) = last_sorted ts now a.0.some_failure a.0.sorted in
    let names = AllNames-has ((s, ts) ∷ fs) in
    rw (e, oldest_source)
      (oldest_source-mem (λ r. has r ((s, ts) ∷ fs)) (if leb t now then s else "")
        (if leb t now then t else now) fs (ground (arith, names)) names.1)

pub has-named :
    (limit now : ℕ) (s : String) (fs : Failures)
    → AllEntries limit now fs
    → has s fs ≡ true
    → str_eq s "" ≡ false
unfolding find
has-named limit now s [] a h = cc
has-named limit now s ((r, ts) ∷ fs) a h =
    ground (arith, has-named limit now s fs a.1, str_eq_iff r s, a.0.named)

pub IsSorted-append : (ts : List ℕ) (now : ℕ) → IsSorted ts now → IsSorted (ts ++ now ∷ []) now
IsSorted-append [] now s = omega arith
IsSorted-append (t ∷ []) now s = (s, omega arith)
IsSorted-append (t ∷ u ∷ ts) now s = (s.0, IsSorted-append (u ∷ ts) now s.1)

pub add_failure_lem :
    (limit now : ℕ) (s : String) (fs : Failures)
    → 0 < limit
    → str_eq s "" ≡ false
    → AllEntries limit now fs
    → AllEntries limit now (add_failure limit s now fs)
      × (length (add_failure limit s now fs) ≡ (if has s fs then length fs else suc (length fs)))
unfolding add_failure find
add_failure_lem limit now s [] l n a = ground arith
add_failure_lem limit now s ((r, ts) ∷ fs) l n a = ground (
  arith,
  add_failure_lem limit now s fs l n a.1,
  IsSorted-append ts now a.0.sorted,
  length-append ts (now ∷ []),
)
