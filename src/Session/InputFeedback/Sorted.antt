-- ===== src/Session/InputFeedback/Sorted.antt =====
-- The sorted samples of KInputFeedbackTracker (src/session/inputfeedbacktracker.cpp).
use win_remote_control.Prelude.{
  ℕ, zero, suc, ◌+◌, ◌≤◌, ◌<◌, ◌≡◌, refl, inl, inr, some, List, [], ◌∷◌, arith, leb, Bool-cases,
  length,
}
use win_remote_control.Session.InputFeedback.{at, insert_sample, sort}

abbrev pub IsLower : ℕ → List ℕ → Type 0
IsLower x [] = x ≡ x
IsLower x (y ∷ ys) = (x ≤ y) × IsLower x ys

abbrev pub IsSorted : List ℕ → Type 0
IsSorted [] = 0 ≤ 0
IsSorted (x ∷ xs) = IsLower x xs × IsSorted xs

IsLower-insert : (x y : ℕ) (ys : List ℕ) → x ≤ y → IsLower x ys → IsLower x (insert_sample y ys)
IsLower-insert x y [] h v = (h, refl)
IsLower-insert x y (z ∷ ys) h v = elim (Bool-cases (leb y z)) [
  | inl e ↦ rw e (h, v)
  | inr e ↦ rw e (v.0, IsLower-insert x y ys h v.1)
]

IsLower-below : (x y : ℕ) (ys : List ℕ) → x ≤ y → IsLower y ys → IsLower x ys
IsLower-below x y [] h v = refl
IsLower-below x y (z ∷ ys) h v = (omega (arith, h, v.0), IsLower-below x y ys h v.1)

insert_sample-IsSorted : (x : ℕ) (ys : List ℕ) → IsSorted ys → IsSorted (insert_sample x ys)
insert_sample-IsSorted x [] v = (refl, v)
insert_sample-IsSorted x (y ∷ ys) v = elim (Bool-cases (leb x y)) [
  | inl e ↦ let h : x ≤ y = ground (arith, e) in rw e ((h, IsLower-below x y ys h v.0), v)
  | inr e ↦
      let h : y ≤ x = ground (arith, e) in
      rw e (IsLower-insert y x ys h v.0, insert_sample-IsSorted x ys v.1)
]

pub sort-IsSorted : (xs : List ℕ) → IsSorted (sort xs)
unfolding sort
sort-IsSorted [] = omega arith
sort-IsSorted (x ∷ xs) = insert_sample-IsSorted x (sort xs) (sort-IsSorted xs)

length-insert_sample : (x : ℕ) (ys : List ℕ) → length (insert_sample x ys) ≡ length ys + 1
length-insert_sample x [] = omega arith
length-insert_sample x (y ∷ ys) = ground (arith, length-insert_sample x ys)

pub length-sort : (xs : List ℕ) → length (sort xs) ≡ length xs
unfolding sort
length-sort [] = refl
length-sort (x ∷ xs) = omega (arith, length-insert_sample x (sort xs), length-sort xs)

-- What stands at a place, 0 beyond the end.
abbrev pub value_at : ℕ → List ℕ → ℕ
value_at i [] = 0
value_at zero (x ∷ xs) = x
value_at (suc i) (x ∷ xs) = value_at i xs

pub at-value_at : (i : ℕ) (xs : List ℕ) → i < length xs → at i xs ≡ some (value_at i xs)
at-value_at i [] h = ground arith
at-value_at zero (x ∷ xs) h = refl
at-value_at (suc i) (x ∷ xs) h = at-value_at i xs (omega (arith, h))

IsLower-at : (x i v : ℕ) (xs : List ℕ) → IsLower x xs → at i xs ≡ some v → x ≤ v
IsLower-at x i v [] l e = cc
IsLower-at x zero v (y ∷ xs) l e = ground (arith, l.0)
IsLower-at x (suc i) v (y ∷ xs) l e = IsLower-at x i v xs l.1 e

pub at_rises :
    (i j v w : ℕ) (xs : List ℕ) → IsSorted xs → i ≤ j → at i xs ≡ some v → at j xs ≡ some w → v ≤ w
at_rises i j v w [] s h e f = cc
at_rises zero zero v w (x ∷ xs) s h e f = ground arith
at_rises zero (suc j) v w (x ∷ xs) s h e f = let l = IsLower-at x j w xs s.0 f in ground (arith, l)
at_rises (suc i) zero v w (x ∷ xs) s h e f = ground arith
at_rises (suc i) (suc j) v w (x ∷ xs) s h e f = at_rises i j v w xs s.1 (omega (arith, h)) e f
