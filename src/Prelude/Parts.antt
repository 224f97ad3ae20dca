-- ===== src/Prelude/Parts.antt =====
-- Sequences that a list is cut to, as on a channel that drops.
use Prim.Native.Nat.{ℕ, zero, suc, ◌≤◌}
use mathlib.Core.Path.{◌≡◌, sym}
use mathlib.Core.Option.{Option, none, some, some-injective}
use mathlib.Core.List.{List, [], ◌∷◌, Sublistᴰ}
use native.Mathlib.Omega.{arith}
use win_remote_control.Prelude.Lists.{drop}

module _ {ℓ} {A : Type ℓ} where
  abbrev pub get_elem? : List A → ℕ → Option A
  get_elem? [] i = none
  get_elem? (x ∷ xs) zero = some x
  get_elem? (x ∷ xs) (suc i) = get_elem? xs i

  -- The elements at the positions of a list, in its order; a position that is not there gives nothing.
  abbrev pub deliver : List ℕ → List A → List A
  deliver [] xs = []
  deliver (i ∷ is) xs = elim (get_elem? xs i) [ none ↦ deliver is xs | some x ↦ x ∷ deliver is xs ]

module _ {ℓ} {A : Type ℓ} where
  pub nil-Sublist : (xs : List A) → Sublistᴰ [] xs
  nil-Sublist [] = Sublistᴰ.slnil
  nil-Sublist (x ∷ xs) = Sublistᴰ.cons (nil-Sublist xs)

  -- The element at `i`, and then some of those after it.
  pub drop-Sublist :
      (xs : List A) (k i : ℕ) (x : A) (ys : List A)
      → get_elem? xs i ≡ some x
      → k ≤ i
      → Sublistᴰ ys (drop (suc i) xs)
      → Sublistᴰ (x ∷ ys) (drop k xs)
  drop-Sublist [] k i x ys e h p = cc
  drop-Sublist (z ∷ xs) zero zero x ys e h p = Sublistᴰ.cons-cons (sym (some-injective z x e)) p
  drop-Sublist (z ∷ xs) zero (suc i) x ys e h p =
      Sublistᴰ.cons (drop-Sublist xs zero i x ys e (omega arith) p)
  drop-Sublist (z ∷ xs) (suc k) zero x ys e h p = ground arith
  drop-Sublist (z ∷ xs) (suc k) (suc i) x ys e h p = drop-Sublist xs k i x ys e (omega arith) p
