-- ===== src/Prelude/Table.antt =====
-- A QHash with texts for keys, as an association list.
use Prim.Native.Nat.{ℕ, ◌+◌, ◌<◌}
use Prim.Native.String.{String}
use mathlib.Core.Path.{◌≡◌}
use mathlib.Core.Bool.{Bool, false, ◌||◌}
use mathlib.Core.Option.{Option, none, some}
use mathlib.Core.List.{List, [], ◌∷◌}
use native.Mathlib.Omega.{arith}
use text.Mathlib.Text.{◌==◌ as str_eq}
use text.Mathlib.TextEquality.{eq_iff as str_eq_iff}
use win_remote_control.Prelude.Tests.{if◌then◌else◌}

module _ {ℓ} {V : Type ℓ} where
  abbrev pub lookup : String → List (String × V) → Option V
  lookup k [] = none
  lookup k ((j, v) ∷ t) = if str_eq j k then some v else lookup k t

  abbrev pub erase : String → List (String × V) → List (String × V)
  erase k [] = []
  erase k ((j, v) ∷ t) = let rest = erase k t in if str_eq j k then rest else (j, v) ∷ rest

  -- An insertion replaces what the key had.
  abbrev pub insert : String → V → List (String × V) → List (String × V)
  insert k v t = (k, v) ∷ erase k t

  abbrev pub has : String → List (String × V) → Bool
  has k [] = false
  has k ((j, v) ∷ t) = str_eq j k || has k t

  -- How many entries a key has.
  abbrev pub entries : String → List (String × V) → ℕ
  entries k [] = 0
  entries k ((j, v) ∷ t) = (if str_eq j k then 1 else 0) + entries k t

  pub lookup-erase :
      (i k : String) (t : List (String × V))
      → lookup i (erase k t) ≡ (if str_eq k i then none else lookup i t)
  lookup-erase i k [] = ground arith
  lookup-erase i k ((j, v) ∷ t) =
      ground (arith, lookup-erase i k t, str_eq_iff j k, str_eq_iff j i, str_eq_iff k i)

  pub entries-erase :
      (i k : String) (t : List (String × V))
      → entries i (erase k t) ≡ (if str_eq k i then 0 else entries i t)
  entries-erase i k [] = ground arith
  entries-erase i k ((j, v) ∷ t) =
      ground (arith, entries-erase i k t, str_eq_iff j k, str_eq_iff j i, str_eq_iff k i)

  pub lookup-insert :
      (i k : String) (v : V) (t : List (String × V))
      → lookup i (insert k v t) ≡ (if str_eq k i then some v else lookup i t)
  lookup-insert i k v t = ground (arith, lookup-erase i k t)

  pub entries-insert :
      (i k : String) (v : V) (t : List (String × V))
      → entries i (insert k v t) ≡ (if str_eq k i then 1 else entries i t)
  entries-insert i k v t = ground (arith, entries-erase i k t)

  pub entries-lookup :
      (k : String) (t : List (String × V)) (v : V) → lookup k t ≡ some v → 0 < entries k t
  entries-lookup k [] v e = cc
  entries-lookup k ((j, w) ∷ t) v e = ground (arith, entries-lookup k t v)
