-- ===== src/Prelude/Bytes.antt =====
-- Byte arrays as lists of numbers below 256, and the integers that the codecs write and read.
-- `read_le` and `read_be` add where the sources join by `|`: the bytes fill disjoint bits.
use Prim.Native.Nat.{ℕ, zero, suc, ◌+◌, ◌*◌, ◌/◌, ◌%◌, ◌^◌, ◌≤◌, ◌<◌}
use mathlib.Core.Path.{◌≡◌, refl, ap}
use mathlib.Core.List.{List, [], ◌∷◌, ◌++◌}
use native.Mathlib.Nat.{zero-add, suc-add}
use native.Mathlib.Omega.{arith}
use win_remote_control.Prelude.Lists.{length, take, drop, take-append_length}

-- The byte at an index; the callers have checked the size before they read.
abbrev pub byte_at : List ℕ → ℕ → ℕ
byte_at [] i = 0
byte_at (b ∷ bs) zero = b
byte_at (b ∷ bs) (suc i) = byte_at bs i

-- `n` bytes of `v`, from the byte with the number `i` upwards: for (i ...; ++i) (v >> (i * 8)) & 0xff.
abbrev pub write_le : ℕ → ℕ → ℕ → List ℕ
write_le zero i v = []
write_le (suc n) i v = (v / 2 ^ (i * 8)) % 256 ∷ write_le n (i + 1) v

-- `n` bytes of `v`, the highest first: for (shift = (n - 1) * 8; shift >= 0; shift -= 8).
abbrev pub write_be : ℕ → ℕ → List ℕ
write_be zero v = []
write_be (suc n) v = (v / 2 ^ (n * 8)) % 256 ∷ write_be n v

-- for (i ...; ++i) value |= data[offset + i] << (i * 8).
abbrev pub read_le : ℕ → ℕ → ℕ → List ℕ → ℕ
read_le zero i offset bs = 0
read_le (suc n) i offset bs = byte_at bs (offset + i) * 2 ^ (i * 8) + read_le n (i + 1) offset bs

-- for (i ...) value = (value << 8) | data[offset + i], with the value so far.
abbrev pub read_be : ℕ → ℕ → ℕ → List ℕ → ℕ
read_be zero value offset bs = value
read_be (suc n) value offset bs = read_be n (value * 256 + byte_at bs offset) (offset + 1) bs

pub byte_at-append : (xs ys : List ℕ) (i : ℕ) → i < length xs → byte_at (xs ++ ys) i ≡ byte_at xs i
byte_at-append [] ys i h = elim h [ ]
byte_at-append (x ∷ xs) ys zero h = refl
byte_at-append (x ∷ xs) ys (suc i) h = byte_at-append xs ys i (omega arith)

module _ {ℓ} {A : Type ℓ} where
  pub take-append : (n : ℕ) (xs ys : List A) → n ≤ length xs → take n (xs ++ ys) ≡ take n xs
  take-append zero xs ys h = refl
  take-append (suc n) [] ys h = elim h [ ]
  take-append (suc n) (x ∷ xs) ys h = ap (λ t. x ∷ t) (take-append n xs ys (omega arith))

  pub drop-append : (n : ℕ) (xs ys : List A) → n ≤ length xs → drop n (xs ++ ys) ≡ drop n xs ++ ys
  drop-append zero xs ys h = refl
  drop-append (suc n) [] ys h = elim h [ ]
  drop-append (suc n) (x ∷ xs) ys h = drop-append n xs ys (omega arith)

-- Reading behind a part of known size.
pub byte_at-skip :
    (xs ys : List ℕ) (n i : ℕ) → length xs ≡ n → byte_at (xs ++ ys) (n + i) ≡ byte_at ys i
byte_at-skip [] ys zero i h = rw zero-add refl
byte_at-skip [] ys (suc n) i h = absurd (omega arith)
byte_at-skip (x ∷ xs) ys zero i h = absurd (omega arith)
byte_at-skip (x ∷ xs) ys (suc n) i h = rw suc-add (byte_at-skip xs ys n i (omega arith))

module _ {ℓ} {A : Type ℓ} where
  pub drop-skip : (xs ys : List A) (n k : ℕ) → length xs ≡ n → drop (n + k) (xs ++ ys) ≡ drop k ys
  drop-skip [] ys zero k h = rw zero-add refl
  drop-skip [] ys (suc n) k h = absurd (omega arith)
  drop-skip (x ∷ xs) ys zero k h = absurd (omega arith)
  drop-skip (x ∷ xs) ys (suc n) k h = rw suc-add (drop-skip xs ys n k (omega arith))

  pub take-skip : (xs ys : List A) (n : ℕ) → length xs ≡ n → take n (xs ++ ys) ≡ xs
  take-skip xs ys n h = rw (← h) (take-append_length xs ys)
