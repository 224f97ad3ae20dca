-- ===== src/Terminal/WriteAll/Progress.antt =====
-- What WriteAllTerminalData delivers (src/core/terminal/terminalwriteall.cpp).
use native.Mathlib.Nat.{zero-add, suc-add}
use win_remote_control.Prelude.{
  ℕ, zero, suc, ◌+◌, ◌-◌, ◌≤◌, ◌<◌, ◌≡◌, refl, ap, ◌∙◌, inl, inr, Bool, true, false, ◌||◌, Option,
  some, List, [], ◌∷◌, ◌++◌, append-nil, append_assoc, arith, ltb, ◌==◌, Bool-cases, length, take,
  drop, length-drop,
}
use win_remote_control.Terminal.WriteAll.{
  TerminalWriteResult, WriteAnswer, write_from, write_all_terminal_data,
}

take-drop {ℓ} :
    {A : Type ℓ} (n m : ℕ) (xs : List A) → take n xs ++ take m (drop n xs) ≡ take (n + m) xs
take-drop zero m xs = rw zero-add refl
take-drop (suc n) zero [] = rw suc-add refl
take-drop (suc n) (suc m) [] = rw suc-add refl
take-drop (suc n) m (x ∷ xs) = rw suc-add (ap (λ t. x ∷ t) (take-drop n m xs))

drop-drop {ℓ} : {A : Type ℓ} (n m : ℕ) (xs : List A) → drop m (drop n xs) ≡ drop (n + m) xs
drop-drop zero m xs = rw zero-add refl
drop-drop (suc n) zero [] = rw suc-add refl
drop-drop (suc n) (suc m) [] = rw suc-add refl
drop-drop (suc n) m (x ∷ xs) = rw suc-add (drop-drop n m xs)

module _ {S : Type 0} (write : S → List ℕ → S × WriteAnswer) (should_continue : S → S × Bool)
    (sent : S → List ℕ) where
  -- `sent` is what the other end has got: an accepted write adds the bytes that it counts, the first
  -- of those offered, and never counts more; a refused write and the question whether to go on add
  -- nothing.
  pub record IsWriter : Type 0 where
    pub bounded : (s : S) (bytes : List ℕ) → (write s bytes).1.written ≤ length bytes
    pub delivers :
        (s : S) (bytes : List ℕ)
        → (write s bytes).1.accepted ≡ true
        → sent (write s bytes).0 ≡ sent s ++ take (write s bytes).1.written bytes
    pub refuses :
        (s : S) (bytes : List ℕ)
        → (write s bytes).1.accepted ≡ false
        → sent (write s bytes).0 ≡ sent s
    pub asks : (s : S) → sent (should_continue s).0 ≡ sent s

  -- A result of the loop that starts in `s` with `w` bytes written.
  abbrev Delivers : S → List ℕ → ℕ → Option (S × TerminalWriteResult) → Type 0
  Delivers s bytes w o =
      (t : S) × (r : TerminalWriteResult) × (o ≡ some (t, r))
      × (w ≤ r.bytes_written)
      × (r.bytes_written ≤ length bytes)
      × (r.succeeded ≡ (r.bytes_written == length bytes))
      × (sent t ≡ sent s ++ take (r.bytes_written - w) (drop w bytes))

  nothing_more :
      (s : S) (t : S) (w : ℕ) (bytes : List ℕ)
      → sent t ≡ sent s
      → sent t ≡ sent s ++ take (w - w) (drop w bytes)
  nothing_more s t w bytes e = let z : w - w ≡ 0 = omega arith in rw (z, append-nil) e

  stuck_write :
      (s : S) (w : ℕ) (bytes : List ℕ)
      → IsWriter
      → (write s (drop w bytes)).1.accepted ≡ true
      → ((write s (drop w bytes)).1.written == 0
          || ltb (length bytes - w) (write s (drop w bytes)).1.written)
        ≡ true
      → sent (write s (drop w bytes)).0 ≡ sent s
  stuck_write s w bytes v good stuck =
      let none_written : (write s (drop w bytes)).1.written ≡ 0 =
        ground (arith, v.bounded s (drop w bytes), length-drop w bytes) in
      v.delivers s (drop w bytes) good ∙ rw (none_written, append-nil)

  moved_on :
      (s s1 : S) (w : ℕ) (bytes : List ℕ) (o : Option (S × TerminalWriteResult))
      → IsWriter
      → (write s1 (drop w bytes)).1.accepted ≡ true
      → sent s1 ≡ sent s
      → Delivers (write s1 (drop w bytes)).0 bytes (w + (write s1 (drop w bytes)).1.written) o
      → Delivers s bytes w o
  moved_on s s1 w bytes o v good same (t, r, e, above, below, success, got) =
      let n : ℕ = (write s1 (drop w bytes)).1.written in
      let size : n + (r.bytes_written - (w + n)) ≡ r.bytes_written - w = omega arith in
      (
        t,
        r,
        e,
        omega arith,
        below,
        success,
        got
            ∙ rw (
              v.delivers s1 (drop w bytes) good,
              same,
              append_assoc (sent s) (take n (drop w bytes))
                  (take (r.bytes_written - (w + n)) (drop (w + n) bytes)),
              ← drop-drop w n bytes,
              take-drop n (r.bytes_written - (w + n)) (drop w bytes),
              size,
            ),
      )

  write_from-Delivers :
      (fuel : ℕ) (s : S) (bytes : List ℕ) (w : ℕ)
      → IsWriter
      → length bytes - w < fuel
      → w ≤ length bytes
      → Delivers s bytes w (write_from write should_continue fuel s bytes w)
  unfolding write_from
  write_from-Delivers zero s bytes w v f h = absurd (omega arith)
  write_from-Delivers (suc fuel) s bytes w v f h =
      let s1 : S = (should_continue s).0 in
      let s2 : S = (write s1 (drop w bytes)).0 in
      let answer : WriteAnswer = (write s1 (drop w bytes)).1 in
      elim (Bool-cases (ltb w (length bytes))) [
        | inr done ↦
            rw (done, write_from)
              (s, _, refl, ground arith, ground arith, refl, nothing_more s s w bytes refl)
        | inl left ↦ elim (Bool-cases (should_continue s).1) [
          | inr told ↦
              rw (left, told, write_from)
                (
                  s1,
                  _,
                  refl,
                  ground arith,
                  ground arith,
                  refl,
                  nothing_more s s1 w bytes (v.asks s),
                )
          | inl on ↦ elim (Bool-cases answer.accepted) [
            | inr bad ↦
                rw (left, on, bad, write_from)
                  (
                    s2,
                    _,
                    refl,
                    ground arith,
                    ground arith,
                    ground arith,
                    nothing_more s s2 w bytes (v.refuses s1 (drop w bytes) bad ∙ v.asks s),
                  )
            | inl good ↦
                rw (left, on, good, write_from)
                  (elim (Bool-cases
                    (answer.written == 0 || ltb (length bytes - w) answer.written)) [
                      | inl stuck ↦
                          rw (stuck, write_from)
                            (
                              s2,
                              _,
                              refl,
                              ground arith,
                              ground arith,
                              ground arith,
                              nothing_more s s2 w bytes
                                  (stuck_write s1 w bytes v good stuck ∙ v.asks s),
                            )
                      | inr moved ↦
                          rw (moved, write_from)
                            (moved_on s s1 w bytes _ v good (v.asks s) (
                              write_from-Delivers fuel s2 bytes (w + answer.written) v
                                (ground arith) (ground arith)))
                    ])
          ]
        ]
      ]

  -- With a law-abiding writer the call returns, whatever the callbacks answer: the other end has got
  -- exactly the first `bytes_written` bytes of the data, at most all of them, and the call reports
  -- success exactly when these are all.
  pub write_all_terminal_data_delivers :
      (s : S) (bytes : List ℕ)
      → IsWriter
      → (t : S) × (r : TerminalWriteResult) × (write_all_terminal_data write should_continue s bytes
          ≡ some (t, r))
        × (r.bytes_written ≤ length bytes)
        × (r.succeeded ≡ (r.bytes_written == length bytes))
        × (sent t ≡ sent s ++ take r.bytes_written bytes)
  unfolding write_all_terminal_data
  write_all_terminal_data_delivers s bytes v =
      let (t, r, e, above, below, success, got) =
        write_from-Delivers (suc (length bytes)) s bytes 0 v (omega arith) (omega arith) in
      let whole : r.bytes_written - 0 ≡ r.bytes_written = omega arith in
      (t, r, e, below, success, rw whole at got)
