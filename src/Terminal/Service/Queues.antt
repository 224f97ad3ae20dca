-- ===== src/Terminal/Service/Queues.antt =====
-- What the queues of KTerminalSessionService keep (src/terminal/terminalsessionservice.cpp): their
-- limits, their counters and the sizes of their chunks.
use win_remote_control.Prelude.{
  ℕ, zero, suc, ◌+◌, ◌-◌, ◌%◌, ◌^◌, ◌≤◌, ◌≡◌, refl, inl, inr, false, ◌||◌, List, [], ◌∷◌, ◌++◌,
  arith, String, ltb, leb, Bool-cases, length, drop, length-append, length-take,
}
use win_remote_control.Terminal.Service.Types.{Surroundings}
use win_remote_control.Terminal.Service.Output.{chunks, fill, flush, send_data_frame}
use win_remote_control.Terminal.DataFrame.{TerminalDataDirection}
use win_remote_control.Qt.{UuidLibrary}

abbrev pub total : List (List ℕ) → ℕ
total [] = 0
total (c ∷ cs) = length c + total cs

total-append : (xs ys : List (List ℕ)) → total (xs ++ ys) ≡ total xs + total ys
total-append [] ys = omega arith
total-append (x ∷ xs) ys = omega (arith, total-append xs ys)

-- Every chunk has a byte and at most `size`.
abbrev pub AllSized : ℕ → List (List ℕ) → Type 0
AllSized size [] = Unit {0}
AllSized size (c ∷ cs) = (1 ≤ length c) × (length c ≤ size) × AllSized size cs

AllSized-append :
    (size : ℕ) (xs ys : List (List ℕ))
    → AllSized size xs
    → AllSized size ys
    → AllSized size (xs ++ ys)
AllSized-append size [] ys h k = k
AllSized-append size (x ∷ xs) ys h k = (h.0, h.1, AllSized-append size xs ys h.2 k)

pub record IsBounded (size messages limit : ℕ) (queue : List (List ℕ)) (bytes : ℕ) : Type 0 where
  pub counted : total queue ≡ bytes
  pub limited : bytes ≤ limit
  pub few : length queue ≤ messages
  pub sized : AllSized size queue

pub IsBounded-empty : (size messages limit : ℕ) → IsBounded size messages limit [] 0
IsBounded-empty size messages limit = record {
  counted = refl;
  limited = omega arith;
  few = omega arith;
  sized = tt;
}

pub chunks-AllSized :
    (size fuel : ℕ) (bytes : List ℕ) → 1 ≤ size → AllSized size (chunks size fuel bytes)
unfolding chunks
chunks-AllSized size zero bytes h = tt
chunks-AllSized size (suc fuel) [] h = tt
chunks-AllSized size (suc fuel) (b ∷ bs) h =
    let l = length-take size (b ∷ bs) in
    (omega (arith, l), omega (arith, l), chunks-AllSized size fuel (drop size (b ∷ bs)) h)

pub IsBounded-snoc :
    (size messages limit : ℕ) (queue : List (List ℕ)) (bytes : ℕ) (c : List ℕ)
    → IsBounded size messages limit queue bytes
    → AllSized size (c ∷ [])
    → (leb messages (length queue) || ltb limit (bytes + length c)) ≡ false
    → IsBounded size messages limit (queue ++ c ∷ []) (bytes + length c)
IsBounded-snoc size messages limit queue bytes c v k h = record {
  counted = omega (arith, total-append queue (c ∷ []), v.counted);
  limited = ground (arith, v.limited);
  few = ground (arith, length-append queue (c ∷ []), v.few);
  sized = AllSized-append size queue (c ∷ []) v.sized k;
}

pub fill-IsBounded :
    (size messages limit : ℕ) (cs queue : List (List ℕ)) (bytes : ℕ)
    → AllSized size cs
    → IsBounded size messages limit queue bytes
    → IsBounded size messages limit
        (fill messages limit cs queue bytes).queue
        (fill messages limit cs queue bytes).bytes
unfolding fill
fill-IsBounded size messages limit [] queue bytes h v = v
fill-IsBounded size messages limit (c ∷ cs) queue bytes h v =
    elim (Bool-cases (leb messages (length queue) || ltb limit (bytes + length c))) [
      | inl full ↦ rw full v
      | inr room ↦ rw room (
          fill-IsBounded size messages limit cs (queue ++ c ∷ []) (bytes + length c) h.2
            (IsBounded-snoc size messages limit queue bytes c v (h.0, h.1, tt) room))
    ]

module _ (q : UuidLibrary) {W : Type 0} (env : Surroundings W) where
  pub flush-IsBounded :
      (size messages limit : ℕ) (direction : TerminalDataDirection) (id : String)
      (queue : List (List ℕ)) (bytes n sent : ℕ) (w : W)
      → IsBounded size messages limit queue bytes
      → IsBounded size messages limit
          (flush q env direction id queue bytes n sent w).queue
          (flush q env direction id queue bytes n sent w).bytes
  unfolding flush
  flush-IsBounded size messages limit direction id [] bytes n sent w v = v
  flush-IsBounded size messages limit direction id (c ∷ cs) bytes n sent w v =
      let v' : IsBounded size messages limit cs (bytes - length c) = record {
        counted = omega (arith, v.counted);
        limited = omega (arith, v.limited);
        few = omega (arith, v.few);
        sized = v.sized.2;
      } in
      let w' = (send_data_frame q env direction id c n w).0 in
      let rest =
        flush-IsBounded size messages limit direction id cs (bytes - length c) ((n + 1) % 2 ^ 64)
          ((sent + length c) % 2 ^ 64) w' v' in
      elim (Bool-cases (env.is_backpressured w)) [
        | inl stays ↦ rw stays v
        | inr passes ↦ elim (Bool-cases ((send_data_frame q env direction id c n w).1)) [
          | inl goes ↦ rw (passes, goes) rest
          | inr fails ↦ rw (passes, fails) v
        ]
      ]
