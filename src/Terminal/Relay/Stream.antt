-- ===== src/Terminal/Relay/Stream.antt =====
-- A byte stream that reaches KTerminalRelayFrameCodec::append in pieces.
use win_remote_control.Prelude.{
  ℕ, zero, suc, ◌+◌, ◌-◌, ◌≤◌, ◌<◌, ◌≡◌, refl, sym, subst, ◌∙◌, ◌≢◌, ◌⊎◌, inl, inr, List, [], ◌∷◌,
  ◌++◌, append-nil, append_assoc, arith, length, drop, length-drop, take-append, drop-append,
}
use win_remote_control.Terminal.Relay.{
  out_of_fuel, invalid_header, accepted, leave, reject, whole, Received, drain, frame_of,
  maximum_payload_bytes, round, TerminalRelayFrame, append, drain_all, frame_header_bytes,
  maximum_buffered_bytes, DecodedFrameHeader,
}
use win_remote_control.Terminal.Relay.Loop.{
  Round-cases, round-whole, round-append, round-leave, drain_fuel,
}

abbrev pub concat : List (List ℕ) → List ℕ
concat [] = []
concat (c ∷ cs) = c ++ concat cs

pub drain_all-leave :
    (b : List ℕ) (fs : List TerminalRelayFrame)
    → round b ≡ leave
    → drain_all b fs ≡ record { buffer = b; frames = fs; status = accepted }
unfolding drain_all drain
drain_all-leave b fs e = rw (e, drain)

drain_all-reject :
    (b : List ℕ) (fs : List TerminalRelayFrame)
    → round b ≡ reject
    → drain_all b fs ≡ record { buffer = []; frames = fs; status = invalid_header }
unfolding drain_all drain
drain_all-reject b fs e = rw (e, drain)

pub drain_all-whole :
    (b : List ℕ) (fs : List TerminalRelayFrame) (h : DecodedFrameHeader)
    → round b ≡ whole h
    → drain_all b fs
      ≡ drain_all (drop (frame_header_bytes + h.payload_bytes) b) (fs ++ frame_of h b ∷ [])
unfolding drain_all drain
drain_all-whole b fs h e =
    rw (e, drain)
      (drain_fuel (length b) (suc (length rest)) rest (fs ++ frame_of h b ∷ [])
        (omega (arith, round-whole b h e, length-drop n b)) (omega arith))
  where
    n : ℕ
    n = frame_header_bytes + h.payload_bytes

    rest : List ℕ
    rest = drop n b

-- What is known of a result: nothing but the status `accepted` or `invalid_header`, and how more
-- bytes go on from it.
abbrev Continues : List ℕ → List ℕ → List TerminalRelayFrame → Received → Type 0
Continues b ys fs r =
    ((r.status ≡ accepted)
      × (round r.buffer ≡ leave)
      × (drain_all (b ++ ys) fs ≡ drain_all (r.buffer ++ ys) r.frames))
    ⊎ ((r.status ≡ invalid_header) × (r.buffer ≡ []) × (drain_all (b ++ ys) fs ≡ r))

frame_of-append :
    (b ys : List ℕ) (h : DecodedFrameHeader)
    → frame_header_bytes + h.payload_bytes ≤ length b
    → frame_of h (b ++ ys) ≡ frame_of h b
frame_of-append b ys h fits = rw (
  drop-append frame_header_bytes b ys (omega arith),
  take-append h.payload_bytes (drop frame_header_bytes b) ys
      (omega (arith, length-drop frame_header_bytes b)),
)

drain_all-append_whole :
    (b ys : List ℕ) (fs : List TerminalRelayFrame) (h : DecodedFrameHeader)
    → round b ≡ whole h
    → drain_all (b ++ ys) fs
      ≡ drain_all (drop (frame_header_bytes + h.payload_bytes) b ++ ys) (fs ++ frame_of h b ∷ [])
drain_all-append_whole b ys fs h e =
    drain_all-whole (b ++ ys) fs h (ground (arith, round-append b ys))
    ∙ rw (
      drop-append (frame_header_bytes + h.payload_bytes) b ys (round-whole b h e).0,
      frame_of-append b ys h (round-whole b h e).0,
    )

drain_all-Continues :
    (k : ℕ) (b ys : List ℕ) (fs : List TerminalRelayFrame)
    → length b < k
    → Continues b ys fs (drain_all b fs)
drain_all-Continues zero b ys fs lt = elim lt [ ]
drain_all-Continues (suc k) b ys fs lt = elim (Round-cases (round b)) [
  | inl e ↦ rw (drain_all-leave b fs e) (inl (refl, e, refl))
  | inr (inl e) ↦
      rw (drain_all-reject b fs e)
        (inr (refl, refl, drain_all-reject (b ++ ys) fs (ground (arith, round-append b ys))))
  | inr (inr (h, e)) ↦
      rw (drain_all-whole b fs h e, drain_all-append_whole b ys fs h e)
        (drain_all-Continues k (drop (frame_header_bytes + h.payload_bytes) b) ys
          (fs ++ frame_of h b ∷ [])
          (omega (arith, round-whole b h e, length-drop (frame_header_bytes + h.payload_bytes) b)))
]

-- A call of `append` per piece, until one fails.
unfoldable pub feed : List ℕ → List (List ℕ) → List TerminalRelayFrame → Received
feed b [] fs = record { buffer = b; frames = fs; status = accepted }
feed b (c ∷ cs) fs =
    let r = append b c fs in
    let rest = feed r.buffer cs r.frames in elim r.status [ accepted ↦ rest | _ ↦ r ]

-- The largest piece that fits beside any unfinished frame.
abbrev pub maximum_piece_bytes : ℕ
maximum_piece_bytes = maximum_buffered_bytes - (frame_header_bytes + maximum_payload_bytes)

abbrev pub PiecesFit : List (List ℕ) → Type 0
PiecesFit [] = Unit {0}
PiecesFit (c ∷ cs) = (length c ≤ maximum_piece_bytes) × PiecesFit cs

append-drain_all :
    (b c : List ℕ) (fs : List TerminalRelayFrame)
    → round b ≡ leave
    → length c ≤ maximum_piece_bytes
    → append b c fs ≡ drain_all (b ++ c) fs
unfolding append
append-drain_all b c fs e fit = ground (arith, round-leave b e)

-- How `feed` goes on from the result of one call.
feed_on :
    (b ys : List ℕ) (cs : List (List ℕ)) (fs : List TerminalRelayFrame) (r : Received)
    → (round r.buffer ≡ leave → feed r.buffer cs r.frames ≡ drain_all (r.buffer ++ ys) r.frames)
    → Continues b ys fs r
    → elim r.status [ accepted ↦ feed r.buffer cs r.frames | _ ↦ r ] ≡ drain_all (b ++ ys) fs
feed_on b ys cs fs r ih (inl (acc, stuck, same)) = rw acc (ih stuck ∙ sym same)
feed_on b ys cs fs r ih (inr (bad, _, same)) = rw bad (sym same)

-- The pieces may be cut anywhere: pieces of at most `maximum_piece_bytes` bytes, one call each, give
-- the frames, the rest of the buffer and the answer of a single pass over the whole stream, also
-- when that pass meets a bad header. The buffer at the start holds no whole frame.
pub feed-drain_all :
    (b : List ℕ) (cs : List (List ℕ)) (fs : List TerminalRelayFrame)
    → round b ≡ leave
    → PiecesFit cs
    → feed b cs fs ≡ drain_all (b ++ concat cs) fs
unfolding feed
feed-drain_all b [] fs e fit = rw append-nil (sym (drain_all-leave b fs e))
feed-drain_all b (c ∷ cs) fs e fit =
    let r : Received = drain_all (b ++ c) fs in
    subst
      (λ (q : Received).
        elim q.status [ accepted ↦ feed q.buffer cs q.frames | _ ↦ q ]
        ≡ drain_all (b ++ (c ++ concat cs)) fs)
      (sym (append-drain_all b c fs e fit.0))
      (rw (← append_assoc b c (concat cs)) (
        feed_on (b ++ c) (concat cs) cs fs r
          (λ stuck. feed-drain_all r.buffer cs r.frames stuck fit.1)
          (drain_all-Continues (suc (length (b ++ c))) (b ++ c) (concat cs) fs (omega arith))))

-- Every call that `append` accepts leaves at most an unfinished frame in the buffer, fewer bytes
-- than a header and the largest payload; a call that it does not accept leaves none. The loop always
-- ends by itself: no call runs out of its fuel.
pub append_buffer :
    (b c : List ℕ) (fs : List TerminalRelayFrame)
    → ((append b c fs).status ≡ accepted
        → length (append b c fs).buffer < frame_header_bytes + maximum_payload_bytes)
      × ((append b c fs).status ≢ accepted → (append b c fs).buffer ≡ [])
      × ((append b c fs).status ≢ out_of_fuel)
unfolding append
append_buffer b c fs =
    let r : Received = drain_all (b ++ c) fs in
    ground (arith, drain_all-Continues (suc (length (b ++ c))) (b ++ c) [] fs, round-leave r.buffer)
