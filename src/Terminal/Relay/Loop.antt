-- ===== src/Terminal/Relay/Loop.antt =====
-- The loop of KTerminalRelayFrameCodec::append, one round at a time.
use win_remote_control.Prelude.{
  ℕ, zero, suc, ◌+◌, ◌≤◌, ◌<◌, ◌≡◌, refl, ◌⊎◌, inl, inr, some, List, ◌++◌, arith, Option-cases,
  length, length-append, length-drop, byte_at, byte_at-append,
}
use win_remote_control.Terminal.Relay.{
  maximum_payload_bytes, maximum_payload_bytes, frame_header_bytes, reject, TerminalRelayFrame,
  decode_frame_header, leave, whole, Round, drain, round, valid_header, DecodedFrameHeader,
}

pub Round-cases :
    (r : Round) → (r ≡ leave) ⊎ ((r ≡ reject) ⊎ ((h : DecodedFrameHeader) × (r ≡ whole h)))
Round-cases leave = inl refl
Round-cases reject = inr (inl refl)
Round-cases (whole h) = inr (inr (h, refl))

decode_frame_header-append :
    (xs ys : List ℕ)
    → frame_header_bytes ≤ length xs
    → decode_frame_header (xs ++ ys) ≡ decode_frame_header xs
unfolding decode_frame_header
decode_frame_header-append xs ys h =
    let at : (i : ℕ) → i < length xs → byte_at (xs ++ ys) i ≡ byte_at xs i = byte_at-append xs ys in
    rw (
      at 0 (omega arith),
      at 1 (omega arith),
      at 2 (omega arith),
      at 3 (omega arith),
      at 4 (omega arith),
      at 5 (omega arith),
      at 6 (omega arith),
      at 7 (omega arith),
      at 8 (omega arith),
      at 9 (omega arith),
      at 10 (omega arith),
      at 11 (omega arith),
    )

-- A header is all in the first twelve bytes.
pub valid_header-append :
    (xs ys : List ℕ) → frame_header_bytes ≤ length xs → valid_header (xs ++ ys) ≡ valid_header xs
unfolding valid_header
valid_header-append xs ys h = rw (decode_frame_header-append xs ys h, valid_header)

-- What the bytes of a whole frame are.
pub round-whole :
    (buffer : List ℕ) (header : DecodedFrameHeader)
    → round buffer ≡ whole header
    → (frame_header_bytes + header.payload_bytes ≤ length buffer)
      × (valid_header buffer ≡ some header)
unfolding round
round-whole buffer header e = elim (Option-cases (valid_header buffer)) [
  | inl n ↦ ground arith
  | inr (h, n) ↦ ground arith
]

pub round-leave :
    (buffer : List ℕ)
    → round buffer ≡ leave
    → length buffer < frame_header_bytes + maximum_payload_bytes
unfolding round valid_header
round-leave buffer e = ground arith

-- Bytes that follow change neither a whole frame nor a header that is refused.
pub round-append : (xs ys : List ℕ) → (round xs ≡ leave) ⊎ (round (xs ++ ys) ≡ round xs)
unfolding round
round-append xs ys = elim (Option-cases (valid_header xs)) [
  | inl n ↦ ground (arith, valid_header-append xs ys, length-append xs ys)
  | inr (h, n) ↦ ground (arith, valid_header-append xs ys, length-append xs ys)
]

-- More fuel than the buffer has bytes changes nothing.
pub drain_fuel :
    (f g : ℕ) (buffer : List ℕ) (frames : List TerminalRelayFrame)
    → length buffer < f
    → length buffer < g
    → drain f buffer frames ≡ drain g buffer frames
unfolding drain
drain_fuel zero g buffer frames p q = elim p [ ]
drain_fuel (suc f) zero buffer frames p q = elim q [ ]
drain_fuel (suc f) (suc g) buffer frames p q = elim (Round-cases (round buffer)) [
  | inl e ↦ rw (e, drain)
  | inr (inl e) ↦ rw (e, drain)
  | inr (inr (h, e)) ↦
      rw (e, drain)
        (drain_fuel f g _ _
          (omega (
            arith,
            round-whole buffer h e,
            length-drop (frame_header_bytes + h.payload_bytes) buffer,
          ))
          (omega (
            arith,
            round-whole buffer h e,
            length-drop (frame_header_bytes + h.payload_bytes) buffer,
          )))
]
