-- ===== src/Terminal/Relay/RoundTrip.antt =====
-- Frames written by KTerminalRelayFrameCodec::encode and read back by `append`.
use win_remote_control.Prelude.{
  ℕ, ◌+◌, ◌^◌, ◌≤◌, ◌<◌, ◌≡◌, refl, ◌∙◌, true, some, List, [], ◌∷◌, ◌++◌, append-nil, append_assoc,
  arith, length, take, drop, length-append, take-append_length, drop-append_length,
}
use win_remote_control.Terminal.Relay.{
  maximum_payload_bytes, whole, accepted, drain_all, frame_header_bytes, is_known_frame_type,
  valid_header, TerminalRelayFrame, decode_frame_header, encode, encode_frame_header, round,
}
use win_remote_control.Terminal.Relay.Stream.{
  drain_all-whole, drain_all-leave, concat, feed, PiecesFit, feed-drain_all,
}

-- A frame that `encode` does not refuse.
pub record IsSendable (f : TerminalRelayFrame) : Type 0 where
  pub known : is_known_frame_type f.type ≡ true
  pub small : length f.payload ≤ maximum_payload_bytes

abbrev pub AllSendable : List TerminalRelayFrame → Type 0
AllSendable [] = Unit {0}
AllSendable (f ∷ fs) = IsSendable f × AllSendable fs

abbrev pub stream_of : List TerminalRelayFrame → List ℕ
stream_of [] = []
stream_of (f ∷ fs) = encode f.type f.payload ++ stream_of fs

-- The header of a known type and a payload size in range.
decode-encode_frame_header :
    (type n : ℕ) (rest : List ℕ)
    → type < 2 ^ 16
    → n < 2 ^ 32
    → decode_frame_header (encode_frame_header type n ++ rest)
      ≡ some (record { type = type; payload_bytes = n })
unfolding decode_frame_header encode_frame_header
decode-encode_frame_header type n rest p q = ground arith

length-encode_frame_header : (type n : ℕ) → length (encode_frame_header type n) ≡ frame_header_bytes
unfolding encode_frame_header
length-encode_frame_header type n = refl

encode_lem :
    (f : TerminalRelayFrame)
    → IsSendable f
    → encode f.type f.payload ≡ encode_frame_header f.type (length f.payload) ++ f.payload
unfolding encode
encode_lem f s = ground arith

round-encode :
    (f : TerminalRelayFrame) (rest : List ℕ)
    → IsSendable f
    → round (encode_frame_header f.type (length f.payload) ++ (f.payload ++ rest))
      ≡ whole (record { type = f.type; payload_bytes = length f.payload })
unfolding round valid_header
round-encode f rest s = ground (
  arith,
  decode-encode_frame_header f.type (length f.payload) (f.payload ++ rest),
  length-append (encode_frame_header f.type (length f.payload)) (f.payload ++ rest),
  length-append f.payload rest,
  length-encode_frame_header f.type (length f.payload),
)

-- What is behind a frame, and what is in it.
drop-frame :
    (f : TerminalRelayFrame) (rest : List ℕ)
    → drop
        (frame_header_bytes + length f.payload)
        (encode_frame_header f.type (length f.payload) ++ (f.payload ++ rest))
      ≡ rest
drop-frame f rest =
    rw (← append_assoc header f.payload rest, ← size)
      (drop-append_length (header ++ f.payload) rest)
  where
    header : List ℕ
    header = encode_frame_header f.type (length f.payload)

    size : length (header ++ f.payload) ≡ frame_header_bytes + length f.payload
    size = omega (
      arith,
      length-append header f.payload,
      length-encode_frame_header f.type (length f.payload),
    )

payload-frame :
    (f : TerminalRelayFrame) (rest : List ℕ)
    → take (length f.payload) (
        drop frame_header_bytes
          (encode_frame_header f.type (length f.payload) ++ (f.payload ++ rest)))
      ≡ f.payload
unfolding encode_frame_header
payload-frame f rest = take-append_length f.payload rest

drain_all-encode :
    (f : TerminalRelayFrame) (rest : List ℕ) (out : List TerminalRelayFrame)
    → IsSendable f
    → drain_all (encode f.type f.payload ++ rest) out ≡ drain_all rest (out ++ f ∷ [])
drain_all-encode f rest out s =
    rw (encode_lem f s, append_assoc (encode_frame_header f.type (length f.payload)) f.payload rest)
      (drain_all-whole _ out _ (round-encode f rest s)
        ∙ rw (drop-frame f rest, payload-frame f rest))

drain_all-stream_of :
    (fs out : List TerminalRelayFrame)
    → AllSendable fs
    → drain_all (stream_of fs) out ≡ record { buffer = []; frames = out ++ fs; status = accepted }
drain_all-stream_of [] out s = rw append-nil (drain_all-leave [] out (unfold round in refl))
drain_all-stream_of (f ∷ fs) out s =
    rw (drain_all-encode f (stream_of fs) out s.0, drain_all-stream_of fs (out ++ f ∷ []) s.1)
      (rw (append_assoc out (f ∷ []) fs))

-- Sendable frames, encoded one after the other and received in pieces cut anywhere, of at most
-- `maximum_piece_bytes` bytes each, come out as they went in, in order, and nothing is left over.
pub feed-encode :
    (fs : List TerminalRelayFrame) (pieces : List (List ℕ))
    → AllSendable fs
    → concat pieces ≡ stream_of fs
    → PiecesFit pieces
    → feed [] pieces [] ≡ record { buffer = []; frames = fs; status = accepted }
feed-encode fs pieces s e fit =
    feed-drain_all [] pieces [] (unfold round in refl) fit ∙ rw e (drain_all-stream_of fs [] s)
