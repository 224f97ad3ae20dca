-- ===== src/Terminal/Relay.antt =====
-- The frames between the program and the terminal relay process: terminalrelayprotocol.h and
-- KTerminalRelayFrameCodec (src/core/terminal/terminalrelayframecodec.h and .cpp).
pub mod Loop
pub mod Stream
pub mod RoundTrip
mod Tests
use win_remote_control.Prelude.{
  ℕ, zero, suc, ◌+◌, ◌-◌, ◌*◌, ◌/◌, ◌%◌, ◌^◌, ◌≤◌, ◌<◌, min, max, ◌≡◌, refl, sym, ap, subst, ◌∙◌,
  ◌≢◌, ◌↔◌, ◌⊎◌, inl, inr, Bool, true, false, not, ◌&&◌, ◌||◌, Option, none, some, List, [], ◌∷◌,
  ◌++◌, map, Memᴰ, arith, String, str_eq, str_eq_iff, ltb, leb, ◌==◌, if◌then◌else◌, ltb→lt, lt→ltb,
  leb→le, ==_iff, tests, Bool-cases, Option-cases, length, take, drop, length-append, length-drop,
  take-append_length, drop-append_length, byte_at, write_le, write_be, read_le, read_be,
  byte_at-append, take-append, drop-append,
}

abbrev pub magic : ℕ
magic = 0x54435257

abbrev pub version : ℕ
version = 1

abbrev pub maximum_payload_bytes : ℕ
maximum_payload_bytes = 64 * 1024

abbrev pub frame_header_bytes : ℕ
frame_header_bytes = 12

abbrev pub write_uint16 : ℕ → List ℕ
write_uint16 v = write_le 2 0 v

abbrev pub write_uint32 : ℕ → List ℕ
write_uint32 v = write_le 4 0 v

abbrev pub read_uint16 : ℕ → List ℕ → ℕ
read_uint16 offset bs = read_le 2 0 offset bs

abbrev pub read_uint32 : ℕ → List ℕ → ℕ
read_uint32 offset bs = read_le 4 0 offset bs

pub record DecodedFrameHeader : Type 0 where
  pub type : ℕ
  pub payload_bytes : ℕ

unfoldable pub encode_frame_header : ℕ → ℕ → List ℕ
encode_frame_header type payload_bytes =
    write_uint32 magic
    ++ (write_uint16 version ++ (write_uint16 type ++ write_uint32 payload_bytes))

-- `none` where the source answers false.
unfoldable pub decode_frame_header : List ℕ → Option DecodedFrameHeader
decode_frame_header bs =
    if not (read_uint32 0 bs == magic) || not (read_uint16 4 bs == version)
    then none
    else some (record { type = read_uint16 6 bs; payload_bytes = read_uint32 8 bs })

abbrev pub is_known_frame_type : ℕ → Bool
is_known_frame_type type = leb 1 type && leb type 5

pub record TerminalRelayFrame : Type 0 where
  pub type : ℕ
  pub payload : List ℕ

-- The empty array stands for a refusal.
unfoldable pub encode : ℕ → List ℕ → List ℕ
encode type payload =
    if ltb maximum_payload_bytes (length payload)
    then []
    else if not (is_known_frame_type type)
    then []
    else encode_frame_header type (length payload % 2 ^ 32) ++ payload

abbrev pub maximum_buffered_bytes : ℕ
maximum_buffered_bytes = 1024 * 1024

-- `accepted` is the answer true; the others are false, with the error message that they name.
pub data Status : Type 0 where
  accepted invalid_header overflow out_of_fuel : Status

-- The buffer and the frames after a call, and its answer.
pub record Received : Type 0 where
  pub buffer : List ℕ
  pub frames : List TerminalRelayFrame
  pub status : Status

-- The header that the loop works with; `none` where the source reports an invalid header.
unfoldable pub valid_header : List ℕ → Option DecodedFrameHeader
valid_header buffer = elim (decode_frame_header buffer) [
  | none ↦ none
  | some header ↦
      if not (is_known_frame_type header.type) || ltb maximum_payload_bytes header.payload_bytes
      then none
      else some header
]

abbrev pub frame_of : DecodedFrameHeader → List ℕ → TerminalRelayFrame
frame_of header buffer = record {
  type = header.type;
  payload = take header.payload_bytes (drop frame_header_bytes buffer);
}

-- What a round of the while loop of `append` finds: too little for a frame, a header to refuse, or a
-- whole frame under the header.
pub data Round : Type 0 where
  leave reject : Round
  whole : DecodedFrameHeader → Round

unfoldable pub round : List ℕ → Round
round buffer =
    if ltb (length buffer) frame_header_bytes then leave else elim (valid_header buffer) [
      | none ↦ reject
      | some header ↦
          if ltb (length buffer) (frame_header_bytes + header.payload_bytes)
          then leave
          else whole header
    ]

-- The while loop of `append`.
unfoldable pub drain : ℕ → List ℕ → List TerminalRelayFrame → Received
drain zero buffer frames = record { buffer = buffer; frames = frames; status = out_of_fuel }
drain (suc fuel) buffer frames = elim (round buffer) [
  | leave ↦ record { buffer = buffer; frames = frames; status = accepted }
  | reject ↦ record { buffer = []; frames = frames; status = invalid_header }
  | whole header ↦
      drain fuel (drop (frame_header_bytes + header.payload_bytes) buffer)
        (frames ++ frame_of header buffer ∷ [])
]

-- A round takes twelve bytes or more, so the buffer's size is fuel enough.
unfoldable pub drain_all : List ℕ → List TerminalRelayFrame → Received
drain_all buffer frames = drain (suc (length buffer)) buffer frames

-- The test of the source, data.size() > kMaximumBufferedBytes - m_buffer.size(), is on signed sizes.
unfoldable pub append : List ℕ → List ℕ → List TerminalRelayFrame → Received
append buffer bytes frames =
    if ltb maximum_buffered_bytes (length bytes + length buffer)
    then record { buffer = []; frames = frames; status = overflow }
    else drain_all (buffer ++ bytes) frames
