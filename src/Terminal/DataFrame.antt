-- ===== src/Terminal/DataFrame.antt =====
-- KTerminalDataFrameCodec (src/core/protocol/terminaldataframe.h and .cpp): terminal input and output
-- on the data channel, in little-endian order. A null `pFrame` is not modelled.
pub mod RoundTrip
mod Tests
use win_remote_control.Prelude.{
  Outcome, ok, err, ℕ, zero, suc, ◌+◌, ◌-◌, ◌*◌, ◌/◌, ◌%◌, ◌^◌, ◌≤◌, ◌<◌, min, max, ◌≡◌, refl, sym,
  ap, subst, ◌∙◌, ◌≢◌, ◌↔◌, ◌⊎◌, inl, inr, Bool, true, false, not, ◌&&◌, ◌||◌, Option, none, some,
  List, [], ◌∷◌, ◌++◌, map, Memᴰ, append-nil, append_assoc, arith, String, str_eq, str_eq_iff, ltb,
  leb, ◌==◌, if◌then◌else◌, ltb→lt, lt→ltb, leb→le, ==_iff, tests, Bool-cases, Option-cases, length,
  take, drop, length-append, length-drop, take-append_length, drop-append_length, List-cases,
  byte_at, write_le, write_be, read_le, read_be, byte_at-append, take-append, drop-append,
  byte_at-skip,
}
use win_remote_control.Qt.{UuidLibrary}

pub data TerminalDataDirection : Type 0 where
  invalid input output : TerminalDataDirection

abbrev pub direction_code : TerminalDataDirection → ℕ
direction_code invalid = 0
direction_code input = 1
direction_code output = 2

-- The cast of a number that has been tested to be 1 or 2.
abbrev pub direction_of : ℕ → TerminalDataDirection
direction_of n = if n == 1 then input else if n == 2 then output else invalid

abbrev pub is_direction : ℕ → Bool
is_direction n = n == 1 || n == 2

pub record TerminalDataFrame : Type 0 where
  pub direction : TerminalDataDirection
  pub request_id : String
  pub sequence : ℕ  -- quint64
  pub payload : List ℕ

-- The error messages of the two functions.
pub data FrameError : Type 0 where
  truncated bad_magic bad_version bad_direction bad_request_id : FrameError
  bad_sequence bad_payload_length length_mismatch : FrameError

abbrev pub magic : ℕ
magic = 0x54445257

abbrev pub header_bytes : ℕ
header_bytes = 36

abbrev pub maximum_payload_bytes : ℕ
maximum_payload_bytes = 64 * 1024 - header_bytes

abbrev pub is_payload_length : ℕ → Bool
is_payload_length n = not (n == 0) && leb n maximum_payload_bytes

module _ (q : UuidLibrary) where
  open q use {from_string, to_string, is_null, to_rfc4122, from_rfc4122}

  unfoldable pub encode : TerminalDataFrame → Outcome FrameError (List ℕ)
  encode f =
      let request_id = from_string f.request_id in
      if is_null request_id
      then err bad_request_id
      else if not (is_direction (direction_code f.direction))
      then err bad_direction
      else if f.sequence == 0
      then err bad_sequence
      else if not (is_payload_length (length f.payload))
      then err bad_payload_length
      else ok (
          write_le 4 0 magic
          ++ (write_le 2 0 1
              ++ (write_le 2 0 (direction_code f.direction)
                  ++ (to_rfc4122 request_id
                      ++ (write_le 8 0 f.sequence
                          ++ (write_le 4 0 (length f.payload % 2 ^ 32) ++ f.payload))))))

  unfoldable pub decode : List ℕ → Outcome FrameError TerminalDataFrame
  decode bytes =
      let direction = read_le 2 0 6 bytes in
      let request_id = from_rfc4122 (take 16 (drop 8 bytes)) in
      let sequence = read_le 8 0 24 bytes in
      let payload_bytes = read_le 4 0 32 bytes in
      if ltb (length bytes) header_bytes
      then err truncated
      else if not (read_le 4 0 0 bytes == magic)
      then err bad_magic
      else if not (read_le 2 0 4 bytes == 1)
      then err bad_version
      else if not (is_direction direction)
      then err bad_direction
      else if is_null request_id
      then err bad_request_id
      else if sequence == 0
      then err bad_sequence
      else if not (is_payload_length payload_bytes)
      then err bad_payload_length
      else if not (length bytes == header_bytes + payload_bytes)
      then err length_mismatch
      else ok (record {
        direction = direction_of direction;
        request_id = to_string request_id;
        sequence = sequence;
        payload = take payload_bytes (drop header_bytes bytes);
      })
