-- ===== src/FileTransfer/DataFrame.antt =====
-- KFileTransferDataFrameCodec (src/core/protocol/filetransferdataframe.h and .cpp): pieces of a file on
-- the data channel, in big-endian order. A null `pFrame` is not modelled.
pub mod RoundTrip
pub mod Soundness
mod Tests
use win_remote_control.Prelude.{
  Outcome, ok, err, passed, ℕ, zero, suc, ◌+◌, ◌-◌, ◌*◌, ◌/◌, ◌%◌, ◌^◌, ◌≤◌, ◌<◌, min, max, ◌≡◌,
  refl, sym, ap, subst, ◌∙◌, ◌≢◌, ◌↔◌, ◌⊎◌, inl, inr, Bool, true, false, not, ◌&&◌, ◌||◌, Option,
  none, some, List, [], ◌∷◌, ◌++◌, map, Memᴰ, append-nil, append_assoc, arith, String, str_eq,
  str_eq_iff, ltb, leb, ◌==◌, if◌then◌else◌, ltb→lt, lt→ltb, leb→le, ==_iff, tests, Bool-cases,
  Option-cases, length, take, drop, length-append, length-drop, take-append_length,
  drop-append_length, List-cases, take_all, length-take, byte_at, write_le, write_be, read_le,
  read_be, byte_at-append, take-append, drop-append, byte_at-skip, drop-skip, take-skip,
}
use win_remote_control.Qt.{UuidLibrary}

pub record FileTransferDataFrame : Type 0 where
  pub flags : ℕ  -- quint16
  pub task_id : String
  pub file_id : String
  pub offset : ℕ  -- quint64
  pub payload : List ℕ

-- The error messages of the two functions.
pub data FrameError : Type 0 where
  truncated too_large bad_magic bad_version bad_id : FrameError
  bad_payload_length length_mismatch range_overflow : FrameError

abbrev pub magic : ℕ
magic = 0x57524644

abbrev pub header_bytes : ℕ
header_bytes = 52

abbrev pub maximum_frame_bytes : ℕ
maximum_frame_bytes = 64 * 1024

abbrev pub maximum_payload_bytes : ℕ
maximum_payload_bytes = maximum_frame_bytes - header_bytes

abbrev pub is_payload_length : ℕ → Bool
is_payload_length n = not (n == 0) && leb n maximum_payload_bytes

-- offset > numeric_limits<quint64>::max() - size, for a size that has been tested to be small.
abbrev pub overflows : ℕ → ℕ → Bool
overflows offset size = ltb (2 ^ 64 - 1 - size) offset

module _ (q : UuidLibrary) where
  open q use {from_string, to_string, is_null, to_rfc4122, from_rfc4122}

  unfoldable pub encode : FileTransferDataFrame → Outcome FrameError (List ℕ)
  encode f =
      let task_id = from_string f.task_id in
      let file_id = from_string f.file_id in
      if is_null task_id || is_null file_id
      then err bad_id
      else if not (is_payload_length (length f.payload))
      then err bad_payload_length
      else if overflows f.offset (length f.payload)
      then err range_overflow
      else ok (
          write_be 4 magic
          ++ (write_be 2 1
              ++ (write_be 2 f.flags
                  ++ (to_rfc4122 task_id
                      ++ (to_rfc4122 file_id
                          ++ (write_be 8 f.offset
                              ++ (write_be 4 (length f.payload % 2 ^ 32) ++ f.payload)))))))

  unfoldable pub decode : List ℕ → Outcome FrameError FileTransferDataFrame
  decode bytes =
      let task_id = from_rfc4122 (take 16 (drop 8 bytes)) in
      let file_id = from_rfc4122 (take 16 (drop 24 bytes)) in
      let offset = read_be 8 0 40 bytes in
      let payload_bytes = read_be 4 0 48 bytes in
      if ltb (length bytes) header_bytes
      then err truncated
      else if ltb maximum_frame_bytes (length bytes)
      then err too_large
      else if not (read_be 4 0 0 bytes == magic)
      then err bad_magic
      else if not (read_be 2 0 4 bytes == 1)
      then err bad_version
      else if is_null task_id || is_null file_id
      then err bad_id
      else if not (is_payload_length payload_bytes)
      then err bad_payload_length
      else if not (length bytes == header_bytes + payload_bytes)
      then err length_mismatch
      else if overflows offset payload_bytes
      then err range_overflow
      else ok (record {
        flags = read_be 2 0 6 bytes;
        task_id = to_string task_id;
        file_id = to_string file_id;
        offset = offset;
        payload = take payload_bytes (drop header_bytes bytes);
      })
