-- ===== src/FileTransfer/DataFrame/Soundness.antt =====
-- What KFileTransferDataFrameCodec::decode lets through (src/core/protocol/filetransferdataframe.cpp).
use win_remote_control.Prelude.{
  ok, passed, ℕ, ◌+◌, ◌^◌, ◌≤◌, ◌<◌, ◌≡◌, subst, false, not, ◌||◌, List, arith, ltb, ◌==◌, length,
  take, drop, length-drop, length-take, read_be,
}
use win_remote_control.Qt.{UuidLibrary}
use win_remote_control.FileTransfer.DataFrame.{
  overflows, is_payload_length, magic, decode, header_bytes, maximum_frame_bytes,
  FileTransferDataFrame,
}

module _ (q : UuidLibrary) where
  -- Bytes of the exact size, at most a maximal frame, two identifiers, a payload that is not empty,
  -- and a piece of the file that ends below 2 ^ 64.
  pub record IsPiece (bytes : List ℕ) (f : FileTransferDataFrame) : Type 0 where
    pub sized : length bytes ≡ header_bytes + length f.payload
    pub small : length bytes ≤ maximum_frame_bytes
    pub task : q.is_null (q.from_string f.task_id) ≡ false
    pub file : q.is_null (q.from_string f.file_id) ≡ false
    pub some_payload : 0 < length f.payload
    pub fits : f.offset + length f.payload < 2 ^ 64

  -- What the tests of `decode` say of the frame that it returns.
  decoded-IsPiece :
      (bytes : List ℕ) (task file : q.Uuid) (flags offset size : ℕ)
      → ltb maximum_frame_bytes (length bytes) ≡ false
      → (q.is_null task || q.is_null file) ≡ false
      → not (is_payload_length size) ≡ false
      → not (length bytes == header_bytes + size) ≡ false
      → overflows offset size ≡ false
      → IsPiece bytes (record {
        flags = flags;
        task_id = q.to_string task;
        file_id = q.to_string file;
        offset = offset;
        payload = take size (drop header_bytes bytes);
      })
  decoded-IsPiece bytes task file flags offset size small identified bounded sized fits =
      let taken : length (take size (drop header_bytes bytes)) ≡ size =
        ground
          (arith, length-take size (drop header_bytes bytes), length-drop header_bytes bytes) in
      record {
        sized = ground arith;
        small = ground arith;
        task = rw (q.from_string-to_string task) (ground arith);
        file = rw (q.from_string-to_string file) (ground arith);
        some_payload = ground arith;
        fits = ground arith;
      }

  -- Every frame that is decoded is a piece: its bytes have the exact size and at most the maximum, its
  -- identifiers are not null, its payload is not empty, and it ends below 2 ^ 64, so that the end of
  -- the piece can be computed in 64 bits.
  pub decode-IsPiece :
      (bytes : List ℕ) (f : FileTransferDataFrame) → decode q bytes ≡ ok f → IsPiece bytes f
  unfolding decode
  decode-IsPiece bytes f e =
      let task = q.from_rfc4122 (take 16 (drop 8 bytes)) in
      let file = q.from_rfc4122 (take 16 (drop 24 bytes)) in
      let size = read_be 4 0 48 bytes in
      let offset = read_be 8 0 40 bytes in
      let (_, e1) = passed (ltb (length bytes) header_bytes) _ _ e in
      let (small, e2) = passed (ltb maximum_frame_bytes (length bytes)) _ _ e1 in
      let (_, e3) = passed (not (read_be 4 0 0 bytes == magic)) _ _ e2 in
      let (_, e4) = passed (not (read_be 2 0 4 bytes == 1)) _ _ e3 in
      let (identified, e5) = passed (q.is_null task || q.is_null file) _ _ e4 in
      let (bounded, e6) = passed (not (is_payload_length size)) _ _ e5 in
      let (sized, e7) = passed (not (length bytes == header_bytes + size)) _ _ e6 in
      let (fits, e8) = passed (overflows offset size) _ _ e7 in
      subst (IsPiece bytes) (cc e8) (
        decoded-IsPiece bytes task file (read_be 2 0 6 bytes) offset size small identified bounded
          sized fits)
