-- ===== src/FileTransfer/DataFrame/RoundTrip.antt =====
-- File transfer data frames written and read back (src/core/protocol/filetransferdataframe.cpp).
use win_remote_control.Prelude.{
  ok, ℕ, ◌+◌, ◌%◌, ◌^◌, ◌≤◌, ◌<◌, ◌≡◌, false, List, ◌++◌, arith, length, take, drop, length-append,
  take_all, byte_at, write_be, read_be, byte_at-skip, drop-skip, take-skip,
}
use win_remote_control.Qt.{UuidLibrary}
use win_remote_control.FileTransfer.DataFrame.{
  decode, encode, header_bytes, magic, maximum_payload_bytes, FileTransferDataFrame,
}

module _ (q : UuidLibrary) where
  -- A frame that `encode` takes: the identifiers are in the form that Qt prints, and the piece ends
  -- below 2 ^ 64.
  pub record IsEncodable (f : FileTransferDataFrame) : Type 0 where
    pub task : q.is_null (q.from_string f.task_id) ≡ false
    pub file : q.is_null (q.from_string f.file_id) ≡ false
    pub canonical_task : q.to_string (q.from_string f.task_id) ≡ f.task_id
    pub canonical_file : q.to_string (q.from_string f.file_id) ≡ f.file_id
    pub flagged : f.flags < 2 ^ 16
    pub in_range : f.offset + length f.payload < 2 ^ 64
    pub some_payload : 0 < length f.payload
    pub bounded : length f.payload ≤ maximum_payload_bytes

  -- The bytes of a frame, its parts given.
  abbrev frame_bytes : ℕ → List ℕ → List ℕ → ℕ → ℕ → List ℕ → List ℕ
  frame_bytes flags task file offset size payload =
      write_be 4 magic
      ++ (write_be 2 1
          ++ (write_be 2 flags
              ++ (task ++ (file ++ (write_be 8 offset ++ (write_be 4 size ++ payload))))))

  read_offset :
      (flags offset size : ℕ) (task file payload : List ℕ)
      → length task ≡ 16
      → length file ≡ 16
      → offset < 2 ^ 64
      → read_be 8 0 40 (frame_bytes flags task file offset size payload) ≡ offset
  read_offset flags offset size task file payload h k lt =
      let rest = write_be 8 offset ++ (write_be 4 size ++ payload) in
      let at : (i : ℕ) → byte_at (file ++ rest) (16 + i) ≡ byte_at rest i =
        λ i. byte_at-skip file rest 16 i k in
      let past : (i : ℕ) → byte_at (task ++ (file ++ rest)) (16 + i) ≡ byte_at (file ++ rest) i =
        λ i. byte_at-skip task (file ++ rest) 16 i h in
      rw
        (
          past 16,
          past 17,
          past 18,
          past 19,
          past 20,
          past 21,
          past 22,
          past 23,
          at 0,
          at 1,
          at 2,
          at 3,
          at 4,
          at 5,
          at 6,
          at 7,
        )
        (omega arith)

  read_size :
      (flags offset size : ℕ) (task file payload : List ℕ)
      → length task ≡ 16
      → length file ≡ 16
      → size < 2 ^ 32
      → read_be 4 0 48 (frame_bytes flags task file offset size payload) ≡ size
  read_size flags offset size task file payload h k lt =
      let rest = write_be 8 offset ++ (write_be 4 size ++ payload) in
      let at : (i : ℕ) → byte_at (file ++ rest) (16 + i) ≡ byte_at rest i =
        λ i. byte_at-skip file rest 16 i k in
      let past : (i : ℕ) → byte_at (task ++ (file ++ rest)) (16 + i) ≡ byte_at (file ++ rest) i =
        λ i. byte_at-skip task (file ++ rest) 16 i h in
      rw (past 24, past 25, past 26, past 27, at 8, at 9, at 10, at 11) (omega arith)

  read_flags :
      (flags offset size : ℕ) (task file payload : List ℕ)
      → flags < 2 ^ 16
      → read_be 2 0 6 (frame_bytes flags task file offset size payload) ≡ flags
  read_flags flags offset size task file payload lt = omega arith

  read_parts :
      (flags offset size : ℕ) (task file payload : List ℕ)
      → length task ≡ 16
      → length file ≡ 16
      → let bs = frame_bytes flags task file offset size payload in
        (take 16 (drop 8 bs) ≡ task)
        × (take 16 (drop 24 bs) ≡ file)
        × (drop header_bytes bs ≡ payload)
        × (length bs ≡ header_bytes + length payload)
  read_parts flags offset size task file payload h k =
      let rest = write_be 8 offset ++ (write_be 4 size ++ payload) in
      (
        take-skip task (file ++ rest) 16 h,
        rw (drop-skip task (file ++ rest) 16 0 h) (take-skip file rest 16 k),
        rw (drop-skip task (file ++ rest) 16 28 h) (drop-skip file rest 16 12 k),
        omega (arith, length-append task (file ++ rest), length-append file rest),
      )

  encode_lem :
      (f : FileTransferDataFrame)
      → IsEncodable f
      → encode q f
        ≡ ok (
            frame_bytes f.flags
              (q.to_rfc4122 (q.from_string f.task_id))
              (q.to_rfc4122 (q.from_string f.file_id))
              f.offset
              (length f.payload)
              f.payload)
  unfolding encode
  encode_lem f v =
      let size : length f.payload % 2 ^ 32 ≡ length f.payload = omega (arith, v.bounded) in
      rw size (ground (arith, v.some_payload, v.bounded, v.task, v.file, v.in_range))

  decode-frame_bytes :
      (f : FileTransferDataFrame)
      → IsEncodable f
      → decode q (
          frame_bytes f.flags
            (q.to_rfc4122 (q.from_string f.task_id))
            (q.to_rfc4122 (q.from_string f.file_id))
            f.offset
            (length f.payload)
            f.payload)
        ≡ ok f
  unfolding decode
  decode-frame_bytes f v =
      let n : ℕ = length f.payload in
      let t = q.from_string f.task_id in
      let u = q.from_string f.file_id in
      let h = q.length-to_rfc4122 t in
      let k = q.length-to_rfc4122 u in
      let task = q.to_rfc4122 t in
      let file = q.to_rfc4122 u in
      let parts = read_parts f.flags f.offset n task file f.payload h k in
      rw
        (
          read_offset f.flags f.offset n task file f.payload h k (omega (arith, v.in_range)),
          read_size f.flags f.offset n task file f.payload h k (omega (arith, v.bounded)),
          read_flags f.flags f.offset n task file f.payload v.flagged,
          parts.0,
          parts.1,
          parts.2,
          parts.3,
        )
        (ground (
          arith,
          q.from_rfc4122-to_rfc4122 t,
          q.from_rfc4122-to_rfc4122 u,
          take_all f.payload,
          v.some_payload,
          v.bounded,
          v.in_range,
        ))

  -- A frame that can be encoded is decoded to itself: its flags, both identifiers in the form that Qt
  -- prints, its offset and its payload.
  pub decode-encode_piece :
      (f : FileTransferDataFrame)
      → IsEncodable f
      → (bytes : List ℕ) × (encode q f ≡ ok bytes) × (decode q bytes ≡ ok f)
  decode-encode_piece f v = (_, encode_lem f v, decode-frame_bytes f v)
