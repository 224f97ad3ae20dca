-- ===== src/Terminal/DataFrame/RoundTrip.antt =====
-- Terminal data frames written and read back (src/core/protocol/terminaldataframe.cpp).
use win_remote_control.Prelude.{
  ok, passed, ℕ, ◌+◌, ◌%◌, ◌^◌, ◌≤◌, ◌<◌, ◌≡◌, refl, subst, true, false, not, List, ◌++◌, arith,
  ltb, ◌==◌, length, take, drop, length-append, length-drop, take_all, length-take, byte_at,
  write_le, read_le, byte_at-skip, drop-skip, take-skip,
}
use win_remote_control.Qt.{UuidLibrary}
use win_remote_control.Terminal.DataFrame.{
  is_payload_length, input, output, invalid, direction_of, TerminalDataDirection, decode, encode,
  header_bytes, maximum_payload_bytes, direction_code, is_direction, magic, TerminalDataFrame,
}

module _ (q : UuidLibrary) where
  -- A frame that `encode` takes: the identifier is in the form that Qt prints.
  pub record IsEncodable (f : TerminalDataFrame) : Type 0 where
    pub identified : q.is_null (q.from_string f.request_id) ≡ false
    pub canonical : q.to_string (q.from_string f.request_id) ≡ f.request_id
    pub directed : is_direction (direction_code f.direction) ≡ true
    pub numbered : 0 < f.sequence
    pub in_range : f.sequence < 2 ^ 64
    pub some_payload : 0 < length f.payload
    pub bounded : length f.payload ≤ maximum_payload_bytes

  -- The bytes of a frame, its parts given.
  abbrev frame_bytes : ℕ → List ℕ → ℕ → ℕ → List ℕ → List ℕ
  frame_bytes direction id sequence size payload =
      write_le 4 0 magic
      ++ (write_le 2 0 1
          ++ (write_le 2 0 direction
              ++ (id ++ (write_le 8 0 sequence ++ (write_le 4 0 size ++ payload)))))

  read_sequence :
      (direction sequence size : ℕ) (id payload : List ℕ)
      → length id ≡ 16
      → sequence < 2 ^ 64
      → read_le 8 0 24 (frame_bytes direction id sequence size payload) ≡ sequence
  read_sequence direction sequence size id payload h lt =
      let rest = write_le 8 0 sequence ++ (write_le 4 0 size ++ payload) in
      let at : (i : ℕ) → byte_at (id ++ rest) (16 + i) ≡ byte_at rest i =
        λ i. byte_at-skip id rest 16 i h in
      rw (at 0, at 1, at 2, at 3, at 4, at 5, at 6, at 7) (omega arith)

  read_size :
      (direction sequence size : ℕ) (id payload : List ℕ)
      → length id ≡ 16
      → size < 2 ^ 32
      → read_le 4 0 32 (frame_bytes direction id sequence size payload) ≡ size
  read_size direction sequence size id payload h lt =
      let rest = write_le 8 0 sequence ++ (write_le 4 0 size ++ payload) in
      let at : (i : ℕ) → byte_at (id ++ rest) (16 + i) ≡ byte_at rest i =
        λ i. byte_at-skip id rest 16 i h in
      rw (at 8, at 9, at 10, at 11) (omega arith)

  read_head :
      (direction sequence size : ℕ) (id payload : List ℕ)
      → direction < 2 ^ 16
      → let bs = frame_bytes direction id sequence size payload in
        (read_le 4 0 0 bs ≡ magic) × (read_le 2 0 4 bs ≡ 1) × (read_le 2 0 6 bs ≡ direction)
  read_head direction sequence size id payload lt = (refl, refl, omega arith)

  read_parts :
      (direction sequence size : ℕ) (id payload : List ℕ)
      → length id ≡ 16
      → let bs = frame_bytes direction id sequence size payload in
        (take 16 (drop 8 bs) ≡ id)
        × (drop header_bytes bs ≡ payload)
        × (length bs ≡ header_bytes + length payload)
  read_parts direction sequence size id payload h =
      let rest = write_le 8 0 sequence ++ (write_le 4 0 size ++ payload) in
      (take-skip id rest 16 h, drop-skip id rest 16 12 h, omega (arith, length-append id rest))

  encode_lem :
      (f : TerminalDataFrame)
      → IsEncodable f
      → encode q f
        ≡ ok (
            frame_bytes
              (direction_code f.direction)
              (q.to_rfc4122 (q.from_string f.request_id))
              f.sequence
              (length f.payload)
              f.payload)
  unfolding encode
  encode_lem f v =
      let size : length f.payload % 2 ^ 32 ≡ length f.payload = omega (arith, v.bounded) in
      rw size (ground (arith, v.numbered, v.some_payload, v.bounded, v.directed, v.identified))

  direction_of-direction_code : (d : TerminalDataDirection) → direction_of (direction_code d) ≡ d
  direction_of-direction_code invalid = refl
  direction_of-direction_code input = refl
  direction_of-direction_code output = refl

  decode-frame_bytes :
      (f : TerminalDataFrame)
      → IsEncodable f
      → decode q (
          frame_bytes
            (direction_code f.direction)
            (q.to_rfc4122 (q.from_string f.request_id))
            f.sequence
            (length f.payload)
            f.payload)
        ≡ ok f
  unfolding decode
  decode-frame_bytes f v =
      let d : ℕ = direction_code f.direction in
      let n : ℕ = length f.payload in
      let u = q.from_string f.request_id in
      let id = q.to_rfc4122 u in
      let h = q.length-to_rfc4122 u in
      let head = read_head d f.sequence n id f.payload (ground arith) in
      let parts = read_parts d f.sequence n id f.payload h in
      rw
        (
          read_sequence d f.sequence n id f.payload h v.in_range,
          read_size d f.sequence n id f.payload h (omega (arith, v.bounded)),
          head.2,
          parts.0,
          parts.1,
          parts.2,
        )
        (ground (
          arith,
          q.from_rfc4122-to_rfc4122 u,
          direction_of-direction_code f.direction,
          take_all f.payload,
          v.numbered,
          v.some_payload,
          v.bounded,
        ))

  -- A frame that can be encoded is decoded to itself: its direction, its identifier in the form that
  -- Qt prints, its sequence number and its payload.
  pub decode-encode_frame :
      (f : TerminalDataFrame)
      → IsEncodable f
      → (bytes : List ℕ) × (encode q f ≡ ok bytes) × (decode q bytes ≡ ok f)
  decode-encode_frame f v = (_, encode_lem f v, decode-frame_bytes f v)

  directed_again :
      (n : ℕ) → not (is_direction n) ≡ false → is_direction (direction_code (direction_of n)) ≡ true
  directed_again n h = ground arith

  -- What the tests of `decode` say of the frame that it returns.
  decoded_parts :
      (bytes : List ℕ) (f : TerminalDataFrame)
      → not (is_direction (read_le 2 0 6 bytes)) ≡ false
      → q.is_null (q.from_rfc4122 (take 16 (drop 8 bytes))) ≡ false
      → (read_le 8 0 24 bytes == 0) ≡ false
      → not (is_payload_length (read_le 4 0 32 bytes)) ≡ false
      → not (length bytes == header_bytes + read_le 4 0 32 bytes) ≡ false
      → ◌≡◌ {A = TerminalDataFrame}
          (record {
            direction = direction_of (read_le 2 0 6 bytes);
            request_id = q.to_string (q.from_rfc4122 (take 16 (drop 8 bytes)));
            sequence = read_le 8 0 24 bytes;
            payload = take (read_le 4 0 32 bytes) (drop header_bytes bytes);
          })
          f
      → (length bytes ≡ header_bytes + length f.payload)
        × (is_direction (direction_code f.direction) ≡ true)
        × (q.is_null (q.from_string f.request_id) ≡ false)
        × (0 < f.sequence)
        × (0 < length f.payload)
        × (length f.payload ≤ maximum_payload_bytes)
  decoded_parts bytes f directed identified numbered bounded sized e =
      let size : length (take (read_le 4 0 32 bytes) (drop header_bytes bytes))
          ≡ read_le 4 0 32 bytes =
        ground (
          arith,
          length-take (read_le 4 0 32 bytes) (drop header_bytes bytes),
          length-drop header_bytes bytes,
        ) in
      subst
        (λ (g : TerminalDataFrame).
          (length bytes ≡ header_bytes + length g.payload)
          × (is_direction (direction_code g.direction) ≡ true)
          × (q.is_null (q.from_string g.request_id) ≡ false)
          × (0 < g.sequence)
          × (0 < length g.payload)
          × (length g.payload ≤ maximum_payload_bytes))
        e
        (
          ground arith,
          directed_again (read_le 2 0 6 bytes) directed,
          rw (q.from_string-to_string (q.from_rfc4122 (take 16 (drop 8 bytes)))) identified,
          ground arith,
          ground arith,
          ground arith,
        )

  -- What a decoded frame is: bytes of the exact size, a direction that is input or output, a request,
  -- a sequence number from 1 and a payload from 1 byte to the maximum.
  pub decode_sound :
      (bytes : List ℕ) (f : TerminalDataFrame)
      → decode q bytes ≡ ok f
      → (length bytes ≡ header_bytes + length f.payload)
        × (is_direction (direction_code f.direction) ≡ true)
        × (q.is_null (q.from_string f.request_id) ≡ false)
        × (0 < f.sequence)
        × (0 < length f.payload)
        × (length f.payload ≤ maximum_payload_bytes)
  unfolding decode
  decode_sound bytes f e =
      let (long, e1) = passed (ltb (length bytes) header_bytes) _ _ e in
      let (_, e2) = passed (not (read_le 4 0 0 bytes == magic)) _ _ e1 in
      let (_, e3) = passed (not (read_le 2 0 4 bytes == 1)) _ _ e2 in
      let (directed, e4) = passed (not (is_direction (read_le 2 0 6 bytes))) _ _ e3 in
      let (identified, e5) = passed (q.is_null (q.from_rfc4122 (take 16 (drop 8 bytes)))) _ _ e4 in
      let (numbered, e6) = passed (read_le 8 0 24 bytes == 0) _ _ e5 in
      let (bounded, e7) = passed (not (is_payload_length (read_le 4 0 32 bytes))) _ _ e6 in
      let (sized, e8) = passed (not (length bytes == header_bytes + read_le 4 0 32 bytes)) _ _ e7 in
      decoded_parts bytes f directed identified numbered bounded sized (cc e8)
