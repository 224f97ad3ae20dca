-- ===== src/Transport/OutboundQueue/Limits.antt =====
-- The counters and the limits of KOutboundMessageQueue.
use win_remote_control.Prelude.{
  ℕ, ◌+◌, ◌-◌, ◌≤◌, ◌≡◌, refl, inl, inr, not, ◌||◌, some, List, [], ◌∷◌, ◌++◌, arith, String, ltb,
  leb, Bool-cases, Option-cases, length, length-append,
}
use win_remote_control.Transport.OutboundQueue.{
  is_full, prepend, enqueue, enqueue_new, enqueue_replacing, make_room_for_reliable, take_first,
  is_keyed, OutboundMessageQueue, make_room_from, take_keyed, OutboundMessage,
}

module _ (utf8_size : String → ℕ) where
  -- The bytes of all messages.
  abbrev pub total : List OutboundMessage → ℕ
  total [] = 0
  total (m ∷ ms) = utf8_size m.payload + total ms

  pub total-append : (xs ys : List OutboundMessage) → total (xs ++ ys) ≡ total xs + total ys
  total-append [] ys = omega arith
  total-append (x ∷ xs) ys = omega (arith, total-append xs ys)

  pub take_keyed-total :
      (key : String) (ms rest : List OutboundMessage) (old : OutboundMessage)
      → take_keyed key ms ≡ some (old, rest)
      → (total ms ≡ utf8_size old.payload + total rest) × (length ms ≡ length rest + 1)
  unfolding take_keyed
  take_keyed-total key [] rest old e = cc
  take_keyed-total key (m ∷ ms) rest old e = elim (Option-cases (take_keyed key ms)) [
    | inl n ↦ ground arith
    | inr ((found, r), n) ↦ ground (arith, take_keyed-total key ms r found n)
  ]

  -- The counters that the loop passes along stay those of the whole queue: `ahead` messages of
  -- `above` bytes stand before the rest.
  pub make_room_from-total :
      (mm mb required count bytes ahead above : ℕ) (ms : List OutboundMessage)
      → count ≡ ahead + length ms
      → bytes ≡ above + total ms
      → let r = make_room_from utf8_size mm mb required count bytes ms in
        (r.1 ≡ above + total r.0) × (length r.0 ≤ length ms) × (total r.0 ≤ total ms)
  unfolding make_room_from
  make_room_from-total mm mb required count bytes ahead above [] c b = omega arith
  make_room_from-total mm mb required count bytes ahead above (m ∷ ms) c b =
      elim (Bool-cases (leb mm count || ltb mb (bytes + required))) [
        | inl full ↦ elim (Bool-cases (is_keyed m)) [
          | inl k ↦
              rw (full, k, make_room_from)
                (ground (
                  arith,
                  make_room_from-total mm mb required (count - 1) (bytes - utf8_size m.payload)
                      ahead above ms,
                ))
          | inr k ↦
              rw (full, k, make_room_from)
                (ground (
                  arith,
                  make_room_from-total mm mb required count bytes (ahead + 1)
                      (above + utf8_size m.payload) ms,
                ))
        ]
        | inr room ↦ rw (room, make_room_from) (omega arith)
      ]

  -- The byte counter is the sum of the messages' sizes.
  pub record IsCounted (q : OutboundMessageQueue) : Type 0 where
    pub counted : q.bytes ≡ total q.messages

  pub record IsWithin (q : OutboundMessageQueue) : Type 0 where
    pub few : length q.messages ≤ q.maximum_messages
    pub small : q.bytes ≤ q.maximum_bytes

  pub room-IsCounted :
      (q : OutboundMessageQueue) (required : ℕ)
      → IsCounted q
      → IsCounted (make_room_for_reliable utf8_size q required).0
  unfolding make_room_for_reliable
  room-IsCounted q required v = ground (
    arith,
    make_room_from-total q.maximum_messages q.maximum_bytes required (length q.messages) q.bytes 0 0
        q.messages,
  )

  pub room_limits :
      (q : OutboundMessageQueue) (required : ℕ)
      → ((make_room_for_reliable utf8_size q required).0.maximum_messages ≡ q.maximum_messages)
        × ((make_room_for_reliable utf8_size q required).0.maximum_bytes ≡ q.maximum_bytes)
  unfolding make_room_for_reliable
  room_limits q required = (refl, refl)

  room_shrinks :
      (q : OutboundMessageQueue) (required : ℕ)
      → IsCounted q
      → let r = (make_room_for_reliable utf8_size q required).0 in
        (length r.messages ≤ length q.messages) × (r.bytes ≤ q.bytes)
  unfolding make_room_for_reliable
  room_shrinks q required v = ground (
    arith,
    make_room_from-total q.maximum_messages q.maximum_bytes required (length q.messages) q.bytes 0 0
        q.messages,
  )

  room_made :
      (q : OutboundMessageQueue) (required : ℕ)
      → (make_room_for_reliable utf8_size q required).1
        ≡ not (is_full utf8_size (make_room_for_reliable utf8_size q required).0 required)
  unfolding make_room_for_reliable
  room_made q required = refl

  enqueue_new-keeps :
      (q : OutboundMessageQueue) (m : OutboundMessage)
      → IsCounted q
      → IsCounted (enqueue_new utf8_size q m).0
        × (IsWithin q → IsWithin (enqueue_new utf8_size q m).0)
  unfolding enqueue_new
  enqueue_new-keeps q m v =
      let r = (make_room_for_reliable utf8_size q (utf8_size m.payload)).0 in
      ground (
        arith,
        length-append q.messages (m ∷ []),
        total-append q.messages (m ∷ []),
        length-append r.messages (m ∷ []),
        total-append r.messages (m ∷ []),
        room-IsCounted q (utf8_size m.payload) v,
        room_limits q (utf8_size m.payload),
        room_shrinks q (utf8_size m.payload) v,
        room_made q (utf8_size m.payload),
      )

  enqueue_replacing-keeps :
      (q : OutboundMessageQueue) (m old : OutboundMessage) (rest : List OutboundMessage)
      → take_keyed m.coalescing_key q.messages ≡ some (old, rest)
      → IsCounted q
      → IsCounted (enqueue_replacing utf8_size q m old rest).0
        × (IsWithin q → IsWithin (enqueue_replacing utf8_size q m old rest).0)
  unfolding enqueue_replacing
  enqueue_replacing-keeps q m old rest e v = ground (
    arith,
    take_keyed-total m.coalescing_key q.messages rest old e,
    length-append rest (m ∷ []),
    total-append rest (m ∷ []),
  )

  enqueue-IsCounted :
      (q : OutboundMessageQueue) (m : OutboundMessage)
      → IsCounted q
      → IsCounted (enqueue utf8_size q m).0 × (IsWithin q → IsWithin (enqueue utf8_size q m).0)
  unfolding enqueue
  enqueue-IsCounted q m v = elim (Bool-cases (is_keyed m)) [
    | inl k ↦ elim (Option-cases (take_keyed m.coalescing_key q.messages)) [
      | inl n ↦ rw (k, n, enqueue) (enqueue_new-keeps q m v)
      | inr ((old, rest), n) ↦ rw (k, n, enqueue) (enqueue_replacing-keeps q m old rest n v)
    ]
    | inr k ↦ rw (k, enqueue) (enqueue_new-keeps q m v)
  ]

  -- Whatever the answer, in a queue within its two limits, on messages and on bytes, whose byte counter
  -- is the sum of the messages' sizes: the counter stays that sum, and the queue stays within both.
  pub enqueue-keeps :
      (q : OutboundMessageQueue) (m : OutboundMessage)
      → IsCounted q
      → IsWithin q
      → IsCounted (enqueue utf8_size q m).0 × IsWithin (enqueue utf8_size q m).0
  enqueue-keeps q m v w = let (counted, within) = enqueue-IsCounted q m v in (counted, within w)

  -- Taking the first message and putting it back is no change, and taking it keeps the counter the
  -- sum of the messages' sizes, where it is that sum before.
  prepend-take_first :
      (q : OutboundMessageQueue) (m : OutboundMessage)
      → IsCounted q
      → (take_first utf8_size q).1 ≡ some m
      → IsCounted (take_first utf8_size q).0 × (prepend utf8_size (take_first utf8_size q).0 m ≡ q)
  unfolding take_first prepend
  prepend-take_first q m v e = ground (arith, v)
