-- ===== src/Transport/OutboundQueue/Answers.antt =====
-- What the answers of KOutboundMessageQueue::enqueue mean.
use win_remote_control.Prelude.{
  ℕ, ◌+◌, ◌-◌, ◌≡◌, refl, ◌⊎◌, inl, inr, true, false, ◌||◌, List, [], ◌∷◌, ◌++◌, arith, String, ltb,
  leb, Bool-cases, Option-cases, length,
}
use win_remote_control.Transport.OutboundQueue.{
  take_keyed, OutboundEnqueueResult, enqueue_replacing, is_full, is_keyed, OutboundMessageQueue,
  enqueue, enqueue_new, make_room_for_reliable, make_room_from, OutboundMessage, enqueued,
  coalesced, dropped, overflow,
}
use win_remote_control.Transport.OutboundQueue.Order.{keyed}

module _ (utf8_size : String → ℕ) where
  -- The loop stops when there is room or when only messages without a key are left.
  make_room_from-stops :
      (mm mb required count bytes ahead : ℕ) (ms : List OutboundMessage)
      → count ≡ ahead + length ms
      → let r = make_room_from utf8_size mm mb required count bytes ms in
        (keyed r.0 ≡ []) ⊎ ((leb mm (ahead + length r.0) || ltb mb (r.1 + required)) ≡ false)
  unfolding make_room_from
  make_room_from-stops mm mb required count bytes ahead [] c = inl refl
  make_room_from-stops mm mb required count bytes ahead (m ∷ ms) c =
      elim (Bool-cases (leb mm count || ltb mb (bytes + required))) [
        | inl full ↦ elim (Bool-cases (is_keyed m)) [
          | inl k ↦
              rw (full, k, make_room_from)
                (make_room_from-stops mm mb required (count - 1) (bytes - utf8_size m.payload) ahead
                  ms (omega arith))
          | inr k ↦
              rw (full, k, make_room_from)
                (ground (arith, make_room_from-stops mm mb required count bytes (ahead + 1) ms))
        ]
        | inr room ↦ rw (room, make_room_from) (inr (rw (← c) room))
      ]

  -- The queue `r` after `m` came to the queue `q` and got an answer.
  abbrev pub Answers :
      OutboundMessageQueue → OutboundMessage → OutboundMessageQueue → OutboundEnqueueResult → Type 0
  Answers q m r enqueued = (rest : List OutboundMessage) × (r.messages ≡ rest ++ m ∷ [])
  Answers q m r coalesced =
      (is_keyed m ≡ true) × ((rest : List OutboundMessage) × (r.messages ≡ rest ++ m ∷ []))
  Answers q m r dropped = r ≡ q
  Answers q m r overflow =
      (m.reliable ≡ true)
      × (keyed r.messages ≡ [])
      × (is_full utf8_size r (utf8_size m.payload) ≡ true)

  enqueue_new-overflow :
      (q : OutboundMessageQueue) (m : OutboundMessage)
      → (make_room_for_reliable utf8_size q (utf8_size m.payload)).1 ≡ false
      → let r = (make_room_for_reliable utf8_size q (utf8_size m.payload)).0 in
        (keyed r.messages ≡ []) × (is_full utf8_size r (utf8_size m.payload) ≡ true)
  unfolding make_room_for_reliable
  enqueue_new-overflow q m e = ground (
    arith,
    make_room_from-stops q.maximum_messages q.maximum_bytes (utf8_size m.payload)
        (length q.messages) q.bytes 0 q.messages,
  )

  enqueue_new-Answers :
      (q : OutboundMessageQueue) (m : OutboundMessage)
      → Answers q m (enqueue_new utf8_size q m).0 (enqueue_new utf8_size q m).1
  unfolding enqueue_new
  enqueue_new-Answers q m = elim (Bool-cases (is_full utf8_size q (utf8_size m.payload))) [
    | inr room ↦ rw (room, enqueue_new) (q.messages, refl)
    | inl full ↦ elim (Bool-cases m.reliable) [
      | inr light ↦ rw (full, light, enqueue_new) refl
      | inl needed ↦
          elim (Bool-cases (make_room_for_reliable utf8_size q (utf8_size m.payload)).1) [
            | inl made ↦
                rw (full, needed, made, enqueue_new)
                  ((make_room_for_reliable utf8_size q (utf8_size m.payload)).0.messages, refl)
            | inr failed ↦
                rw (full, needed, failed, enqueue_new)
                  (let (gone, full) = enqueue_new-overflow q m failed in (refl, gone, full))
          ]
    ]
  ]

  -- After `enqueued` and `coalesced` the new message stands last, and only a message with a key is
  -- coalesced; `dropped` changes nothing; `overflow` is answered only for a reliable message, and
  -- then every message with a key has been given up and the limits still leave no room.
  pub enqueue-Answers :
      (q : OutboundMessageQueue) (m : OutboundMessage)
      → Answers q m (enqueue utf8_size q m).0 (enqueue utf8_size q m).1
  unfolding enqueue enqueue_replacing
  enqueue-Answers q m = elim (Bool-cases (is_keyed m)) [
    | inl k ↦ elim (Option-cases (take_keyed m.coalescing_key q.messages)) [
      | inl n ↦ rw (k, n, enqueue) (enqueue_new-Answers q m)
      | inr ((old, rest), n) ↦
          rw (k, n, enqueue)
            (elim (Bool-cases
              (ltb q.maximum_bytes (q.bytes - utf8_size old.payload + utf8_size m.payload))) [
                | inl big ↦ rw (big, enqueue_replacing) refl
                | inr fits ↦ rw (fits, enqueue_replacing) (k, (rest, refl))
              ])
    ]
    | inr k ↦ rw (k, enqueue) (enqueue_new-Answers q m)
  ]
