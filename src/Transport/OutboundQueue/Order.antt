-- ===== src/Transport/OutboundQueue/Order.antt =====
-- Which messages KOutboundMessageQueue::enqueue keeps, and in which order.
use win_remote_control.Prelude.{
  ℕ, ◌+◌, ◌-◌, ◌≡◌, refl, inl, inr, true, false, ◌||◌, some, List, [], ◌∷◌, ◌++◌, append-nil, arith,
  String, str_eq, str_eq_iff, ltb, leb, if◌then◌else◌, Bool-cases, Option-cases, length,
}
use win_remote_control.Transport.OutboundQueue.{
  enqueued, OutboundMessageQueue, OutboundEnqueueResult, enqueue, enqueue_new, enqueue_replacing,
  is_keyed, make_room_for_reliable, make_room_from, take_keyed, OutboundMessage,
}

-- The messages without a coalescing key, in order.
abbrev pub plain : List OutboundMessage → List OutboundMessage
plain [] = []
plain (m ∷ ms) = if is_keyed m then plain ms else m ∷ plain ms

-- The messages with one.
abbrev pub keyed : List OutboundMessage → List OutboundMessage
keyed [] = []
keyed (m ∷ ms) = if is_keyed m then m ∷ keyed ms else keyed ms

pub plain-append : (xs ys : List OutboundMessage) → plain (xs ++ ys) ≡ plain xs ++ plain ys
plain-append [] ys = refl
plain-append (x ∷ xs) ys = ground (arith, plain-append xs ys)

take_keyed-plain :
    (key : String) (ms rest : List OutboundMessage) (old : OutboundMessage)
    → str_eq key "" ≡ false
    → take_keyed key ms ≡ some (old, rest)
    → plain rest ≡ plain ms
unfolding take_keyed
take_keyed-plain key [] rest old k e = cc
take_keyed-plain key (m ∷ ms) rest old k e = elim (Option-cases (take_keyed key ms)) [
  | inl n ↦ ground (arith, str_eq_iff m.coalescing_key key)
  | inr ((found, r), n) ↦ ground (arith, take_keyed-plain key ms r found k n)
]

-- The messages without a key that a call adds.
abbrev pub added : OutboundMessage → OutboundEnqueueResult → List OutboundMessage
added m enqueued = if is_keyed m then [] else m ∷ []
added m _ = []

module _ (utf8_size : String → ℕ) where
  make_room_from-plain :
      (mm mb required count bytes : ℕ) (ms : List OutboundMessage)
      → plain (make_room_from utf8_size mm mb required count bytes ms).0 ≡ plain ms
  unfolding make_room_from
  make_room_from-plain mm mb required count bytes [] = refl
  make_room_from-plain mm mb required count bytes (m ∷ ms) =
      elim (Bool-cases (leb mm count || ltb mb (bytes + required))) [
        | inl full ↦ elim (Bool-cases (is_keyed m)) [
          | inl k ↦
              rw (full, k, make_room_from)
                (make_room_from-plain mm mb required (count - 1) (bytes - utf8_size m.payload) ms)
          | inr k ↦
              rw (full, k, make_room_from)
                (ground (arith, make_room_from-plain mm mb required count bytes ms))
        ]
        | inr room ↦ rw (room, make_room_from) refl
      ]

  room-plain :
      (q : OutboundMessageQueue) (required : ℕ)
      → plain (make_room_for_reliable utf8_size q required).0.messages ≡ plain q.messages
  unfolding make_room_for_reliable
  room-plain q required =
      make_room_from-plain q.maximum_messages q.maximum_bytes required (length q.messages) q.bytes
        q.messages

  enqueue_new-plain :
      (q : OutboundMessageQueue) (m : OutboundMessage)
      → plain (enqueue_new utf8_size q m).0.messages
        ≡ plain q.messages ++ added m (enqueue_new utf8_size q m).1
  unfolding enqueue_new
  enqueue_new-plain q m =
      let r = (make_room_for_reliable utf8_size q (utf8_size m.payload)).0 in
      ground (
        arith,
        plain-append q.messages (m ∷ []),
        plain-append r.messages (m ∷ []),
        room-plain q (utf8_size m.payload),
        append-nil (plain q.messages),
      )

  enqueue_replacing-plain :
      (q : OutboundMessageQueue) (m old : OutboundMessage) (rest : List OutboundMessage)
      → is_keyed m ≡ true
      → plain rest ≡ plain q.messages
      → plain (enqueue_replacing utf8_size q m old rest).0.messages
        ≡ plain q.messages ++ added m (enqueue_replacing utf8_size q m old rest).1
  unfolding enqueue_replacing
  enqueue_replacing-plain q m old rest k e =
      ground (arith, plain-append rest (m ∷ []), append-nil (plain q.messages))

  -- No call loses or reorders a message without a coalescing key: those already queued stay in
  -- order, and the new message, if it has no key, is added behind them exactly when the answer is
  -- `enqueued`.
  pub enqueue-plain :
      (q : OutboundMessageQueue) (m : OutboundMessage)
      → plain (enqueue utf8_size q m).0.messages
        ≡ plain q.messages ++ added m (enqueue utf8_size q m).1
  unfolding enqueue
  enqueue-plain q m = elim (Bool-cases (is_keyed m)) [
    | inl k ↦ elim (Option-cases (take_keyed m.coalescing_key q.messages)) [
      | inl n ↦ rw (k, n, enqueue) (enqueue_new-plain q m)
      | inr ((old, rest), n) ↦
          rw (k, n, enqueue)
            (enqueue_replacing-plain q m old rest k
              (take_keyed-plain m.coalescing_key q.messages rest old (ground arith) n))
    ]
    | inr k ↦ rw (k, enqueue) (enqueue_new-plain q m)
  ]
