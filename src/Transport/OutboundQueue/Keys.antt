-- ===== src/Transport/OutboundQueue/Keys.antt =====
-- Coalescing in KOutboundMessageQueue: one message for each key.
use win_remote_control.Prelude.{
  ℕ, ◌+◌, ◌-◌, ◌≡◌, refl, inl, inr, Bool, true, false, ◌||◌, none, some, List, [], ◌∷◌, ◌++◌, arith,
  String, str_eq, str_eq_iff, ltb, leb, Bool-cases, Option-cases, length,
}
use win_remote_control.Transport.OutboundQueue.{
  OutboundMessageQueue, enqueue_replacing, make_room_for_reliable, enqueue, enqueue_new,
  make_room_from, is_keyed, take_keyed, OutboundMessage,
}

abbrev pub has_key : String → List OutboundMessage → Bool
has_key k [] = false
has_key k (m ∷ ms) = str_eq m.coalescing_key k || has_key k ms

-- No key stands at two messages; the empty key counts as none.
abbrev pub KeysDiffer : List OutboundMessage → Type 0
KeysDiffer [] = Unit {0}
KeysDiffer (m ∷ ms) = ((is_keyed m ≡ true) → has_key m.coalescing_key ms ≡ false) × KeysDiffer ms

has_key-append :
    (k : String) (xs ys : List OutboundMessage)
    → has_key k (xs ++ ys) ≡ (has_key k xs || has_key k ys)
has_key-append k [] ys = refl
has_key-append k (x ∷ xs) ys = ground (arith, has_key-append k xs ys)

take_keyed-none :
    (k : String) (ms : List OutboundMessage) → take_keyed k ms ≡ none → has_key k ms ≡ false
unfolding take_keyed
take_keyed-none k [] e = refl
take_keyed-none k (m ∷ ms) e = elim (Option-cases (take_keyed k ms)) [
  | inl n ↦ ground (arith, take_keyed-none k ms n)
  | inr ((f, r), n) ↦ ground arith
]

-- Taking a message out brings no key back.
take_keyed-has_key :
    (k j : String) (ms rest : List OutboundMessage) (old : OutboundMessage)
    → take_keyed k ms ≡ some (old, rest)
    → has_key j ms ≡ false
    → has_key j rest ≡ false
unfolding take_keyed
take_keyed-has_key k j [] rest old e h = cc
take_keyed-has_key k j (m ∷ ms) rest old e h = elim (Option-cases (take_keyed k ms)) [
  | inl n ↦ ground arith
  | inr ((f, r), n) ↦ ground (arith, take_keyed-has_key k j ms r f n)
]

take_keyed-some :
    (k : String) (ms rest : List OutboundMessage) (old : OutboundMessage)
    → take_keyed k ms ≡ some (old, rest)
    → has_key k ms ≡ true
unfolding take_keyed
take_keyed-some k [] rest old e = cc
take_keyed-some k (m ∷ ms) rest old e = elim (Option-cases (take_keyed k ms)) [
  | inl n ↦ ground arith
  | inr ((f, r), n) ↦ ground (arith, take_keyed-some k ms r f n)
]

take_keyed-KeysDiffer :
    (k : String) (ms rest : List OutboundMessage) (old : OutboundMessage)
    → str_eq k "" ≡ false
    → take_keyed k ms ≡ some (old, rest)
    → KeysDiffer ms
    → KeysDiffer rest × (has_key k rest ≡ false)
unfolding take_keyed
take_keyed-KeysDiffer k [] rest old q e d = cc
take_keyed-KeysDiffer k (m ∷ ms) rest old q e d = elim (Option-cases (take_keyed k ms)) [
  | inl n ↦ ground (arith, take_keyed-none k ms n, str_eq_iff m.coalescing_key k)
  | inr ((f, r), n) ↦ ground (
    arith,
    take_keyed-KeysDiffer k ms r f q n d.1,
    take_keyed-some k ms r f n,
    take_keyed-has_key k m.coalescing_key ms r f n,
    str_eq_iff m.coalescing_key k,
  )
]

KeysDiffer-append :
    (xs : List OutboundMessage) (m : OutboundMessage)
    → KeysDiffer xs
    → (is_keyed m ≡ true → has_key m.coalescing_key xs ≡ false)
    → KeysDiffer (xs ++ m ∷ [])
KeysDiffer-append [] m d h = ground arith
KeysDiffer-append (x ∷ xs) m d h = ground (
  arith,
  KeysDiffer-append xs m d.1,
  has_key-append x.coalescing_key xs (m ∷ []),
  str_eq_iff m.coalescing_key x.coalescing_key,
  str_eq_iff x.coalescing_key m.coalescing_key,
)

module _ (utf8_size : String → ℕ) where
  make_room_from-has_key :
      (mm mb required count bytes : ℕ) (j : String) (ms : List OutboundMessage)
      → has_key j ms ≡ false
      → has_key j (make_room_from utf8_size mm mb required count bytes ms).0 ≡ false
  unfolding make_room_from
  make_room_from-has_key mm mb required count bytes j [] h = refl
  make_room_from-has_key mm mb required count bytes j (m ∷ ms) h =
      elim (Bool-cases (leb mm count || ltb mb (bytes + required))) [
        | inl full ↦ elim (Bool-cases (is_keyed m)) [
          | inl k ↦
              rw (full, k, make_room_from)
                (make_room_from-has_key mm mb required (count - 1) (bytes - utf8_size m.payload) j
                  ms (ground arith))
          | inr k ↦
              rw (full, k, make_room_from)
                (ground (arith, make_room_from-has_key mm mb required count bytes j ms))
        ]
        | inr room ↦ rw (room, make_room_from) h
      ]

  make_room_from-KeysDiffer :
      (mm mb required count bytes : ℕ) (ms : List OutboundMessage)
      → KeysDiffer ms
      → KeysDiffer (make_room_from utf8_size mm mb required count bytes ms).0
  unfolding make_room_from
  make_room_from-KeysDiffer mm mb required count bytes [] d = tt
  make_room_from-KeysDiffer mm mb required count bytes (m ∷ ms) d =
      elim (Bool-cases (leb mm count || ltb mb (bytes + required))) [
        | inl full ↦ elim (Bool-cases (is_keyed m)) [
          | inl k ↦
              rw (full, k, make_room_from)
                (make_room_from-KeysDiffer mm mb required (count - 1) (bytes - utf8_size m.payload)
                  ms d.1)
          | inr k ↦
              rw (full, k, make_room_from)
                (
                  (λ (e : is_keyed m ≡ true). cc),
                  make_room_from-KeysDiffer mm mb required count bytes ms d.1,
                )
        ]
        | inr room ↦ rw (room, make_room_from) d
      ]

  enqueue_new-KeysDiffer :
      (q : OutboundMessageQueue) (m : OutboundMessage)
      → KeysDiffer q.messages
      → (is_keyed m ≡ true → has_key m.coalescing_key q.messages ≡ false)
      → KeysDiffer (enqueue_new utf8_size q m).0.messages
  unfolding enqueue_new make_room_for_reliable
  enqueue_new-KeysDiffer q m d h =
      let size = utf8_size m.payload in
      let r = (make_room_for_reliable utf8_size q size).0.messages in
      ground (
        arith,
        KeysDiffer-append q.messages m d h,
        KeysDiffer-append r m,
        make_room_from-KeysDiffer q.maximum_messages q.maximum_bytes size (length q.messages)
            q.bytes q.messages,
        make_room_from-has_key q.maximum_messages q.maximum_bytes size (length q.messages) q.bytes
            m.coalescing_key q.messages,
      )

  -- If no two queued messages share a coalescing key, then none do after a call, whatever it queues.
  pub enqueue-KeysDiffer :
      (q : OutboundMessageQueue) (m : OutboundMessage)
      → KeysDiffer q.messages
      → KeysDiffer (enqueue utf8_size q m).0.messages
  unfolding enqueue enqueue_replacing
  enqueue-KeysDiffer q m d = elim (Bool-cases (is_keyed m)) [
    | inl k ↦ elim (Option-cases (take_keyed m.coalescing_key q.messages)) [
      | inl n ↦
          rw (k, n, enqueue)
            (enqueue_new-KeysDiffer q m d (λ _. take_keyed-none m.coalescing_key q.messages n))
      | inr ((old, rest), n) ↦
          rw (k, n, enqueue)
            (ground (
              arith,
              KeysDiffer-append rest m,
              take_keyed-KeysDiffer m.coalescing_key q.messages rest old (ground arith) n d,
            ))
    ]
    | inr k ↦ rw (k, enqueue) (enqueue_new-KeysDiffer q m d (λ (e : is_keyed m ≡ true). cc))
  ]
