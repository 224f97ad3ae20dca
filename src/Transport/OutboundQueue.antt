-- ===== src/Transport/OutboundQueue.antt =====
-- KOutboundMessageQueue (src/core/transport/outboundmessagequeue.h and .cpp): the messages that wait
-- for a data channel. A message with a coalescing key replaces the one before it with that key.
-- `utf8_size` stands for Qt's toUtf8().size(); sizes and limits are taken within the range of int.
pub mod Limits
pub mod Order
pub mod Keys
pub mod Answers
mod Tests
use win_remote_control.Prelude.{
  ℕ, zero, suc, ◌+◌, ◌-◌, ◌*◌, ◌/◌, ◌%◌, ◌^◌, ◌≤◌, ◌<◌, min, max, ◌≡◌, refl, sym, ap, subst, ◌∙◌,
  ◌≢◌, ◌↔◌, ◌⊎◌, inl, inr, Bool, true, false, not, ◌&&◌, ◌||◌, Option, none, some, List, [], ◌∷◌,
  ◌++◌, map, Memᴰ, append-nil, append_assoc, arith, String, str_eq, str_eq_iff, ltb, leb, ◌==◌,
  if◌then◌else◌, ltb→lt, lt→ltb, leb→le, ==_iff, tests, Bool-cases, Option-cases, length, take,
  drop, length-append, length-drop, take-append_length, drop-append_length, byte_at, write_le,
  write_be, read_le, read_be, byte_at-append, take-append, drop-append,
}

pub record OutboundMessage : Type 0 where
  pub payload : String
  pub coalescing_key : String
  pub reliable : Bool

pub data OutboundEnqueueResult : Type 0 where
  enqueued coalesced dropped overflow : OutboundEnqueueResult

pub record OutboundMessageQueue : Type 0 where
  pub messages : List OutboundMessage
  pub maximum_messages : ℕ
  pub maximum_bytes : ℕ
  pub bytes : ℕ

abbrev pub is_keyed : OutboundMessage → Bool
is_keyed m = not (str_eq m.coalescing_key "")

abbrev pub empty_queue : ℕ → ℕ → OutboundMessageQueue
empty_queue maximum_messages maximum_bytes = record {
  messages = [];
  maximum_messages = maximum_messages;
  maximum_bytes = maximum_bytes;
  bytes = 0;
}

-- The last message with a key, for (i = size - 1; i >= 0; --i), with the list without it.
unfoldable pub take_keyed :
    String → List OutboundMessage → Option (OutboundMessage × List OutboundMessage)
take_keyed key [] = none
take_keyed key (m ∷ ms) = elim (take_keyed key ms) [
  | some (found, rest) ↦ some (found, m ∷ rest)
  | none ↦ if str_eq m.coalescing_key key then some (m, ms) else none
]

module _ (utf8_size : String → ℕ) where
  abbrev pub message_bytes : OutboundMessage → ℕ
  message_bytes m = utf8_size m.payload

  abbrev pub is_full : OutboundMessageQueue → ℕ → Bool
  is_full q required =
      leb q.maximum_messages (length q.messages) || ltb q.maximum_bytes (q.bytes + required)

  -- The loop of makeRoomForReliable from index i on: `q` holds the count and the bytes of the whole
  -- queue, and the messages from i on are the argument.
  unfoldable pub make_room_from :
      ℕ → ℕ → ℕ → ℕ → ℕ → List OutboundMessage → List OutboundMessage × ℕ
  make_room_from maximum_messages maximum_bytes required count bytes [] = ([], bytes)
  make_room_from maximum_messages maximum_bytes required count bytes (m ∷ ms) =
      elim (leb maximum_messages count || ltb maximum_bytes (bytes + required)) [
        | false ↦ (m ∷ ms, bytes)
        | true ↦ elim (is_keyed m) [
          | false ↦
              let (rest, left) =
                make_room_from maximum_messages maximum_bytes required count bytes ms in
              (m ∷ rest, left)
          | true ↦
              make_room_from maximum_messages maximum_bytes required (count - 1)
                (bytes - message_bytes m) ms
        ]
      ]

  unfoldable pub make_room_for_reliable : OutboundMessageQueue → ℕ → OutboundMessageQueue × Bool
  make_room_for_reliable q required =
      let (left, bytes) =
        make_room_from q.maximum_messages q.maximum_bytes required (length q.messages) q.bytes
          q.messages in
      let r : OutboundMessageQueue = record q { messages = left; bytes = bytes } in
      (r, not (is_full r required))

  -- The end of `enqueue`: m_messages.append(message).
  abbrev pub push_back : OutboundMessageQueue → OutboundMessage → OutboundMessageQueue
  push_back q m = record q { messages = q.messages ++ m ∷ []; bytes = q.bytes + message_bytes m }

  -- `enqueue` for a message that replaces none.
  unfoldable pub enqueue_new :
      OutboundMessageQueue → OutboundMessage → OutboundMessageQueue × OutboundEnqueueResult
  enqueue_new q m =
      if not (is_full q (message_bytes m))
      then (push_back q m, enqueued)
      else if not m.reliable
      then (q, dropped)
      else let (r, room) = make_room_for_reliable q (message_bytes m) in
        if room then (push_back r m, enqueued) else (r, overflow)

  -- `enqueue` for a message that replaces the message `old`, the others being `rest`.
  unfoldable pub enqueue_replacing :
      OutboundMessageQueue
      → OutboundMessage
      → OutboundMessage
      → List OutboundMessage
      → OutboundMessageQueue × OutboundEnqueueResult
  enqueue_replacing q m old rest =
      if ltb q.maximum_bytes (q.bytes - message_bytes old + message_bytes m)
      then (q, dropped)
      else (
        push_back (record q { messages = rest; bytes = q.bytes - message_bytes old }) m,
        coalesced,
      )

  unfoldable pub enqueue :
      OutboundMessageQueue → OutboundMessage → OutboundMessageQueue × OutboundEnqueueResult
  enqueue q m =
      if is_keyed m
      then elim (take_keyed m.coalescing_key q.messages) [
        | some (old, rest) ↦ enqueue_replacing q m old rest
        | none ↦ enqueue_new q m
      ]
      else enqueue_new q m

  unfoldable pub take_first : OutboundMessageQueue → OutboundMessageQueue × Option OutboundMessage
  take_first q = elim q.messages [
    | [] ↦ (q, none)
    | m ∷ rest ↦ (record q { messages = rest; bytes = q.bytes - message_bytes m }, some m)
  ]

  unfoldable pub prepend : OutboundMessageQueue → OutboundMessage → OutboundMessageQueue
  prepend q m = record q { messages = m ∷ q.messages; bytes = q.bytes + message_bytes m }

unfoldable pub clear : OutboundMessageQueue → OutboundMessageQueue
clear q = record q { messages = []; bytes = 0 }
