-- ===== src/Transport/OutboundQueue/Tests.antt =====
-- A full queue (outboundmessagequeue.cpp): one message without a key and one with.
use win_remote_control.Prelude.{ℕ, ◌≡◌, refl, true, false, [], ◌∷◌, ◌++◌, arith, String}
use win_remote_control.Transport.OutboundQueue.{OutboundMessage, OutboundMessageQueue, enqueue}
use win_remote_control.Transport.OutboundQueue.Limits.{IsCounted, IsWithin, enqueue-keeps}
use win_remote_control.Transport.OutboundQueue.Order.{added, enqueue-plain, plain}
use win_remote_control.Transport.OutboundQueue.Keys.{KeysDiffer, enqueue-KeysDiffer}
use win_remote_control.Transport.OutboundQueue.Answers.{Answers, enqueue-Answers}

abbrev ten : String → ℕ
ten s = 10

abbrev plain_message : OutboundMessage
plain_message = record { payload = "hello"; coalescing_key = ""; reliable = true }

abbrev keyed_message : OutboundMessage
keyed_message = record { payload = "move"; coalescing_key = "mouse"; reliable = false }

abbrev full_queue : OutboundMessageQueue
full_queue = record {
  messages = plain_message ∷ (keyed_message ∷ []);
  maximum_messages = 2;
  maximum_bytes = 100;
  bytes = 20;
}

abbrev full_queue_IsCounted : IsCounted ten full_queue
full_queue_IsCounted = record { counted = refl }

abbrev full_queue_IsWithin : IsWithin ten full_queue
full_queue_IsWithin = record { few = omega arith; small = omega arith }

enqueue-keeps_example :
    IsCounted ten (enqueue ten full_queue plain_message).0
    × IsWithin ten (enqueue ten full_queue plain_message).0
enqueue-keeps_example =
    enqueue-keeps ten full_queue plain_message full_queue_IsCounted full_queue_IsWithin

enqueue-plain_example :
    plain (enqueue ten full_queue plain_message).0.messages
    ≡ plain full_queue.messages ++ added plain_message (enqueue ten full_queue plain_message).1
enqueue-plain_example = enqueue-plain ten full_queue plain_message

enqueue-KeysDiffer_example : KeysDiffer (enqueue ten full_queue keyed_message).0.messages
enqueue-KeysDiffer_example =
    enqueue-KeysDiffer ten full_queue keyed_message ((λ e. cc), ((λ e. refl), tt))

enqueue-Answers_example :
    Answers ten full_queue plain_message
      (enqueue ten full_queue plain_message).0
      (enqueue ten full_queue plain_message).1
enqueue-Answers_example = enqueue-Answers ten full_queue plain_message
