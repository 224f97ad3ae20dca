-- ===== src/Terminal/Service/Stream/Arrival.antt =====
-- The output of a host on one device, the packets, and the frontend on the other: two of
-- KTerminalSessionService and the channel between them (src/terminal/terminalsessionservice.cpp).
use win_remote_control.Prelude.{
  ℕ, ◌+◌, ◌^◌, ◌≤◌, ◌<◌, ◌≡◌, sym, ap, ◌∙◌, true, false, ◌||◌, List, ◌++◌, append_assoc, length,
}
use win_remote_control.Terminal.Service.Types.{At, Surroundings}
use win_remote_control.Terminal.Service.Output.{
  chunks_of, handle_host_output, maximum_output_queue_bytes, maximum_output_queue_messages,
  output_chunk_bytes,
}
use win_remote_control.Terminal.Service.Kept.{IsValid}
use win_remote_control.Terminal.Service.Stream.{IsRequest, Logs}
use win_remote_control.Terminal.Service.Stream.Sender.{
  ByteStream, Implements, flat, flat-append, handle_host_output-Pushes,
}
use win_remote_control.Terminal.Service.Stream.Receiver.{
  IsWatching, Shows, receive_all, receive_all-Carries,
}
use win_remote_control.Terminal.Machine.{opening, paused, running, state_eq}
use win_remote_control.Qt.{UuidLibrary}

module _ (q : UuidLibrary) {W V : Type 0} (env : Surroundings W) (log : W → List (List ℕ))
    (logs : Logs env log) (watch : Surroundings V) (shown : V → List (List ℕ))
    (shows : Shows watch shown) where
  -- The host writes on one device, with room in the queue and as in the refinement of its stream, and a
  -- controlling side that has shown nothing of this terminal gets all packets since its start, in their
  -- order. Then what it shows, followed by what still waits in the queue, is what it has shown before,
  -- followed by what had been sent and had been waiting, and by what the host writes now.
  pub output_arrives :
      (base : List (List ℕ)) (n last : ℕ) (s : ByteStream) (a : At W) (b : At V) (bytes : List ℕ)
      → 1 ≤ n
      → last < n
      → IsValid a.service
      → IsRequest q a.service.request_id
      → a.service.is_controller ≡ false
      → (state_eq a.service.state opening
          || (state_eq a.service.state running || state_eq a.service.state paused))
        ≡ true
      → length a.service.output_queue + length (chunks_of output_chunk_bytes bytes)
        ≤ maximum_output_queue_messages
      → a.service.queued_output_bytes + length bytes ≤ maximum_output_queue_bytes
      → a.service.next_send_sequence + maximum_output_queue_messages < 2 ^ 64
      → Implements q env log logs base n s a
      → IsWatching
          (handle_host_output q env (env.session_generation a.world) bytes a).service.request_id
          last
          b.service
      → let c = handle_host_output q env (env.session_generation a.world) bytes a in
        (packets : List (List ℕ)) × (log c.world ≡ base ++ packets)
        × (flat (shown (receive_all q watch packets b).world) ++ flat c.service.output_queue
            ≡ flat (shown b.world) ++ (s.sent ++ (s.waiting ++ bytes)))
  output_arrives base n last s a b bytes low new valid request runs up few small room i watching =
      let c = handle_host_output q env (env.session_generation a.world) bytes a in
      let (t, p, j) =
        handle_host_output-Pushes q env log logs base n s a bytes low valid request runs up few
          small room i in
      let seen = flat (shown b.world) in
      let arrived =
        receive_all-Carries q watch shown shows c.service.request_id last b new j.carried
          watching in
      let all : t.sent ++ flat c.service.output_queue ≡ s.sent ++ (s.waiting ++ bytes) =
        ap (λ x. t.sent ++ x) (sym j.waiting_bytes)
        ∙ (ap (λ x. x ++ t.waiting) p.sending
            ∙ (append_assoc s.sent p.moved t.waiting ∙ ap (λ x. s.sent ++ x) p.keeping)) in
      (
        j.packets,
        j.logged,
        ap (λ x. flat x ++ flat c.service.output_queue) arrived
            ∙ (ap (λ x. x ++ flat c.service.output_queue)
                  (flat-append (shown b.world) j.chunks_sent)
                ∙ (append_assoc seen (flat j.chunks_sent) (flat c.service.output_queue)
                    ∙ (ap (λ x. seen ++ (x ++ flat c.service.output_queue)) (sym j.sent_bytes)
                        ∙ ap (λ x. seen ++ x) all))),
      )
