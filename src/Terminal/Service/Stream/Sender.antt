-- ===== src/Terminal/Service/Stream/Sender.antt =====
-- The output of the host as a stream of bytes, first in first out, which
-- KTerminalSessionService::handleHostOutput and flushOutput implement by chunks, frames and numbers
-- (src/terminal/terminalsessionservice.cpp).
use win_remote_control.Prelude.{
  ℕ, zero, suc, ◌+◌, ◌^◌, ◌≤◌, ◌<◌, ◌≡◌, refl, sym, ap, ◌∙◌, inl, inr, true, false, not, ◌||◌, List,
  [], ◌∷◌, ◌++◌, append-nil, append_assoc, arith, ltb, leb, ◌==◌, ==_iff, Bool-cases, if-false,
  length, take, drop, length-append, length-drop,
}
use win_remote_control.Terminal.Service.Types.{At, Surroundings}
use win_remote_control.Terminal.Service.Output.{
  chunks, chunks_of, enqueue_output, fill, flush, flush_output, handle_host_output,
  maximum_output_queue_bytes, maximum_output_queue_messages, output_chunk_bytes,
}
use win_remote_control.Terminal.Service.Queues.{AllSized, chunks-AllSized, fill-IsBounded, total}
use win_remote_control.Terminal.Service.Kept.{IsValid}
use win_remote_control.Terminal.Service.Stream.{
  Carries, Carries-append, IsRequest, Logs, flush-Sends,
}
use win_remote_control.Terminal.Machine.{opening, paused, running, state_eq}
use win_remote_control.Terminal.DataFrame.{output}
use win_remote_control.Qt.{UuidLibrary}

abbrev pub flat : List (List ℕ) → List ℕ
flat [] = []
flat (c ∷ cs) = c ++ flat cs

pub flat-append : (xs ys : List (List ℕ)) → flat (xs ++ ys) ≡ flat xs ++ flat ys
flat-append [] ys = refl
flat-append (x ∷ xs) ys =
    ap (λ t. x ++ t) (flat-append xs ys) ∙ sym (append_assoc x (flat xs) (flat ys))

take-append-drop : (n : ℕ) (xs : List ℕ) → take n xs ++ drop n xs ≡ xs
take-append-drop zero xs = refl
take-append-drop (suc n) [] = refl
take-append-drop (suc n) (x ∷ xs) = ap (λ t. x ∷ t) (take-append-drop n xs)

-- The fuel of the loop is enough: its chunks are all the bytes in their order.
pub flat-chunks :
    (size fuel : ℕ) (bytes : List ℕ)
    → 1 ≤ size
    → length bytes ≤ fuel
    → flat (chunks size fuel bytes) ≡ bytes
unfolding chunks
flat-chunks size zero [] h k = refl
flat-chunks size zero (b ∷ bs) h k = ground arith
flat-chunks size (suc fuel) [] h k = refl
flat-chunks size (suc fuel) (b ∷ bs) h k =
    let rest = drop size (b ∷ bs) in
    ap (λ t. take size (b ∷ bs) ++ t)
      (flat-chunks size fuel rest h (omega (arith, length-drop size (b ∷ bs))))
    ∙ take-append-drop size (b ∷ bs)

total-flat : (cs : List (List ℕ)) → total cs ≡ length (flat cs)
total-flat [] = refl
total-flat (c ∷ cs) = omega (arith, total-flat cs, length-append c (flat cs))

-- A queue with room for all chunks takes them.
fill-room :
    (messages limit : ℕ) (cs queue : List (List ℕ)) (bytes : ℕ)
    → length queue + length cs ≤ messages
    → bytes + total cs ≤ limit
    → let f = fill messages limit cs queue bytes in (f.complete ≡ true) × (f.queue ≡ queue ++ cs)
unfolding fill
fill-room messages limit [] queue bytes h k = (refl, sym (append-nil queue))
fill-room messages limit (c ∷ cs) queue bytes h k =
    let room : (leb messages (length queue) || ltb limit (bytes + length c)) ≡ false =
      ground arith in
    let rest =
      fill-room messages limit cs (queue ++ c ∷ []) (bytes + length c)
        (omega (arith, length-append queue (c ∷ []))) (omega arith) in
    rw room (rest.0, rest.1 ∙ append_assoc queue (c ∷ []) cs)

-- The specification: what has been sent and what waits.
pub record ByteStream : Type 0 where
  pub sent : List ℕ
  pub waiting : List ℕ

-- A step that takes bytes in at one end, and sends some from the other.
pub record Pushes (bytes : List ℕ) (s t : ByteStream) : Type 0 where
  pub moved : List ℕ
  pub sending : t.sent ≡ s.sent ++ moved
  pub keeping : moved ++ t.waiting ≡ s.waiting ++ bytes

module _ (q : UuidLibrary) {W : Type 0} (env : Surroundings W) (log : W → List (List ℕ))
    (logs : Logs env log) where
  -- Since the packets `base` and from the number `n`, the packets carry what the stream has sent, and the
  -- queue what waits.
  pub record Implements (base : List (List ℕ)) (n : ℕ) (s : ByteStream) (a : At W) : Type 0 where
    pub chunks_sent : List (List ℕ)
    pub packets : List (List ℕ)
    pub logged : log a.world ≡ base ++ packets
    pub carried : Carries q output a.service.request_id n chunks_sent packets
    pub sent_bytes : s.sent ≡ flat chunks_sent
    pub waiting_bytes : s.waiting ≡ flat a.service.output_queue
    pub numbered : a.service.next_send_sequence ≡ n + length chunks_sent

  flush_output-Pushes :
      (base : List (List ℕ)) (n : ℕ) (s : ByteStream) (a : At W)
      → 1 ≤ n
      → IsRequest q a.service.request_id
      → AllSized output_chunk_bytes a.service.output_queue
      → a.service.next_send_sequence + length a.service.output_queue < 2 ^ 64
      → Implements base n s a
      → (t : ByteStream) × Pushes [] s t × Implements base n t (flush_output q env a)
  unfolding flush_output
  flush_output-Pushes base n s a low request sized room i =
      let sv = a.service in
      let f =
        flush-Sends q env log logs output sv.request_id refl request sv.output_queue
          sv.queued_output_bytes sv.next_send_sequence 0 a.world (omega (arith, i.numbered)) room
          sized in
      let rest =
        (flush q env output sv.request_id sv.output_queue sv.queued_output_bytes
          sv.next_send_sequence 0 a.world).queue in
      let stay : Pushes [] s s = record {
        moved = [];
        sending = sym (append-nil s.sent);
        keeping = sym (append-nil s.waiting);
      } in
      let t : ByteStream = record { sent = s.sent ++ flat f.taken; waiting = flat rest } in
      let go : Pushes [] s t = record {
        moved = flat f.taken;
        sending = refl;
        keeping =
            sym (flat-append f.taken rest)
            ∙ (ap flat (sym f.split) ∙ (sym i.waiting_bytes ∙ sym (append-nil s.waiting)));
      } in
      elim (Bool-cases (state_eq sv.state running)) [
        | inr e ↦ rw e (s, stay, i)
        | inl e ↦ rw e (
          t,
          go,
          record {
            chunks_sent = i.chunks_sent ++ f.taken;
            packets = i.packets ++ f.packets;
            logged =
                f.logged
                ∙ (ap (λ x. x ++ f.packets) i.logged ∙ append_assoc base i.packets f.packets);
            carried =
                Carries-append sv.next_send_sequence f.taken f.packets i.carried i.numbered
                  f.carried;
            sent_bytes =
                ap (λ x. x ++ flat f.taken) i.sent_bytes ∙ sym (flat-append i.chunks_sent f.taken);
            waiting_bytes = refl;
            numbered = omega (arith, f.numbered, i.numbered, length-append i.chunks_sent f.taken);
          },
        )
      ]

  -- Output of the host, on the side that runs it in the current generation, while the terminal opens,
  -- runs or is paused, with a request that Qt has printed. If the queue has room for the bytes and their
  -- chunks and the frame numbers have not run out, then the stream of bytes that the packets and the
  -- queue implement takes them at its end and sends some bytes from its front, which may be none, and
  -- the packets and the queue implement the new stream: no byte is lost, repeated or reordered, and the
  -- numbers of the frames stay consecutive.
  pub handle_host_output-Pushes :
      (base : List (List ℕ)) (n : ℕ) (s : ByteStream) (a : At W) (bytes : List ℕ)
      → 1 ≤ n
      → IsValid a.service
      → IsRequest q a.service.request_id
      → a.service.is_controller ≡ false
      → (state_eq a.service.state opening
          || (state_eq a.service.state running || state_eq a.service.state paused))
        ≡ true
      → length a.service.output_queue + length (chunks_of output_chunk_bytes bytes)
        ≤ maximum_output_queue_messages
      → a.service.queued_output_bytes + length bytes ≤ maximum_output_queue_bytes
      → a.service.next_send_sequence + maximum_output_queue_messages < 2 ^ 64
      → Implements base n s a
      → (t : ByteStream) × Pushes bytes s t
        × Implements base n t (handle_host_output q env (env.session_generation a.world) bytes a)
  unfolding handle_host_output enqueue_output
  handle_host_output-Pushes base n s a bytes low valid request runs up few small room i =
      let sv = a.service in
      let cs = chunks_of output_chunk_bytes bytes in
      let all = flat-chunks output_chunk_bytes (length bytes) bytes (omega arith) (omega arith) in
      let filled =
        fill-room maximum_output_queue_messages maximum_output_queue_bytes cs sv.output_queue
          sv.queued_output_bytes few (omega (arith, small, total-flat cs, ap length all)) in
      let f =
        fill maximum_output_queue_messages maximum_output_queue_bytes cs sv.output_queue
          sv.queued_output_bytes in
      let b : At W = record a {
        service = record sv { output_queue = f.queue; queued_output_bytes = f.bytes };
      } in
      let bounded =
        fill-IsBounded _ maximum_output_queue_messages maximum_output_queue_bytes cs sv.output_queue
          sv.queued_output_bytes
          (chunks-AllSized output_chunk_bytes (length bytes) bytes (omega arith)) valid.output in
      let s1 : ByteStream = record { sent = s.sent; waiting = s.waiting ++ bytes } in
      let i1 : Implements base n s1 b = record {
        chunks_sent = i.chunks_sent;
        packets = i.packets;
        logged = i.logged;
        carried = i.carried;
        sent_bytes = i.sent_bytes;
        waiting_bytes =
            ap (λ x. x ++ bytes) i.waiting_bytes
            ∙ (ap (λ x. flat sv.output_queue ++ x) (sym all)
                ∙ (sym (flat-append sv.output_queue cs) ∙ ap flat (sym filled.1)));
        numbered = i.numbered;
      } in
      let (t, p, j) =
        flush_output-Pushes base n s1 b low request bounded.sized (omega (arith, room, bounded.few))
          i1 in
      let same =
        (==_iff (env.session_generation a.world) (env.session_generation a.world)).1 refl in
      let skip : handle_host_output q env (env.session_generation a.world) bytes a
          ≡ flush_output q env b =
        if-false
          (not (env.session_generation a.world == env.session_generation a.world)
            || (sv.is_controller
                || not (
                    state_eq sv.state opening
                    || (state_eq sv.state running || state_eq sv.state paused))))
          _ _ (rw (same, runs, up) refl)
        ∙ if-false (not f.complete) _ _ (rw filled.0 refl) in
      rw skip (
        t,
        record {
          moved = p.moved;
          sending = p.sending;
          keeping = p.keeping ∙ append-nil (s.waiting ++ bytes);
        },
        j,
      )
