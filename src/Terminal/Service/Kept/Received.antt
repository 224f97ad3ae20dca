-- ===== src/Terminal/Service/Kept/Received.antt =====
-- The invariant of KTerminalSessionService through what it receives
-- (src/terminal/terminalsessionservice.cpp).
use win_remote_control.Prelude.{
  Outcome, ok, err, ℕ, ◌+◌, ◌-◌, ◌≡◌, refl, subst, inl, inr, ◌||◌, List, [], ◌∷◌, arith, ltb, leb,
  Bool-cases, length,
}
use win_remote_control.Terminal.Service.Types.{At, Surroundings, output_ready}
use win_remote_control.Terminal.Service.Basics.{emit, write_frontend}
use win_remote_control.Terminal.Service.Output.{
  maximum_output_queue_bytes, maximum_output_queue_messages,
}
use win_remote_control.Terminal.Service.Receiving.{
  counted, enqueue_pending_output, flush_pending, flush_pending_controller_output, handle_frame,
  handle_terminal_data, receive_input, receive_output, show_output,
}
use win_remote_control.Terminal.Service.Queues.{AllSized, IsBounded, IsBounded-snoc}
use win_remote_control.Terminal.Service.Kept.{
  Holds, Holds-if, Holds-of, Holds-world, IsClosed, emit-Holds, fail_terminal-Holds,
  write_frontend-held,
}
use win_remote_control.Terminal.DataFrame.{
  FrameError, TerminalDataFrame, decode, maximum_payload_bytes,
}
use win_remote_control.Terminal.DataFrame.RoundTrip.{decode_sound}
use win_remote_control.Qt.{UuidLibrary}

module _ {W : Type 0} (env : Surroundings W) (P : W → Type 0) (calls : IsClosed env P) where
  with_pending :
      (a : At W) (queue : List (List ℕ)) (bytes o : ℕ) (w : W)
      → Holds P a
      → P w
      → IsBounded maximum_payload_bytes maximum_output_queue_messages maximum_output_queue_bytes
          queue bytes
      → Holds P (record {
        service = record a.service {
          pending_queue = queue;
          pending_bytes = bytes;
          output_bytes = o;
        };
        world = w;
      })
  with_pending a queue bytes o w h p k = record {
    valid = record {
      same = h.valid.same;
      output = h.valid.output;
      input = h.valid.input;
      pending = k;
      timed = h.valid.timed;
    };
    held = p;
  }

  enqueue_pending_output-Holds :
      (c : List ℕ) (a : At W)
      → AllSized maximum_payload_bytes (c ∷ [])
      → Holds P a
      → Holds P (enqueue_pending_output env c a)
  unfolding enqueue_pending_output
  enqueue_pending_output-Holds c a z h =
      let s = a.service in
      elim (Bool-cases (
        leb maximum_output_queue_messages (length s.pending_queue)
        || ltb maximum_output_queue_bytes (s.pending_bytes + length c))) [
          | inl e ↦ rw e (fail_terminal-Holds env P calls _ _ _ _ h)
          | inr e ↦ rw e (
              with_pending a _ _ s.output_bytes a.world h h.held
                (IsBounded-snoc _ _ _ _ _ c h.valid.pending z e))
        ]

  show_output-Holds : (c : List ℕ) (a : At W) → Holds P a → Holds P (show_output env c a)
  unfolding show_output
  show_output-Holds c a h =
      let k =
        Holds-of (record a.service { output_bytes = counted a.service.output_bytes c })
          (write_frontend env c a.world).0 h.valid
          (write_frontend-held env P calls c a.world h.held) in
      Holds-if _ _ _ (fail_terminal-Holds env P calls _ _ _ _ k) (emit-Holds env P calls _ _ k)

  receive_output-Holds :
      (c : List ℕ) (a : At W)
      → AllSized maximum_payload_bytes (c ∷ [])
      → Holds P a
      → Holds P (receive_output env c a)
  unfolding receive_output
  receive_output-Holds c a z h =
      Holds-if _ _ _ (enqueue_pending_output-Holds c a z h)
        (Holds-if _ _ _ h (show_output-Holds c a h))

  receive_input-Holds : (c : List ℕ) (a : At W) → Holds P a → Holds P (receive_input env c a)
  unfolding receive_input
  receive_input-Holds c a h =
      let w = (env.host_write_input (env.session_generation a.world) c a.world).0 in
      let p = calls.types (env.session_generation a.world) c a.world h.held in
      Holds-if _ _ _ h (
        Holds-if _ _ _ (fail_terminal-Holds env P calls _ _ _ _ (Holds-world a w h p)) (
          Holds-of (record a.service { input_bytes = counted a.service.input_bytes c }) w h.valid
            p))

  pub handle_frame-Holds :
      (f : TerminalDataFrame) (a : At W)
      → AllSized maximum_payload_bytes (f.payload ∷ [])
      → Holds P a
      → Holds P (handle_frame env f a)
  unfolding handle_frame
  handle_frame-Holds f a z h =
      let k =
        Holds-of (record a.service { last_received_sequence = f.sequence }) a.world h.valid
          h.held in
      Holds-if _ _ _ h
        (Holds-if _ _ _ (receive_output-Holds f.payload _ z k) (receive_input-Holds f.payload _ k))

  decoded-Holds :
      (r : Outcome FrameError TerminalDataFrame) (a : At W)
      → ((f : TerminalDataFrame) → r ≡ ok f → AllSized maximum_payload_bytes (f.payload ∷ []))
      → Holds P a
      → Holds P (elim r [ err e ↦ a | ok f ↦ handle_frame env f a ])
  decoded-Holds (err e) a z h = h
  decoded-Holds (ok f) a z h = handle_frame-Holds f a (z f refl) h

  pub handle_terminal_data-Holds :
      (q : UuidLibrary) (bytes : List ℕ) (a : At W)
      → Holds P a
      → Holds P (handle_terminal_data env q bytes a)
  unfolding handle_terminal_data
  handle_terminal_data-Holds q bytes a h =
      decoded-Holds (decode q bytes) a
        (λ f e. let d = decode_sound q bytes f e in (omega (arith, d.4), omega (arith, d.5), tt)) h

  flush_pending-Holds :
      (cs : List (List ℕ)) (a : At W)
      → a.service.pending_queue ≡ cs
      → Holds P a
      → Holds P (flush_pending env cs a)
  unfolding flush_pending emit
  flush_pending-Holds [] a e h = h
  flush_pending-Holds (c ∷ cs) a e h =
      let s = a.service in
      let v =
        subst
          (λ queue.
            IsBounded maximum_payload_bytes maximum_output_queue_messages maximum_output_queue_bytes
              queue s.pending_bytes)
          e h.valid.pending in
      let k : IsBounded maximum_payload_bytes maximum_output_queue_messages
          maximum_output_queue_bytes cs (s.pending_bytes - length c) =
        record {
          counted = omega (arith, v.counted);
          limited = omega (arith, v.limited);
          few = omega (arith, v.few);
          sized = v.sized.2;
        } in
      let taken =
        with_pending a cs _ (counted s.output_bytes c) (write_frontend env c a.world).0 h
          (write_frontend-held env P calls c a.world h.held) k in
      Holds-if _ _ _ (fail_terminal-Holds env P calls _ _ _ _ taken) (
        flush_pending-Holds cs (emit env (output_ready c) _) refl
          (emit-Holds env P calls _ _ taken))

  pub flush_pending_controller_output-Holds :
      (a : At W) → Holds P a → Holds P (flush_pending_controller_output env a)
  unfolding flush_pending_controller_output
  flush_pending_controller_output-Holds a h = flush_pending-Holds _ a refl h
