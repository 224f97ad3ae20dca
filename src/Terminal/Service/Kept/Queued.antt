-- ===== src/Terminal/Service/Kept/Queued.antt =====
-- The invariant of KTerminalSessionService through its queues (src/terminal/terminalsessionservice.cpp).
use win_remote_control.Prelude.{
  Outcome, ok, err, ℕ, inl, inr, Bool, false, List, [], ◌∷◌, arith, String, str_eq, Bool-cases,
  length,
}
use win_remote_control.Terminal.Service.Types.{At, Surroundings}
use win_remote_control.Terminal.Service.Output.{
  clear_congestion, enqueue_input, enqueue_output, flush, flush_input, flush_output,
  handle_host_output, handle_low_watermark, input_chunk_bytes, maximum_input_queue_bytes,
  maximum_input_queue_messages, maximum_output_queue_bytes, maximum_output_queue_messages,
  output_chunk_bytes, pause_frontend, send_data_frame, send_input,
}
use win_remote_control.Terminal.Service.Queues.{
  IsBounded, chunks-AllSized, fill-IsBounded, flush-IsBounded,
}
use win_remote_control.Terminal.Service.Kept.{
  Holds, Holds-if, IsClosed, fail_terminal-Holds, pause-Holds, set_state-Holds,
}
use win_remote_control.Terminal.DataFrame.{FrameError, TerminalDataDirection, encode, input, output}
use win_remote_control.Qt.{UuidLibrary}

module _ (q : UuidLibrary) {W : Type 0} (env : Surroundings W) (P : W → Type 0)
    (calls : IsClosed env P) where
  frame-held :
      (r : Outcome FrameError (List ℕ)) (w : W)
      → P w
      → P (elim r as (λ x. W × Bool) [ err e ↦ (w, false) | ok b ↦ env.send_terminal_data b w ]).0
  frame-held (err e) w p = p
  frame-held (ok b) w p = calls.sends b w p

  send_data_frame-held :
      (direction : TerminalDataDirection) (id : String) (c : List ℕ) (n : ℕ) (w : W)
      → P w
      → P (send_data_frame q env direction id c n w).0
  unfolding send_data_frame
  send_data_frame-held direction id c n w p = elim (Bool-cases (str_eq id "")) [
    | inl e ↦ rw e p
    | inr e ↦ rw e (frame-held (encode q _) w p)
  ]

  flush-held :
      (direction : TerminalDataDirection) (id : String) (queue : List (List ℕ)) (bytes n sent : ℕ)
      (w : W)
      → P w
      → P (flush q env direction id queue bytes n sent w).world
  unfolding flush
  flush-held direction id [] bytes n sent w p = p
  flush-held direction id (c ∷ cs) bytes n sent w p =
      let k = send_data_frame-held direction id c n w p in
      let rest = flush-held direction id cs _ _ _ (send_data_frame q env direction id c n w).0 k in
      elim (Bool-cases (env.is_backpressured w)) [
        | inl stays ↦ rw stays p
        | inr passes ↦ elim (Bool-cases (send_data_frame q env direction id c n w).1) [
          | inl goes ↦ rw (passes, goes) rest
          | inr fails ↦ rw (passes, fails) k
        ]
      ]

  pub flush_output-Holds : (a : At W) → Holds P a → Holds P (flush_output q env a)
  unfolding flush_output
  flush_output-Holds a h =
      let s = a.service in
      let v = h.valid in
      let k =
        flush-IsBounded q env _ _ _ output s.request_id s.output_queue s.queued_output_bytes
          s.next_send_sequence 0 a.world v.output in
      Holds-if _ _ _ h (record {
        valid = record {
          same = v.same;
          output = k;
          input = v.input;
          pending = v.pending;
          timed = v.timed;
        };
        held =
            flush-held output s.request_id s.output_queue s.queued_output_bytes s.next_send_sequence
              0 a.world h.held;
      })

  clear_congestion-Holds : (a : At W) → Holds P a → Holds P (clear_congestion q env a)
  unfolding clear_congestion
  clear_congestion-Holds a h = Holds-if _ _ _ (set_state-Holds env P calls _ _ a h) h

  pub flush_input-Holds : (a : At W) → Holds P a → Holds P (flush_input q env a)
  unfolding flush_input
  flush_input-Holds a h =
      let s = a.service in
      let v = h.valid in
      let k =
        flush-IsBounded q env _ _ _ input s.request_id s.input_queue s.queued_input_bytes
          s.next_send_sequence s.input_bytes a.world v.input in
      Holds-if _ _ _ h (
        clear_congestion-Holds _ (record {
          valid = record {
            same = v.same;
            output = v.output;
            input = k;
            pending = v.pending;
            timed = v.timed;
          };
          held =
              flush-held input s.request_id s.input_queue s.queued_input_bytes s.next_send_sequence
                s.input_bytes a.world h.held;
        }))

  -- The service with other queues of output and of input.
  with_output :
      (a : At W) (queue : List (List ℕ)) (bytes : ℕ)
      → Holds P a
      → IsBounded output_chunk_bytes maximum_output_queue_messages maximum_output_queue_bytes queue
          bytes
      → Holds P (record a {
        service = record a.service { output_queue = queue; queued_output_bytes = bytes };
      })
  with_output a queue bytes h k = record {
    valid = record {
      same = h.valid.same;
      output = k;
      input = h.valid.input;
      pending = h.valid.pending;
      timed = h.valid.timed;
    };
    held = h.held;
  }

  with_input :
      (a : At W) (queue : List (List ℕ)) (bytes : ℕ)
      → Holds P a
      → IsBounded input_chunk_bytes maximum_input_queue_messages maximum_input_queue_bytes queue
          bytes
      → Holds P (record a {
        service = record a.service { input_queue = queue; queued_input_bytes = bytes };
      })
  with_input a queue bytes h k = record {
    valid = record {
      same = h.valid.same;
      output = h.valid.output;
      input = k;
      pending = h.valid.pending;
      timed = h.valid.timed;
    };
    held = h.held;
  }

  enqueue_output-Holds :
      (bytes : List ℕ) (a : At W) → Holds P a → Holds P (enqueue_output q env bytes a)
  unfolding enqueue_output
  enqueue_output-Holds bytes a h =
      let cs = chunks-AllSized output_chunk_bytes (length bytes) bytes (omega arith) in
      let filled = with_output a _ _ h (fill-IsBounded _ _ _ _ _ _ cs h.valid.output) in
      Holds-if _ _ _ (fail_terminal-Holds env P calls _ _ _ _ filled) (flush_output-Holds _ filled)

  enqueue_input-Holds :
      (bytes : List ℕ) (a : At W) → Holds P a → Holds P (enqueue_input q env bytes a).0
  unfolding enqueue_input
  enqueue_input-Holds bytes a h =
      let cs = chunks-AllSized input_chunk_bytes (length bytes) bytes (omega arith) in
      let filled = with_input a _ _ h (fill-IsBounded _ _ _ _ _ _ cs h.valid.input) in
      Holds-if _ _ _ (fail_terminal-Holds env P calls _ _ _ _ filled) filled

  pause_frontend-Holds : (a : At W) → Holds P a → Holds P (pause_frontend q env a)
  unfolding pause_frontend
  pause_frontend-Holds a h = set_state-Holds env P calls _ _ _ (pause-Holds env P calls _ _ h)

  pub send_input-Holds :
      (bytes : List ℕ) (a : At W) → Holds P a → Holds P (send_input q env bytes a)
  unfolding send_input
  send_input-Holds bytes a h =
      let k = enqueue_input-Holds bytes a h in
      Holds-if _ _ _ h
        (Holds-if _ _ _ k (flush_input-Holds _ (Holds-if _ _ _ (pause_frontend-Holds _ k) k)))

  pub handle_host_output-Holds :
      (generation : ℕ) (bytes : List ℕ) (a : At W)
      → Holds P a
      → Holds P (handle_host_output q env generation bytes a)
  unfolding handle_host_output
  handle_host_output-Holds generation bytes a h = Holds-if _ _ _ h (enqueue_output-Holds bytes a h)

  pub handle_low_watermark-Holds : (a : At W) → Holds P a → Holds P (handle_low_watermark q env a)
  unfolding handle_low_watermark
  handle_low_watermark-Holds a h =
      flush_output-Holds _ (flush_input-Holds _ (pause-Holds env P calls _ _ h))
