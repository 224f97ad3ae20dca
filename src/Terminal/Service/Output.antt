-- ===== src/Terminal/Service/Output.antt =====
-- The queues of KTerminalSessionService (src/terminal/terminalsessionservice.cpp): the output of the
-- host on one side and the input of the frontend on the other, cut into chunks and sent in frames with
-- consecutive numbers while the channel takes them.
use win_remote_control.Prelude.{
  ok, err, ℕ, zero, suc, ◌+◌, ◌-◌, ◌*◌, ◌%◌, ◌^◌, Bool, true, false, not, ◌&&◌, ◌||◌, List, [], ◌∷◌,
  ◌++◌, String, str_eq, ltb, leb, ◌==◌, if◌then◌else◌, length, take, drop,
}
use win_remote_control.Terminal.Service.Types.{
  At, Surroundings, input_congested, input_queue_overflow, is_congested, output_overflow,
  shell_connected,
}
use win_remote_control.Terminal.Service.Basics.{on_frontend, set_state}
use win_remote_control.Terminal.Service.Stopping.{fail_terminal}
use win_remote_control.Terminal.Machine.{opening, paused, running, state_eq}
use win_remote_control.Terminal.DataFrame.{
  TerminalDataDirection, TerminalDataFrame, encode, input, output,
}
use win_remote_control.Qt.{UuidLibrary}

abbrev pub maximum_output_queue_bytes : ℕ
maximum_output_queue_bytes = 1024 * 1024

abbrev pub maximum_output_queue_messages : ℕ
maximum_output_queue_messages = 256

abbrev pub maximum_input_queue_bytes : ℕ
maximum_input_queue_bytes = 256 * 1024

abbrev pub maximum_input_queue_messages : ℕ
maximum_input_queue_messages = 256

abbrev pub output_chunk_bytes : ℕ
output_chunk_bytes = 16 * 1024

abbrev pub input_chunk_bytes : ℕ
input_chunk_bytes = 16 * 1024

-- The chunks of the for loops, with fuel.
unfoldable pub chunks : ℕ → ℕ → List ℕ → List (List ℕ)
chunks size zero bytes = []
chunks size (suc fuel) bytes = elim bytes [
  | [] ↦ []
  | b ∷ bs ↦ take size (b ∷ bs) ∷ chunks size fuel (drop size (b ∷ bs))
]

-- A round takes one byte at least.
abbrev pub chunks_of : ℕ → List ℕ → List (List ℕ)
chunks_of size bytes = chunks size (length bytes) bytes

-- A queue with its bytes, and whether all chunks have been put in.
pub record Filled : Type 0 where
  pub complete : Bool
  pub queue : List (List ℕ)
  pub bytes : ℕ

unfoldable pub fill : ℕ → ℕ → List (List ℕ) → List (List ℕ) → ℕ → Filled
fill messages limit [] queue bytes = record { complete = true; queue = queue; bytes = bytes }
fill messages limit (c ∷ cs) queue bytes =
    let rest = fill messages limit cs (queue ++ c ∷ []) (bytes + length c) in
    if leb messages (length queue) || ltb limit (bytes + length c)
    then record { complete = false; queue = queue; bytes = bytes }
    else rest

module _ (q : UuidLibrary) {W : Type 0} (env : Surroundings W) where
  -- `none` for a frame that cannot be encoded; the sequence number is counted up by the caller.
  unfoldable pub send_data_frame : TerminalDataDirection → String → List ℕ → ℕ → W → W × Bool
  send_data_frame direction request_id payload sequence w =
      let frame : TerminalDataFrame = record {
        direction = direction;
        request_id = request_id;
        sequence = sequence;
        payload = payload;
      } in
      if str_eq request_id "" then (w, false) else elim (encode q frame) [
        | err e ↦ (w, false)
        | ok encoded ↦ env.send_terminal_data encoded w
      ]

  -- What a loop that sends leaves: the queue with its bytes, the next number, and the bytes sent.
  pub record Flushed : Type 0 where
    pub queue : List (List ℕ)
    pub bytes : ℕ
    pub sequence : ℕ
    pub sent_bytes : ℕ
    pub world : W

  unfoldable pub flush : TerminalDataDirection → String → List (List ℕ) → ℕ → ℕ → ℕ → W → Flushed
  flush direction request_id [] bytes sequence sent_bytes w = record {
    queue = [];
    bytes = bytes;
    sequence = sequence;
    sent_bytes = sent_bytes;
    world = w;
  }
  flush direction request_id (c ∷ cs) bytes sequence sent_bytes w =
      let (w', sent) = send_data_frame direction request_id c sequence w in
      let rest =
        flush direction request_id cs (bytes - length c) ((sequence + 1) % 2 ^ 64)
          ((sent_bytes + length c) % 2 ^ 64) w' in
      let stay : Flushed = record {
        queue = c ∷ cs;
        bytes = bytes;
        sequence = sequence;
        sent_bytes = sent_bytes;
        world = if env.is_backpressured w then w else w';
      } in
      if env.is_backpressured w then stay else if not sent then stay else rest

  unfoldable pub flush_output : At W → At W
  flush_output a =
      let s = a.service in
      let f =
        flush output s.request_id s.output_queue s.queued_output_bytes s.next_send_sequence 0
          a.world in
      if not (state_eq s.state running) then a else record {
        service = record s {
          output_queue = f.queue;
          queued_output_bytes = f.bytes;
          next_send_sequence = f.sequence;
        };
        world = f.world;
      }

  -- The end of flushInput: the mark of a congestion goes with the last chunk.
  unfoldable pub clear_congestion : At W → At W
  clear_congestion a =
      if length a.service.input_queue == 0 && is_congested a.service.status
      then set_state env running shell_connected a
      else a

  unfoldable pub flush_input : At W → At W
  flush_input a =
      let s = a.service in
      let f =
        flush input s.request_id s.input_queue s.queued_input_bytes s.next_send_sequence
          s.input_bytes a.world in
      if not (state_eq s.state running)
      then a
      else clear_congestion (record {
        service = record s {
          input_queue = f.queue;
          queued_input_bytes = f.bytes;
          next_send_sequence = f.sequence;
          input_bytes = f.sent_bytes;
        };
        world = f.world;
      })

  unfoldable pub enqueue_output : List ℕ → At W → At W
  enqueue_output content a =
      let s = a.service in
      let f =
        fill maximum_output_queue_messages maximum_output_queue_bytes
          (chunks_of output_chunk_bytes content) s.output_queue s.queued_output_bytes in
      let b = record a {
        service = record s { output_queue = f.queue; queued_output_bytes = f.bytes };
      } in
      if not f.complete
      then fail_terminal env "output_overflow" output_overflow [] b
      else flush_output b

  unfoldable pub enqueue_input : List ℕ → At W → At W × Bool
  enqueue_input content a =
      let s = a.service in
      let f =
        fill maximum_input_queue_messages maximum_input_queue_bytes
          (chunks_of input_chunk_bytes content) s.input_queue s.queued_input_bytes in
      let b = record a {
        service = record s { input_queue = f.queue; queued_input_bytes = f.bytes };
      } in
      (
        if not f.complete then fail_terminal env "input_overflow" input_queue_overflow [] b else b,
        f.complete,
      )

  unfoldable pub pause_frontend : At W → At W
  pause_frontend a =
      set_state env running input_congested (on_frontend env (λ f w. f.set_input_paused true w) a)

  unfoldable pub send_input : List ℕ → At W → At W
  send_input content a =
      let s = a.service in
      let (b, complete) = enqueue_input content a in
      if not s.is_controller || (not (state_eq s.state running) || length content == 0)
      then a
      else if not complete
      then b
      else flush_input (if env.is_backpressured b.world then pause_frontend b else b)

  unfoldable pub handle_host_output : ℕ → List ℕ → At W → At W
  handle_host_output generation content a =
      let s = a.service in
      let up = state_eq s.state opening || (state_eq s.state running || state_eq s.state paused) in
      if not (generation == env.session_generation a.world) || (s.is_controller || not up)
      then a
      else enqueue_output content a

  -- terminalLowWatermarkReached.
  unfoldable pub handle_low_watermark : At W → At W
  handle_low_watermark a =
      flush_output (flush_input (on_frontend env (λ f w. f.set_input_paused false w) a))
