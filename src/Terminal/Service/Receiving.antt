-- ===== src/Terminal/Service/Receiving.antt =====
-- KTerminalSessionService::handleTerminalData (src/terminal/terminalsessionservice.cpp) and what is
-- kept of the output until the terminal is shown.
use win_remote_control.Prelude.{
  ok, err, ℕ, ◌+◌, ◌-◌, ◌%◌, ◌^◌, Bool, not, ◌&&◌, ◌||◌, List, [], ◌∷◌, ◌++◌, str_eq, ltb, leb,
  ◌==◌, if◌then◌else◌, length,
}
use win_remote_control.Terminal.Service.Types.{
  At, Surroundings, TerminalSessionService, input_overflow, output_ready, pending_overflow,
  relay_write_failed,
}
use win_remote_control.Terminal.Service.Basics.{emit, write_frontend}
use win_remote_control.Terminal.Service.Stopping.{fail_terminal}
use win_remote_control.Terminal.Service.Output.{
  maximum_output_queue_bytes, maximum_output_queue_messages,
}
use win_remote_control.Terminal.Machine.{awaiting_approval, opening, running, state_eq}
use win_remote_control.Terminal.DataFrame.{TerminalDataFrame, decode, direction_code, input, output}
use win_remote_control.Qt.{UuidLibrary}

abbrev pub counted : ℕ → List ℕ → ℕ
counted total bytes = (total + length bytes) % 2 ^ 64

-- A frame that is taken: of the request, with a new number, in the direction to this side.
abbrev pub is_fresh : TerminalSessionService → TerminalDataFrame → Bool
is_fresh s f =
    str_eq f.request_id s.request_id
    && (not (leb f.sequence s.last_received_sequence)
        && (direction_code f.direction
            == direction_code (if s.is_controller then output else input)))

module _ {W : Type 0} (env : Surroundings W) where
  unfoldable pub enqueue_pending_output : List ℕ → At W → At W
  enqueue_pending_output content a =
      let s = a.service in
      if leb maximum_output_queue_messages (length s.pending_queue)
        || ltb maximum_output_queue_bytes (s.pending_bytes + length content)
      then fail_terminal env "pending_output_overflow" pending_overflow [] a
      else record a {
        service = record s {
          pending_queue = s.pending_queue ++ content ∷ [];
          pending_bytes = s.pending_bytes + length content;
        };
      }

  -- Output that goes to the frontend at once.
  unfoldable pub show_output : List ℕ → At W → At W
  show_output content a =
      let s = record a.service { output_bytes = counted a.service.output_bytes content } in
      let (w, written) = write_frontend env content a.world in
      if not written
      then fail_terminal env "relay_write_failed" relay_write_failed []
          (record { service = s; world = w })
      else emit env (output_ready content) (record { service = s; world = w })

  unfoldable pub receive_output : List ℕ → At W → At W
  receive_output content a =
      let st = a.service.state in
      if state_eq st awaiting_approval || state_eq st opening
      then enqueue_pending_output content a
      else if not (state_eq st running)
      then a
      else show_output content a

  unfoldable pub receive_input : List ℕ → At W → At W
  receive_input content a =
      let (w, written) = env.host_write_input (env.session_generation a.world) content a.world in
      let b = record a { world = w } in
      if not (state_eq a.service.state running)
      then a
      else if not written
      then fail_terminal env "input_overflow" input_overflow [] b
      else record b {
        service = record b.service { input_bytes = counted b.service.input_bytes content };
      }

  -- A frame that is decoded.
  unfoldable pub handle_frame : TerminalDataFrame → At W → At W
  unfolding receive_output receive_input
  handle_frame f a =
      let b = record a { service = record a.service { last_received_sequence = f.sequence } } in
      if not (is_fresh a.service f)
      then a
      else if a.service.is_controller
      then receive_output f.payload b
      else receive_input f.payload b

  -- Empty data cannot be decoded either.
  unfoldable pub handle_terminal_data : UuidLibrary → List ℕ → At W → At W
  handle_terminal_data q content a = elim (decode q content) [ err e ↦ a | ok f ↦ handle_frame f a ]

  -- The loop of flushPendingControllerOutput. A failed write ends it and the terminal.
  unfoldable pub flush_pending : List (List ℕ) → At W → At W
  flush_pending [] a = a
  flush_pending (c ∷ cs) a =
      let s = a.service in
      let taken = record s {
        pending_queue = cs;
        pending_bytes = s.pending_bytes - length c;
        output_bytes = counted s.output_bytes c;
      } in
      let (w, written) = write_frontend env c a.world in
      let rest =
        flush_pending cs (emit env (output_ready c) (record { service = taken; world = w })) in
      if not written
      then fail_terminal env "relay_write_failed" relay_write_failed []
          (record { service = taken; world = w })
      else rest

  unfoldable pub flush_pending_controller_output : At W → At W
  unfolding flush_pending
  flush_pending_controller_output a = flush_pending a.service.pending_queue a
