-- ===== src/Session/Commands/Repeats.antt =====
-- A command is carried out once (src/session/sessioncommanddispatcher.cpp): its answer is remembered, and
-- one that comes again gets that answer.
use win_remote_control.Prelude.{
  ℕ, ◌+◌, ◌<◌, ◌≡◌, refl, ap, ◌∙◌, inl, inr, Bool, true, false, Option, none, some, List, [], ◌∷◌,
  arith, String, Bool-cases, Option-cases, if-true, if-false,
}
use win_remote_control.Prelude.Table.{lookup}
use win_remote_control.Protocol.Router.{ProtocolHandlerResult}
use win_remote_control.Session.Commands.{
  SessionCommandDispatcher, SessionCommandTransmitResult, SessionMessage, SessionMessageType, clear,
  create_command_result, fail_all, handle_command_result, is_command, is_result,
  maximum_recent_command_results, new_dispatcher, remember_command_result, send, send_message,
  transmit,
}
use win_remote_control.Session.Commands.Timer.{handle_timer}
use win_remote_control.Session.Commands.Incoming.{
  answer_command, handle_incoming, run_handler, success,
}
use win_remote_control.Session.Commands.Answered.{Event, fails, receives, run, sends, step, ticks}
use win_remote_control.Session.Commands.Memory.{
  Has, IsIndexed, Remembers, Remembers-more, remember-Has, remember-IsIndexed, remember_new,
}

module _ {B : Type 0} where
  -- How many of the calls receive a message, and whether none fails all commands.
  abbrev pub receipts : List (Event B) → ℕ
  receipts [] = 0
  receipts (receives m generation ∷ es) = 1 + receipts es
  receipts (_ ∷ es) = receipts es

  abbrev pub keep_memory : List (Event B) → Bool
  keep_memory [] = true
  keep_memory (fails error ∷ es) = false
  keep_memory (_ ∷ es) = keep_memory es

module _ {B W : Type 0} (no_body : B)
    (transmit_function : Option (SessionMessage B → W → W × SessionCommandTransmitResult))
    (handlers : SessionMessageType
      → Option (SessionMessage B → W → W × ProtocolHandlerResult)) where
  result_kept :
      (m : SessionMessage B) (generation : ℕ) (d : SessionCommandDispatcher B)
      → let e = (handle_command_result m generation d).0 in
        (e.recent_ids ≡ d.recent_ids) × (e.recent_results ≡ d.recent_results)
  unfolding handle_command_result
  result_kept m generation d = ground arith

  sent_kept :
      (new_uuid : String) (now : ℕ) (m : SessionMessage B) (generation : ℕ)
      (d : SessionCommandDispatcher B) (w : W)
      → let e = (send transmit_function new_uuid now m generation d w).0.dispatcher in
        (e.recent_ids ≡ d.recent_ids) × (e.recent_results ≡ d.recent_results)
  unfolding send send_message
  sent_kept new_uuid now m generation d w = ground arith

  module _ (Q : List String → List (String × SessionMessage B) → Type 0) where
    answered :
        (m : SessionMessage B) (d : SessionCommandDispatcher B) (w : W)
        → Q d.recent_ids d.recent_results
        → ((r : SessionMessage B)
            → Q
                (remember_command_result r d).recent_ids
                (remember_command_result r d).recent_results)
        → let e = (answer_command no_body transmit_function handlers m d w).dispatcher in
          Q e.recent_ids e.recent_results
    unfolding answer_command
    answered m d w h k = elim (Option-cases (lookup m.request_id d.recent_results)) [
      | inl e ↦ rw (e, answer_command) (k _)
      | inr (r, e) ↦ rw (e, answer_command) h
    ]

    -- What a receipt keeps: it changes the memory by a new answer, or leaves it.
    received :
        (m : SessionMessage B) (generation : ℕ) (d : SessionCommandDispatcher B) (w : W)
        → Q d.recent_ids d.recent_results
        → ((r : SessionMessage B)
            → Q
                (remember_command_result r d).recent_ids
                (remember_command_result r d).recent_results)
        → let e =
            (handle_incoming no_body transmit_function handlers m generation d w).0.dispatcher in
          Q e.recent_ids e.recent_results
    unfolding handle_incoming
    received m generation d w h k = elim (Bool-cases (is_result m.type)) [
      | inl e ↦ let kept = result_kept m generation d in rw (e, handle_incoming, kept.0, kept.1) h
      | inr e ↦ elim (Bool-cases (is_command m.type)) [
        | inl c ↦ rw (e, c, handle_incoming) (answered m d w h k)
        | inr c ↦ rw (e, c, handle_incoming) h
      ]
    ]

  step-IsIndexed :
      (e : Event B) (d : SessionCommandDispatcher B) (w : W)
      → IsIndexed d.recent_ids d.recent_results
      → let a = step no_body transmit_function handlers e d w in
        IsIndexed a.dispatcher.recent_ids a.dispatcher.recent_results
  unfolding step handle_timer fail_all clear
  step-IsIndexed (sends new_uuid now m generation) d w v =
      let kept = sent_kept new_uuid now m generation d w in rw (kept.0, kept.1) v
  step-IsIndexed (receives m generation) d w v =
      received IsIndexed m generation d w v (λ r. remember-IsIndexed r d v)
  step-IsIndexed (ticks now) d w v = v
  step-IsIndexed (fails error) d w v = λ i. (refl, omega arith)

  run-IsIndexed :
      (es : List (Event B)) (d : SessionCommandDispatcher B) (w : W)
      → IsIndexed d.recent_ids d.recent_results
      → let a = run no_body transmit_function handlers es d w in
        IsIndexed a.dispatcher.recent_ids a.dispatcher.recent_results
  unfolding run
  run-IsIndexed [] d w v = v
  run-IsIndexed (e ∷ es) d w v =
      let a = step no_body transmit_function handlers e d w in
      run-IsIndexed es a.dispatcher a.world (step-IsIndexed e d w v)

  run-Has :
      (i : String) (r : SessionMessage B) (k : ℕ) (es : List (Event B))
      (d : SessionCommandDispatcher B) (w : W)
      → keep_memory es ≡ true
      → k + receipts es < maximum_recent_command_results
      → Has i r k d
      → lookup i (run no_body transmit_function handlers es d w).dispatcher.recent_results ≡ some r
  unfolding run step handle_timer
  run-Has i r k [] d w keeps few v = v.found
  run-Has i r k (sends new_uuid now m generation ∷ es) d w keeps few v =
      let kept = sent_kept new_uuid now m generation d w in
      let a = (send transmit_function new_uuid now m generation d w).0 in
      run-Has i r k es a.dispatcher a.world keeps few (rw (kept.0, kept.1) v)
  run-Has i r k (receives m generation ∷ es) d w keeps few v =
      let a = (handle_incoming no_body transmit_function handlers m generation d w).0 in
      run-Has i r (k + 1) es a.dispatcher a.world keeps (omega arith) (
        received (Remembers i r (k + 1)) m generation d w (Remembers-more i r k _ _ v)
          (λ s. remember-Has i r k s d (omega arith) v))
  run-Has i r k (ticks now ∷ es) d w keeps few v =
      let a = handle_timer transmit_function now d w in
      run-Has i r k es a.dispatcher a.world keeps few v
  run-Has i r k (fails error ∷ es) d w keeps few v = cc

  command_no_result : (t : SessionMessageType) → is_command t ≡ true → is_result t ≡ false
  command_no_result t c = ground arith

  answered_again :
      (m : SessionMessage B) (h : ℕ) (d : SessionCommandDispatcher B) (w : W) (r : SessionMessage B)
      → is_command m.type ≡ true
      → lookup m.request_id d.recent_results ≡ some r
      → handle_incoming no_body transmit_function handlers m h d w ≡ (
        record { dispatcher = d; world = (transmit transmit_function r w).0; signals = [] },
        record { handler_result = success; end_session_accepted = false },
      )
  unfolding handle_incoming answer_command
  answered_again m h d w r command found =
      if-false (is_result m.type) _ _ (command_no_result m.type command)
      ∙ (if-true (is_command m.type) _ _ command ∙ rw (found, answer_command) refl)

  first_Has :
      (m : SessionMessage B) (g : ℕ) (d : SessionCommandDispatcher B) (w : W)
      → IsIndexed d.recent_ids d.recent_results
      → is_command m.type ≡ true
      → lookup m.request_id d.recent_results ≡ none
      → Has m.request_id
          (answer_command no_body transmit_function handlers m d w).result
          0
          (handle_incoming no_body transmit_function handlers m g d w).0.dispatcher
  unfolding handle_incoming answer_command create_command_result
  first_Has m g d w v command unknown =
      rw (command_no_result m.type command, command, unknown, handle_incoming, answer_command)
        (remember_new
          (create_command_result no_body m.request_id
            (run_handler no_body transmit_function handlers m w).1)
          d v unknown)

  -- A dispatcher that has run from its start gets a command whose identifier it does not remember, and
  -- then any calls but `clear` and `failAll`, of which at most 127 receive a message. If a command with
  -- the same identifier comes then, no handler runs: the dispatcher sends the answer to the first one
  -- again, changes nothing, signals nothing, and reports a success that ends no session.
  pub carried_out_once :
      (before es : List (Event B)) (w : W) (m again : SessionMessage B) (g h : ℕ)
      → is_command m.type ≡ true
      → is_command again.type ≡ true
      → again.request_id ≡ m.request_id
      → keep_memory es ≡ true
      → receipts es < maximum_recent_command_results
      → let a = run no_body transmit_function handlers before (new_dispatcher B) w in
        let b = (handle_incoming no_body transmit_function handlers m g a.dispatcher a.world).0 in
        let c = run no_body transmit_function handlers es b.dispatcher b.world in
        let first = answer_command no_body transmit_function handlers m a.dispatcher a.world in
        lookup m.request_id a.dispatcher.recent_results ≡ none
        → handle_incoming no_body transmit_function handlers again h c.dispatcher c.world ≡ (
          record {
            dispatcher = c.dispatcher;
            world = (transmit transmit_function first.result c.world).0;
            signals = [];
          },
          record { handler_result = success; end_session_accepted = false },
        )
  carried_out_once before es w m again g h command repeated named keeps few unknown =
      let a = run no_body transmit_function handlers before (new_dispatcher B) w in
      let b = (handle_incoming no_body transmit_function handlers m g a.dispatcher a.world).0 in
      let c = run no_body transmit_function handlers es b.dispatcher b.world in
      let first = answer_command no_body transmit_function handlers m a.dispatcher a.world in
      let indexed = run-IsIndexed before (new_dispatcher B) w (λ i. (refl, omega arith)) in
      let known = first_Has m g a.dispatcher a.world indexed command unknown in
      let found =
        run-Has m.request_id first.result 0 es b.dispatcher b.world keeps (omega arith) known in
      answered_again again h c.dispatcher c.world first.result repeated
        (ap (λ x. lookup x c.dispatcher.recent_results) named ∙ found)
