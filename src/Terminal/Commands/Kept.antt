-- ===== src/Terminal/Commands/Kept.antt =====
-- Every call of KTerminalCommandDispatcher keeps the limits of the pending commands
-- (src/terminal/terminalcommanddispatcher.cpp).
use win_remote_control.Prelude.{
  ℕ, ◌+◌, ◌-◌, ◌≤◌, ◌≡◌, refl, ap, inl, inr, Bool, not, ◌&&◌, ◌||◌, Option, some, List, [], ◌∷◌,
  arith, String, str_eq, ltb, ◌==◌, if◌then◌else◌, Bool-cases, Option-cases, if-true, if-false,
  length,
}
use win_remote_control.Prelude.Table.{entries, lookup}
use win_remote_control.Terminal.Commands.{
  PendingCommand, Sender, TerminalCommandDispatcher, clear, command_timeout_ms, has_pending_resize,
  is_reliable, is_resize, is_result, left_deferred, maximum_attempts, maximum_recent_result_bytes,
  send, with_command_id,
}
use win_remote_control.Terminal.Commands.Incoming.{
  Loop, Round, after_round, answer_command, bytes_after, ends, ends_resize, handle_incoming,
  handle_timer, remember_result, run_handler, stays, timer_loop, timer_round,
}
use win_remote_control.Terminal.Commands.Bounds.{
  IsValid, handle_result-IsValid, has_pending_resize-weigh, new_dispatcher-IsValid, resizes,
  send_command-IsValid, weigh,
}
use win_remote_control.Terminal.Service.Types.{TerminalMessage}

-- The calls of the dispatcher from outside.
pub data Call : Type 0 where
  sends : String → ℕ → TerminalMessage → ℕ → Call
  receives : TerminalMessage → ℕ → Call
  timer_fires : ℕ → Call
  clears : Call

-- The identifier that a message is sent with is not one that still waits.
abbrev pub IsFresh : Call → TerminalCommandDispatcher → Type 0
IsFresh (sends new_uuid now m generation) d =
    entries (with_command_id new_uuid m).command_id d.pending ≡ 0
IsFresh (receives m generation) d = d ≡ d
IsFresh (timer_fires now) d = d ≡ d
IsFresh clears d = d ≡ d

with_command_id-type :
    (new_uuid : String) (m : TerminalMessage) → (with_command_id new_uuid m).type ≡ m.type
with_command_id-type new_uuid m = elim (Bool-cases (str_eq m.command_id "")) [
  | inl e ↦ ap {A = TerminalMessage} (λ x. x.type) (if-true _ _ _ e)
  | inr e ↦ ap {A = TerminalMessage} (λ x. x.type) (if-false _ _ _ e)
]

remember_result-IsValid :
    (encoded_size : TerminalMessage → ℕ) (r : TerminalMessage) (d : TerminalCommandDispatcher)
    → IsValid d
    → IsValid (remember_result encoded_size r d)
unfolding remember_result
remember_result-IsValid encoded_size r d v =
    elim (Bool-cases (encoded_size r == 0 || ltb maximum_recent_result_bytes (encoded_size r))) [
      | inl e ↦ rw e v
      | inr e ↦ rw e v
    ]

-- A command that stays is as large as before, and of the same type.
abbrev pub IsSame : PendingCommand → Round → Type 0
IsSame p (stays q) = (q.encoded_bytes ≡ p.encoded_bytes) × (q.message ≡ p.message)
IsSame p ends = p ≡ p

module _ {W : Type 0} (transmit : TerminalMessage → W → W × Bool) where
  timer_round-IsSame :
      (now : ℕ) (p : PendingCommand) (w : W) → IsSame p (timer_round transmit now p w).1
  unfolding timer_round
  timer_round-IsSame now p w = elim (Bool-cases (ltb (now - p.sent_ms) command_timeout_ms)) [
    | inl early ↦ rw early (refl, refl)
    | inr late ↦ elim (Bool-cases (ltb p.attempts maximum_attempts)) [
      | inr tired ↦ rw (late, tired) refl
      | inl again ↦ elim (Bool-cases (transmit p.message w).1) [
        | inl sent ↦ rw (late, again, sent) (refl, refl)
        | inr failed ↦ rw (late, again, failed) refl
      ]
    ]
  ]

  -- What the rounds keep of the table: `rest` bytes are of commands before it.
  pub record Keeps (rest : ℕ) (t : List (String × PendingCommand)) (l : Loop W) : Type 0 where
    pub counted : l.pending_bytes ≡ rest + weigh (λ p. p.encoded_bytes) l.pending
    pub size : l.pending_bytes ≤ rest + weigh (λ p. p.encoded_bytes) t
    pub few : length l.pending ≤ length t
    pub once : (i : String) → entries i l.pending ≤ entries i t
    pub one_resize : weigh resizes l.pending ≤ weigh resizes t

  after_round-Keeps :
      (id : String) (r : Round) (p : PendingCommand) (deferred : Option (TerminalMessage × ℕ))
      (rest : ℕ) (t : List (String × PendingCommand)) (l : Loop W)
      → IsSame p r
      → Keeps (elim r [ stays q ↦ p.encoded_bytes + rest | ends ↦ rest ]) t l
      → Keeps rest ((id, p) ∷ t) (after_round transmit id r p deferred l)
  after_round-Keeps id (stays q) p deferred rest t l s k = record {
    counted = omega (arith, k.counted, s.0);
    size = omega (arith, k.size);
    few = omega (arith, k.few);
    once = λ i. omega (arith, k.once i);
    one_resize =
        omega (arith, k.one_resize, ap {B = ℕ} (λ m. if is_resize m.type then 1 else 0) s.1);
  }
  after_round-Keeps id ends p deferred rest t l s k = record {
    counted = k.counted;
    size = omega (arith, k.size);
    few = omega (arith, k.few);
    once = λ i. omega (arith, k.once i);
    one_resize = omega (arith, k.one_resize);
  }

  -- The rounds after one on `p`, which leave what they should whatever bytes they start with.
  rounds-Keeps :
      (rest bytes : ℕ) (t : List (String × PendingCommand)) (p : PendingCommand) (r : Round)
      (go : ℕ → Loop W)
      → bytes ≡ rest + (p.encoded_bytes + weigh (λ q. q.encoded_bytes) t)
      → ((more left : ℕ) → left ≡ more + weigh (λ q. q.encoded_bytes) t → Keeps more t (go left))
      → Keeps
          (elim r [ stays q ↦ p.encoded_bytes + rest | ends ↦ rest ])
          t
          (go (bytes_after transmit r p bytes))
  rounds-Keeps rest bytes t p (stays q) go e k = k (p.encoded_bytes + rest) bytes (omega (arith, e))
  rounds-Keeps rest bytes t p ends go e k = k rest (bytes - p.encoded_bytes) (omega (arith, e))

  timer_loop-Keeps :
      (now : ℕ) (t : List (String × PendingCommand)) (rest bytes : ℕ)
      (deferred : Option (TerminalMessage × ℕ)) (w : W)
      → bytes ≡ rest + weigh (λ p. p.encoded_bytes) t
      → Keeps rest t (timer_loop transmit now t bytes deferred w)
  unfolding timer_loop
  timer_loop-Keeps now [] rest bytes deferred w e = record {
    counted = e;
    size = omega (arith, e);
    few = omega arith;
    once = λ i. omega arith;
    one_resize = omega arith;
  }
  timer_loop-Keeps now ((id, p) ∷ t) rest bytes deferred w e =
      let r = (timer_round transmit now p w).1 in
      let v = (timer_round transmit now p w).0 in
      let left = left_deferred (ends_resize transmit r p) deferred in
      after_round-Keeps id r p deferred rest t _ (timer_round-IsSame now p w) (
        rounds-Keeps rest bytes t p r (λ b. timer_loop transmit now t b left v) e
          (λ more b. timer_loop-Keeps now t more b left v))

  pub handle_timer-IsValid :
      (now : ℕ) (a : Sender W)
      → IsValid a.dispatcher
      → IsValid (handle_timer transmit now a).0.dispatcher
  unfolding handle_timer
  handle_timer-IsValid now a v =
      let d = a.dispatcher in
      let k =
        timer_loop-Keeps now d.pending 0 d.pending_bytes d.deferred_resize a.world
          (omega (arith, v.counted)) in
      record {
        counted = omega (arith, k.counted);
        size = omega (arith, k.size, v.size, v.counted);
        few = omega (arith, k.few, v.few);
        once = λ i. omega (arith, k.once i, v.once i);
        one_resize = omega (arith, k.one_resize, v.one_resize);
      }

module _ (encoded_size : TerminalMessage → ℕ) {W : Type 0}
    (transmit : TerminalMessage → W → W × Bool)
    (handler : Option (TerminalMessage → Sender W → Sender W × Bool × String)) where
  abbrev pub call : Call → Sender W → Sender W
  call (sends new_uuid now m generation) a =
      (send encoded_size (some transmit) new_uuid now m generation a).0
  call (receives m generation) a = (handle_incoming encoded_size transmit handler m generation a).0
  call (timer_fires now) a = (handle_timer transmit now a).0
  call clears a = record a { dispatcher = clear a.dispatcher }

  send-IsValid :
      (new_uuid : String) (now : ℕ) (m : TerminalMessage) (generation : ℕ) (a : Sender W)
      → entries (with_command_id new_uuid m).command_id a.dispatcher.pending ≡ 0
      → IsValid a.dispatcher
      → IsValid (send encoded_size (some transmit) new_uuid now m generation a).0.dispatcher
  unfolding send
  send-IsValid new_uuid now m generation a e v = elim (Bool-cases (not (is_reliable m.type))) [
    | inl plain ↦ rw plain v
    | inr reliable ↦
        elim (Bool-cases (is_resize m.type && has_pending_resize a.dispatcher.pending)) [
          | inl waits ↦
              rw (reliable, waits)
                (record {
                  counted = v.counted;
                  size = v.size;
                  few = v.few;
                  once = v.once;
                  one_resize = v.one_resize;
                })
          | inr free ↦
              rw (reliable, free)
                (send_command-IsValid encoded_size transmit now (with_command_id new_uuid m)
                  generation a e
                  (ground (
                    arith,
                    free,
                    v.one_resize,
                    with_command_id-type new_uuid m,
                    has_pending_resize-weigh a.dispatcher.pending,
                  ))
                  v)
        ]
  ]

  -- A handler that is set may call the dispatcher, and keeps its limits.
  abbrev pub IsKeeping : Type 0
  IsKeeping =
      (m : TerminalMessage) (a : Sender W)
      → IsValid a.dispatcher
      → IsValid (run_handler encoded_size transmit handler m a).0.dispatcher

  module _ (keeps : IsKeeping) where
    answer_command-IsValid :
        (m : TerminalMessage) (a : Sender W)
        → IsValid a.dispatcher
        → IsValid (answer_command encoded_size transmit handler m a).dispatcher
    unfolding answer_command
    answer_command-IsValid m a v =
        elim (Option-cases (lookup m.command_id a.dispatcher.recent_results)) [
          | inr (r, e) ↦ rw (e, answer_command) v
          | inl e ↦ rw (e, answer_command) (remember_result-IsValid encoded_size _ _ (keeps m a v))
        ]

    incoming-IsValid :
        (m : TerminalMessage) (generation : ℕ) (a : Sender W)
        → IsValid a.dispatcher
        → IsValid (handle_incoming encoded_size transmit handler m generation a).0.dispatcher
    unfolding handle_incoming
    incoming-IsValid m generation a v = elim (Bool-cases (is_result m.type)) [
      | inl result ↦ rw result (handle_result-IsValid m generation a.dispatcher v)
      | inr other ↦ elim (Bool-cases (not (is_reliable m.type))) [
        | inl plain ↦ rw (other, plain) (keeps m a v)
        | inr command ↦ rw (other, command) (answer_command-IsValid m a v)
      ]
    ]

    -- Whatever is called, the pending commands of the terminal keep their limits: no more than 128, of no
    -- more than 256 KiB together, the counter of the bytes is their sum, an identifier is there at most
    -- once, and at most one of them is a resize. The handler has to keep them too, and a new
    -- identifier is not a waiting one.
    pub call-IsValid :
        (c : Call) (a : Sender W)
        → IsFresh c a.dispatcher
        → IsValid a.dispatcher
        → IsValid (call c a).dispatcher
    unfolding clear
    call-IsValid (sends new_uuid now m generation) a e v =
        send-IsValid new_uuid now m generation a e v
    call-IsValid (receives m generation) a e v = incoming-IsValid m generation a v
    call-IsValid (timer_fires now) a e v = handle_timer-IsValid transmit now a v
    call-IsValid clears a e v = new_dispatcher-IsValid
