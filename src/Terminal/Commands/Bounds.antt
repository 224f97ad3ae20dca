-- ===== src/Terminal/Commands/Bounds.antt =====
-- What the pending commands of KTerminalCommandDispatcher may come to
-- (src/terminal/terminalcommanddispatcher.cpp).
use win_remote_control.Prelude.{
  ℕ, ◌+◌, ◌-◌, ◌≤◌, ◌<◌, ◌≡◌, refl, sym, ap, ◌∙◌, inl, inr, Bool, false, not, ◌||◌, none, some,
  List, [], ◌∷◌, arith, String, str_eq, ltb, leb, ◌==◌, if◌then◌else◌, Bool-cases, Option-cases,
  if-true, length,
}
use win_remote_control.Prelude.Table.{entries, entries-erase, entries-insert, erase, insert, lookup}
use win_remote_control.Terminal.Commands.{
  PendingCommand, Sender, TerminalCommandDispatcher, handle_result, has_pending_resize, is_resize,
  maximum_pending_bytes, maximum_pending_commands, new_dispatcher, send_command,
}
use win_remote_control.Terminal.Service.Types.{TerminalMessage}

-- The sum of a measure over a table.
abbrev pub weigh : (PendingCommand → ℕ) → List (String × PendingCommand) → ℕ
weigh f [] = 0
weigh f ((i, p) ∷ t) = f p + weigh f t

abbrev pub resizes : PendingCommand → ℕ
resizes p = if is_resize p.message.type then 1 else 0

weigh-erase_none :
    (f : PendingCommand → ℕ) (k : String) (t : List (String × PendingCommand))
    → entries k t ≡ 0
    → weigh f (erase k t) ≡ weigh f t
weigh-erase_none f k [] e = refl
weigh-erase_none f k ((j, v) ∷ t) e = ground (arith, weigh-erase_none f k t)

weigh-erase :
    (f : PendingCommand → ℕ) (k : String) (t : List (String × PendingCommand)) (p : PendingCommand)
    → lookup k t ≡ some p
    → entries k t ≤ 1
    → f p + weigh f (erase k t) ≡ weigh f t
weigh-erase f k [] p e u = cc
weigh-erase f k ((j, v) ∷ t) p e u = elim (Bool-cases (str_eq j k)) [
  | inl same ↦
      let v≡p : some v ≡ some p = sym (if-true _ _ _ same) ∙ e in
      let few : entries k t ≡ 0 = ground (arith, u, same) in
      ground (
        arith,
        same,
        ap {B = ℕ} (λ o. elim o [ none ↦ 0 | some q ↦ f q ]) v≡p,
        weigh-erase_none f k t few,
      )
  | inr other ↦ ground (arith, other, weigh-erase f k t p)
]

length-erase : (k : String) (t : List (String × PendingCommand)) → length (erase k t) ≤ length t
length-erase k [] = omega arith
length-erase k ((j, v) ∷ t) = ground (arith, length-erase k t)

pub has_pending_resize-weigh :
    (t : List (String × PendingCommand)) → has_pending_resize t ≡ false → weigh resizes t ≡ 0
has_pending_resize-weigh [] e = refl
has_pending_resize-weigh ((j, v) ∷ t) e = ground (arith, has_pending_resize-weigh t)

-- The pending commands, what they are counted for, and their limits. No more than one is a resize.
pub record IsBounded (pending : List (String × PendingCommand)) (bytes : ℕ) : Type 0 where
  pub counted : bytes ≡ weigh (λ p. p.encoded_bytes) pending
  pub size : bytes ≤ maximum_pending_bytes
  pub few : length pending ≤ maximum_pending_commands
  pub once : (i : String) → entries i pending ≤ 1
  pub one_resize : weigh resizes pending ≤ 1

abbrev pub IsValid : TerminalCommandDispatcher → Type 0
IsValid d = IsBounded d.pending d.pending_bytes

pub new_dispatcher-IsValid : IsValid new_dispatcher
new_dispatcher-IsValid = record {
  counted = refl;
  size = omega arith;
  few = omega arith;
  once = λ i. omega arith;
  one_resize = omega arith;
}

pub erase-IsBounded :
    (k : String) (p : PendingCommand) (t : List (String × PendingCommand)) (bytes : ℕ)
    → lookup k t ≡ some p
    → IsBounded t bytes
    → IsBounded (erase k t) (bytes - p.encoded_bytes)
erase-IsBounded k p t bytes e v =
    let b = weigh-erase (λ q. q.encoded_bytes) k t p e (v.once k) in
    let r = weigh-erase resizes k t p e (v.once k) in
    record {
      counted = omega (arith, b, v.counted);
      size = omega (arith, v.size);
      few = omega (arith, v.few, length-erase k t);
      once = λ i. ground (arith, v.once i, entries-erase i k t);
      one_resize = omega (arith, r, v.one_resize);
    }

pub erase_none-IsBounded :
    (k : String) (t : List (String × PendingCommand)) (bytes : ℕ)
    → entries k t ≡ 0
    → IsBounded t bytes
    → IsBounded (erase k t) bytes
erase_none-IsBounded k t bytes e v = record {
  counted = v.counted ∙ sym (weigh-erase_none (λ q. q.encoded_bytes) k t e);
  size = v.size;
  few = omega (arith, v.few, length-erase k t);
  once = λ i. ground (arith, v.once i, entries-erase i k t);
  one_resize = omega (arith, v.one_resize, weigh-erase_none resizes k t e);
}

pub insert-IsBounded :
    (k : String) (p : PendingCommand) (t : List (String × PendingCommand)) (bytes : ℕ)
    → entries k t ≡ 0
    → length t < maximum_pending_commands
    → bytes + p.encoded_bytes ≤ maximum_pending_bytes
    → resizes p + weigh resizes t ≤ 1
    → IsBounded t bytes
    → IsBounded (insert k p t) (bytes + p.encoded_bytes)
insert-IsBounded k p t bytes e room fits one v =
    let b = weigh-erase_none (λ q. q.encoded_bytes) k t e in
    let r = weigh-erase_none resizes k t e in
    record {
      counted = omega (arith, b, v.counted);
      size = fits;
      few = omega (arith, room, length-erase k t);
      once = λ i. ground (arith, v.once i, entries-insert i k p t);
      one_resize = omega (arith, r, one);
    }

pub handle_result-IsValid :
    (m : TerminalMessage) (generation : ℕ) (d : TerminalCommandDispatcher)
    → IsValid d
    → IsValid (handle_result m generation d).0
unfolding handle_result
handle_result-IsValid m generation d v = elim (Option-cases (lookup m.command_id d.pending)) [
  | inl e ↦ rw (e, handle_result) v
  | inr (p, e) ↦
      elim (Bool-cases
        (not (p.generation == generation) || not (str_eq p.message.request_id m.request_id))) [
          | inl other ↦ rw (e, handle_result, other) v
          | inr same ↦
              rw (e, handle_result, same)
                (erase-IsBounded m.command_id p d.pending d.pending_bytes e v)
        ]
]

module _ (encoded_size : TerminalMessage → ℕ) {W : Type 0} where
  pub send_command-IsValid :
      (transmit : TerminalMessage → W → W × Bool) (now : ℕ) (m : TerminalMessage) (generation : ℕ)
      (a : Sender W)
      → entries m.command_id a.dispatcher.pending ≡ 0
      → (if is_resize m.type then 1 else 0) + weigh resizes a.dispatcher.pending ≤ 1
      → IsValid a.dispatcher
      → IsValid (send_command encoded_size transmit now m generation a).0.dispatcher
  unfolding send_command
  send_command-IsValid transmit now m generation a e one v =
      let d = a.dispatcher in
      let n = encoded_size m in
      elim (Bool-cases (
        n == 0
        || (leb maximum_pending_commands (length d.pending)
            || ltb maximum_pending_bytes (d.pending_bytes + n)))) [
              | inl full ↦ rw full v
              | inr room ↦ elim (Bool-cases (not (transmit m a.world).1)) [
                | inl failed ↦
                    rw (room, failed)
                      (erase_none-IsBounded m.command_id d.pending d.pending_bytes e v)
                | inr sent ↦
                    rw (room, sent)
                      (insert-IsBounded m.command_id _ d.pending d.pending_bytes e
                        (ground (arith, room)) (ground (arith, room)) one v)
              ]
            ]
