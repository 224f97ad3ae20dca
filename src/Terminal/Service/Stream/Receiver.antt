-- ===== src/Terminal/Service/Stream/Receiver.antt =====
-- What the controlling side shows of the output that the other side sends
-- (KTerminalSessionService::handleTerminalData in src/terminal/terminalsessionservice.cpp).
use win_remote_control.Prelude.{
  ok, ℕ, zero, suc, ◌+◌, ◌≤◌, ◌<◌, ◌≡◌, refl, sym, ap, subst, ◌∙◌, ◌⊎◌, inl, inr, true, false, not,
  ◌||◌, some, List, [], ◌∷◌, ◌++◌, append-nil, append_assoc, arith, String, str_eq_iff,
  Option-cases, if-true, if-false, drop,
}
use win_remote_control.Prelude.Parts.{deliver, drop-Sublist, get_elem?, nil-Sublist}
use win_remote_control.Terminal.Service.Types.{
  At, Signal, Surroundings, TerminalSessionService, output_ready,
}
use win_remote_control.Terminal.Service.Basics.{emit, write_frontend}
use win_remote_control.Terminal.Service.Receiving.{
  counted, handle_frame, handle_terminal_data, is_fresh, receive_output, show_output,
}
use win_remote_control.Terminal.Service.Stream.{Carries, frame_of, nothing, one_more}
use win_remote_control.Terminal.Machine.{awaiting_approval, opening, running, state_eq}
use win_remote_control.Terminal.DataFrame.{TerminalDataDirection, TerminalDataFrame, decode, output}
use win_remote_control.Qt.{UuidLibrary}
use mathlib.Core.List.{Sublistᴰ}
use mathlib.Core.Option.{some-injective}

-- The chunks that a world has shown: its frontend takes every write, and a signal shows nothing.
pub record Shows {W : Type 0} (env : Surroundings W) (shown : W → List (List ℕ)) : Type 0 where
  pub writes :
      (bytes : List ℕ) (w : W)
      → ((write_frontend env bytes w).1 ≡ true)
        × (shown (write_frontend env bytes w).0 ≡ shown w ++ bytes ∷ [])
  pub emits : (signal : Signal) (w : W) → shown (env.emit signal w) ≡ shown w

-- The controlling side of a running terminal, which has taken the frame `last`.
pub record IsWatching (id : String) (last : ℕ) (s : TerminalSessionService) : Type 0 where
  pub controls : s.is_controller ≡ true
  pub runs : s.state ≡ running
  pub named : s.request_id ≡ id
  pub reached : s.last_received_sequence ≡ last

-- A chunk at its place, in the packets and in the frames.
Carries-at :
    {q : UuidLibrary} {direction : TerminalDataDirection} {id : String} {n : ℕ}
    {cs bs : List (List ℕ)} (i : ℕ) (b : List ℕ)
    → Carries q direction id n cs bs
    → get_elem? bs i ≡ some b
    → (c : List ℕ) × (get_elem? cs i ≡ some c) × (decode q b ≡ ok (frame_of direction id (n + i) c))
Carries-at i b nothing e = cc
Carries-at {q} {direction} {id} {n} zero b (one_more {c = c} d h) e = (
  c,
  refl,
  subst (λ (p : ℕ × List ℕ). decode q p.1 ≡ ok (frame_of direction id p.0 c))
      (λ i. (omega_zero i, some-injective _ b e i)) d,
)
  where
    omega_zero : n ≡ n + zero
    omega_zero = omega arith
Carries-at {q} {direction} {id} {n} (suc i) b (one_more d h) e =
    let (c, at, decoded) = Carries-at i b h e in
    (c, at, subst (λ m. decode q b ≡ ok (frame_of direction id m c)) (omega arith) decoded)

lt_or_le : (m n : ℕ) → (m < n) ⊎ (n ≤ m)
lt_or_le m n = ground arith

module _ (q : UuidLibrary) {W : Type 0} (env : Surroundings W) where
  -- The packets of a list, one after the other.
  abbrev pub receive_all : List (List ℕ) → At W → At W
  receive_all [] a = a
  receive_all (b ∷ bs) a = receive_all bs (handle_terminal_data env q b a)

module _ (q : UuidLibrary) {W : Type 0} (env : Surroundings W) (shown : W → List (List ℕ))
    (shows : Shows env shown) (id : String) where
  -- What one packet does.
  record Shown (last : ℕ) (new : List (List ℕ)) (a b : At W) : Type 0 where
    pub watching : IsWatching id last b.service
    pub written : shown b.world ≡ shown a.world ++ new

  fresh_lem :
      (last m : ℕ) (c : List ℕ) (s : TerminalSessionService)
      → IsWatching id last s
      → last < m
      → not (is_fresh s (frame_of output id m c)) ≡ false
  fresh_lem last m c s v h =
      ground (arith, v.controls, v.named, v.reached, str_eq_iff id s.request_id)

  frame_arrives :
      (last m : ℕ) (c : List ℕ) (a : At W)
      → IsWatching id last a.service
      → last < m
      → Shown m (c ∷ []) a (handle_frame env (frame_of output id m c) a)
  unfolding handle_frame receive_output show_output emit
  frame_arrives last m c a v h =
      let s = a.service in
      let f = frame_of output id m c in
      let w = write_frontend env c a.world in
      let write = shows.writes c a.world in
      let after : At W = record {
        service = record s { last_received_sequence = m; output_bytes = counted s.output_bytes c };
        world = env.emit (output_ready c) w.0;
      } in
      let all : handle_frame env f a ≡ after =
        if-false (not (is_fresh s f)) _ _ (fresh_lem last m c s v h)
        ∙ (if-true s.is_controller _ _ v.controls
            ∙ (if-false (state_eq s.state awaiting_approval || state_eq s.state opening) _ _
                  (rw v.runs refl)
                ∙ (if-false (not (state_eq s.state running)) _ _ (rw v.runs refl)
                    ∙ if-false (not w.1) _ _ (rw write.0 refl)))) in
      rw all (record {
        watching = record { controls = v.controls; runs = v.runs; named = v.named; reached = refl };
        written = shows.emits (output_ready c) w.0 ∙ write.1;
      })

  frame_passed :
      (last m : ℕ) (c : List ℕ) (a : At W)
      → IsWatching id last a.service
      → m ≤ last
      → handle_frame env (frame_of output id m c) a ≡ a
  unfolding handle_frame
  frame_passed last m c a v h = ground (arith, v.controls, v.named, v.reached)

  packet :
      (b : List ℕ) (f : TerminalDataFrame) (a : At W)
      → decode q b ≡ ok f
      → handle_terminal_data env q b a ≡ handle_frame env f a
  unfolding handle_terminal_data
  packet b f a e = rw (e, handle_terminal_data) refl

  -- From the position `k`, before which all has been shown or passed by.
  delivered_from :
      (n : ℕ) (cs bs : List (List ℕ)) (is : List ℕ) (k last : ℕ) (a : At W)
      → Carries q output id n cs bs
      → (k ≡ 0) ⊎ (n + k ≤ last + 1)
      → IsWatching id last a.service
      → (ys : List (List ℕ)) × (shown (receive_all q env (deliver is bs) a).world
          ≡ shown a.world ++ ys)
        × Sublistᴰ ys (drop k cs)
  delivered_from n cs bs [] k last a carried h v =
      ([], sym (append-nil (shown a.world)), nil-Sublist (drop k cs))
  delivered_from n cs bs (i ∷ is) k last a carried h v = elim (Option-cases (get_elem? bs i)) [
    | inl e ↦ rw (e, receive_all) (delivered_from n cs bs is k last a carried h v)
    | inr (b, e) ↦
        let (c, at, decoded) = Carries-at i b carried e in
        let f = frame_of output id (n + i) c in
        elim (lt_or_le last (n + i)) [
          | inl fresh ↦
              let x = frame_arrives last (n + i) c a v fresh in
              let (ys, written, part) =
                delivered_from n cs bs is (suc i) (n + i) (handle_frame env f a) carried
                  (inr (omega arith)) x.watching in
              rw (e, receive_all, packet b f a decoded)
                (
                  c ∷ ys,
                  written
                      ∙ (ap (λ t. t ++ ys) x.written ∙ append_assoc (shown a.world) (c ∷ []) ys),
                  drop-Sublist cs k i c ys at (ground (arith, h, fresh)) part,
                )
          | inr old ↦
              let passed = packet b f a decoded ∙ frame_passed last (n + i) c a v old in
              rw (e, receive_all, passed) (delivered_from n cs bs is k last a carried h v)
        ]
  ]

  -- The controlling side of a running terminal, which has taken no frame of the numbers from `n` yet,
  -- and a channel that drops, repeats and reorders the packets of some chunks, numbered from `n`: what
  -- the frontend shows is some of the chunks, in their order and each at most as often as it was sent.
  pub receive_all-Sublist :
      (n last : ℕ) (cs bs : List (List ℕ)) (is : List ℕ) (a : At W)
      → Carries q output id n cs bs
      → IsWatching id last a.service
      → (ys : List (List ℕ)) × (shown (receive_all q env (deliver is bs) a).world
          ≡ shown a.world ++ ys)
        × Sublistᴰ ys cs
  receive_all-Sublist n last cs bs is a carried v =
      delivered_from n cs bs is 0 last a carried (inl refl) v

  -- And all of them, if the channel loses, repeats and reorders nothing.
  pub receive_all-Carries :
      {n : ℕ} {cs bs : List (List ℕ)} (last : ℕ) (a : At W)
      → last < n
      → Carries q output id n cs bs
      → IsWatching id last a.service
      → shown (receive_all q env bs a).world ≡ shown a.world ++ cs
  receive_all-Carries last a h nothing v = sym (append-nil (shown a.world))
  receive_all-Carries {n} last a h (one_more {c = c} {b = b} {cs = cs} d carried) v =
      let f = frame_of output id n c in
      let x = frame_arrives last n c a v h in
      let rest = receive_all-Carries n (handle_frame env f a) (omega arith) carried x.watching in
      rw (receive_all, packet b f a d)
        (rest ∙ (ap (λ t. t ++ cs) x.written ∙ append_assoc (shown a.world) (c ∷ []) cs))
