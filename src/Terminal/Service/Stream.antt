-- ===== src/Terminal/Service/Stream.antt =====
-- What KTerminalSessionService puts on the data channel (src/terminal/terminalsessionservice.cpp): the
-- first chunks of a queue, in frames with consecutive numbers.
pub mod Sender
pub mod Receiver
pub mod Arrival
use win_remote_control.Prelude.{
  Outcome, ok, err, passed, ℕ, zero, suc, ◌+◌, ◌-◌, ◌*◌, ◌/◌, ◌%◌, ◌^◌, ◌≤◌, ◌<◌, min, max, ◌≡◌,
  refl, sym, ap, subst, ◌∙◌, ◌≢◌, ◌↔◌, ◌⊎◌, inl, inr, Bool, true, false, not, ◌&&◌, ◌||◌, Option,
  none, some, List, [], ◌∷◌, ◌++◌, map, Memᴰ, append-nil, append_assoc, arith, String, str_eq,
  str_eq_iff, ltb, leb, ◌==◌, if◌then◌else◌, ltb→lt, lt→ltb, leb→le, ==_iff, tests, Bool-cases,
  Option-cases, length, take, drop, length-append, length-drop, take-append_length,
  drop-append_length, List-cases, take_all, length-take, byte_at, write_le, write_be, read_le,
  read_be, byte_at-append, take-append, drop-append, byte_at-skip, drop-skip, take-skip,
}
use win_remote_control.Terminal.Service.Types.{Surroundings}
use win_remote_control.Terminal.Service.Output.{flush, output_chunk_bytes, send_data_frame}
use win_remote_control.Terminal.Service.Queues.{AllSized}
use win_remote_control.Terminal.DataFrame.{
  TerminalDataDirection, TerminalDataFrame, decode, direction_code, is_direction,
}
use win_remote_control.Terminal.DataFrame.RoundTrip.{IsEncodable, decode-encode_frame}
use win_remote_control.Qt.{UuidLibrary}

-- The packets that a world has sent, of which each accepted call adds one.
pub record Logs {W : Type 0} (env : Surroundings W) (log : W → List (List ℕ)) : Type 0 where
  pub sent :
      (b : List ℕ) (w : W)
      → (env.send_terminal_data b w).1 ≡ true
      → log (env.send_terminal_data b w).0 ≡ log w ++ b ∷ []
  pub kept :
      (b : List ℕ) (w : W)
      → (env.send_terminal_data b w).1 ≡ false
      → log (env.send_terminal_data b w).0 ≡ log w

abbrev pub frame_of : TerminalDataDirection → String → ℕ → List ℕ → TerminalDataFrame
frame_of direction id n c = record {
  direction = direction;
  request_id = id;
  sequence = n;
  payload = c;
}

-- A request identifier in the form that Qt prints.
pub record IsRequest (q : UuidLibrary) (id : String) : Type 0 where
  pub named : str_eq id "" ≡ false
  pub identified : q.is_null (q.from_string id) ≡ false
  pub canonical : q.to_string (q.from_string id) ≡ id

-- The packets are decoded to the frames of the chunks, numbered from `n`.
pub data Carries (q : UuidLibrary) (direction : TerminalDataDirection) (id : String)
    : ℕ → List (List ℕ) → List (List ℕ) → Type 0 where
  nothing : {n : ℕ} → Carries q direction id n [] []
  one_more :
      {n : ℕ} {c b : List ℕ} {cs bs : List (List ℕ)}
      → decode q b ≡ ok (frame_of direction id n c)
      → Carries q direction id (n + 1) cs bs
      → Carries q direction id n (c ∷ cs) (b ∷ bs)

module _ {q : UuidLibrary} {direction : TerminalDataDirection} {id : String} where
  pub Carries-append :
      {n : ℕ} {cs bs : List (List ℕ)} (m : ℕ) (ds es : List (List ℕ))
      → Carries q direction id n cs bs
      → m ≡ n + length cs
      → Carries q direction id m ds es
      → Carries q direction id n (cs ++ ds) (bs ++ es)
  Carries-append m ds es nothing e k = subst (λ x. Carries q direction id x ds es) (omega arith) k
  Carries-append m ds es (one_more d h) e k = one_more d (Carries-append m ds es h (omega arith) k)

module _ (q : UuidLibrary) {W : Type 0} (env : Surroundings W) (log : W → List (List ℕ))
    (logs : Logs env log) (direction : TerminalDataDirection) (id : String)
    (directed : is_direction (direction_code direction) ≡ true) (request : IsRequest q id) where
  -- What a loop that sends has taken from the queue.
  pub record Sends (queue : List (List ℕ)) (n : ℕ) (w : W) (rest : List (List ℕ)) (m : ℕ) (v : W)
      : Type 0 where
    pub taken : List (List ℕ)
    pub packets : List (List ℕ)
    pub split : queue ≡ taken ++ rest
    pub logged : log v ≡ log w ++ packets
    pub numbered : m ≡ n + length taken
    pub carried : Carries q direction id n taken packets

  send_data_frame_lem :
      (c : List ℕ) (n : ℕ) (w : W)
      → 1 ≤ n
      → n < 2 ^ 64
      → AllSized output_chunk_bytes (c ∷ [])
      → (b : List ℕ) × (decode q b ≡ ok (frame_of direction id n c))
        × (send_data_frame q env direction id c n w ≡ env.send_terminal_data b w)
  unfolding send_data_frame
  send_data_frame_lem c n w low high z =
      let f = frame_of direction id n c in
      let v : IsEncodable q f = record {
        identified = request.identified;
        canonical = request.canonical;
        directed = directed;
        numbered = omega (arith, low);
        in_range = high;
        some_payload = omega (arith, z.0);
        bounded = omega (arith, z.1);
      } in
      let (b, encoded, decoded) = decode-encode_frame q f v in
      (b, decoded, rw (request.named, encoded) refl)

  Sends-none : (queue : List (List ℕ)) (n : ℕ) (w v : W) → log v ≡ log w → Sends queue n w queue n v
  Sends-none queue n w v e = record {
    taken = [];
    packets = [];
    split = refl;
    logged = e ∙ sym (append-nil (log w));
    numbered = omega arith;
    carried = nothing;
  }

  Sends-more :
      (c : List ℕ) (cs : List (List ℕ)) (n : ℕ) (w v : W) (b : List ℕ) (rest : List (List ℕ))
      (m : ℕ) (u : W)
      → decode q b ≡ ok (frame_of direction id n c)
      → log v ≡ log w ++ b ∷ []
      → Sends cs (n + 1) v rest m u
      → Sends (c ∷ cs) n w rest m u
  Sends-more c cs n w v b rest m u decoded logged s = record {
    taken = c ∷ s.taken;
    packets = b ∷ s.packets;
    split = ap (λ t. c ∷ t) s.split;
    logged = s.logged ∙ (ap (λ t. t ++ s.packets) logged ∙ append_assoc (log w) (b ∷ []) s.packets);
    numbered = omega (arith, s.numbered);
    carried = one_more decoded s.carried;
  }

  pub flush-Sends :
      (queue : List (List ℕ)) (bytes n total_sent : ℕ) (w : W)
      → 1 ≤ n
      → n + length queue < 2 ^ 64
      → AllSized output_chunk_bytes queue
      → let f = flush q env direction id queue bytes n total_sent w in
        Sends queue n w f.queue f.sequence f.world
  unfolding flush
  flush-Sends [] bytes n total_sent w low high z = Sends-none [] n w w refl
  flush-Sends (c ∷ cs) bytes n total_sent w low high z =
      let (b, decoded, sending) = send_data_frame_lem c n w low (omega arith) (z.0, z.1, tt) in
      let v = env.send_terminal_data b w in
      let next : (n + 1) % 2 ^ 64 ≡ n + 1 = omega arith in
      let rest =
        flush-Sends cs (bytes - length c) (n + 1) ((total_sent + length c) % 2 ^ 64) v.0
          (omega arith) (omega arith) z.2 in
      elim (Bool-cases (env.is_backpressured w)) [
        | inl stays ↦ rw stays (Sends-none (c ∷ cs) n w w refl)
        | inr passes ↦ elim (Bool-cases v.1) [
          | inl goes ↦
              rw (passes, sending, goes, next)
                (Sends-more c cs n w v.0 b _ _ _ decoded (logs.sent b w goes) rest)
          | inr fails ↦
              rw (passes, sending, fails) (Sends-none (c ∷ cs) n w v.0 (logs.kept b w fails))
        ]
      ]
