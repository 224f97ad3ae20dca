-- ===== src/Session/PeerLifecycle/Rollback.antt =====
-- A rollback that is pending in KPeerLifecycleController (src/session/peerlifecyclecontroller.cpp).
use win_remote_control.Prelude.{
  ℕ, ◌+◌, ◌≡◌, refl, ◌∙◌, inl, inr, Bool, true, false, ◌||◌, List, [], ◌∷◌, ◌++◌, arith, ◌==◌,
  if◌then◌else◌, Bool-cases, length, length-append,
}
use win_remote_control.Session.PeerLifecycle.{
  After, Event, LifecycleSignal, PeerInitializationResult, PeerLifecycleController, finishes,
  handle, handle_rollback_timer, handle_shutdown_finished, initialize, initializes,
  peer_shutdown_finished, request_shutdown, requests_shutdown, rollback_finished, rollback_started,
  rollback_timeout, run, timer_fires,
}

abbrev pub timeouts : List LifecycleSignal → ℕ
timeouts [] = 0
timeouts (rollback_timeout g ms ∷ ss) = 1 + timeouts ss
timeouts (_ ∷ ss) = timeouts ss

timeouts-append : (ss ts : List LifecycleSignal) → timeouts (ss ++ ts) ≡ timeouts ss + timeouts ts
timeouts-append [] ts = omega arith
timeouts-append (rollback_started g ms ∷ ss) ts = timeouts-append ss ts
timeouts-append (rollback_timeout g ms ∷ ss) ts = omega (arith, timeouts-append ss ts)
timeouts-append (rollback_finished g late ∷ ss) ts = timeouts-append ss ts
timeouts-append (peer_shutdown_finished g ∷ ss) ts = timeouts-append ss ts

abbrev pub late_count : PeerLifecycleController → ℕ
late_count c = if c.rollback_timed_out then 1 else 0

-- The rollback stays pending for the same generation, nothing else than its timeout is signalled, and
-- that once.
pub record Waits {W : Type 0} (c : PeerLifecycleController) (a : After W) : Type 0 where
  pub pending : a.controller.rollback_pending ≡ true
  pub generation : a.controller.generation ≡ c.generation
  pub once : timeouts a.signals + late_count c ≡ late_count a.controller
  pub only : length a.signals ≡ timeouts a.signals

-- Whether the transport tells the end of that generation.
abbrev pub ends_in : {R : Type 0} → ℕ → List (Event R) → Bool
ends_in g [] = false
ends_in g (finishes h ∷ es) = (h == g) || ends_in g es
ends_in g (_ ∷ es) = ends_in g es

ends_in-first :
    {R : Type 0} (g : ℕ) (e : Event R) (es : List (Event R))
    → ends_in g (e ∷ es) ≡ false
    → (ends_in g (e ∷ []) ≡ false) × (ends_in g es ≡ false)
ends_in-first g (initializes r) es h = (refl, h)
ends_in-first g (requests_shutdown k) es h = (refl, h)
ends_in-first g timer_fires es h = (refl, h)
ends_in-first g (finishes k) es h = ground (arith, h)

module _ {R W : Type 0} (transport_initialize : R → ℕ → W → W × PeerInitializationResult)
    (transport_request_shutdown : ℕ → W → W) where
  handle-Waits :
      (e : Event R) (c : PeerLifecycleController) (w : W)
      → c.rollback_pending ≡ true
      → ends_in c.generation (e ∷ []) ≡ false
      → Waits c (handle transport_initialize transport_request_shutdown e c w)
  unfolding initialize request_shutdown handle_rollback_timer handle_shutdown_finished
  handle-Waits (initializes role) c w p e =
      rw (p, initialize)
        (record { pending = refl; generation = refl; once = omega arith; only = refl })
  handle-Waits (requests_shutdown g) c w p e = record {
    pending = p;
    generation = refl;
    once = omega arith;
    only = refl;
  }
  handle-Waits timer_fires c w p e = elim (Bool-cases c.rollback_timed_out) [
    | inl late ↦
        rw (p, late, handle_rollback_timer)
          (record { pending = refl; generation = refl; once = omega arith; only = refl })
    | inr early ↦
        rw (p, early, handle_rollback_timer)
          (record { pending = refl; generation = refl; once = omega arith; only = refl })
  ]
  handle-Waits (finishes g) c w p e =
      let other : (g == c.generation) ≡ false = ground (arith, e) in
      rw (other, handle_shutdown_finished)
        (record { pending = p; generation = refl; once = omega arith; only = refl })

  -- While a rollback is pending, and until the transport tells the end of its generation, nothing is
  -- signalled but its timeout, at most once, and the generation stays as it is.
  pub run-Waits :
      (es : List (Event R)) (c : PeerLifecycleController) (w : W)
      → c.rollback_pending ≡ true
      → ends_in c.generation es ≡ false
      → Waits c (run transport_initialize transport_request_shutdown es c w)
  unfolding run
  run-Waits [] c w p h = record { pending = p; generation = refl; once = omega arith; only = refl }
  run-Waits (e ∷ es) c w p h =
      let a = handle transport_initialize transport_request_shutdown e c w in
      let rest = run transport_initialize transport_request_shutdown es a.controller a.world in
      let u = ends_in-first c.generation e es h in
      let v = handle-Waits e c w p u.0 in
      let t = run-Waits es a.controller a.world v.pending (rw v.generation u.1) in
      record {
        pending = t.pending;
        generation = t.generation ∙ v.generation;
        once = omega (arith, v.once, t.once, timeouts-append a.signals rest.signals);
        only = omega (
          arith,
          v.only,
          t.only,
          timeouts-append a.signals rest.signals,
          length-append a.signals rest.signals,
        );
      }
