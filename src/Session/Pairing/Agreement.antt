-- ===== src/Session/Pairing/Agreement.antt =====
-- The pairing transactions of the two devices together. Each side calls its own methods at any time,
-- and marks what it hears from the other only once the other has marked it for itself: the channel
-- may delay and drop messages, and makes none up.
use win_remote_control.Prelude.{◌≡◌, Bool, true, arith, String}
use win_remote_control.Session.Pairing.{
  mark_progress, mark_failed, mark_completed, mark_remote_committed, mark_local_committed,
  mark_remote_prepared, mark_local_prepared, mark_remote_decision, mark_local_decision,
  exchanging_hello, mark_hello_received, mark_hello_sent, no_progress, update_state,
  PairingTransaction, completed,
}
use win_remote_control.Session.Pairing.Phases.{
  Event, begins, resets, receives_hello, peer_decides, peer_prepares, peer_commits, step, IsOrdered,
  step-IsOrdered,
}

pub record Pair : Type 0 where
  pub here : PairingTransaction
  pub there : PairingTransaction

-- When a side may make a call, given the other side.
abbrev pub Allowed : Event → PairingTransaction → Type 0
Allowed (begins i g) other = ⊥
Allowed resets other = ⊥
Allowed receives_hello other = other.progress.sent ≡ true
Allowed (peer_decides p) other = (other.progress.decided ≡ true) × (other.local_permissions ≡ p)
Allowed peer_prepares other = other.progress.prepared ≡ true
Allowed peer_commits other = other.progress.committed ≡ true
Allowed _ other = Unit {0}

module _ (null : String → Bool) where
  pub data Move : Pair → Pair → Type 0 where
    acts_here :
        (e : Event) (s : Pair) → Allowed e s.there → Move s (record s { here = step null e s.here })
    acts_there :
        (e : Event) (s : Pair)
        → Allowed e s.here
        → Move s (record s { there = step null e s.there })

  pub data Reach (s : Pair) : Pair → Type 0 where
    start : Reach s s
    next : {t u : Pair} → Reach s t → Move t u → Reach s u

-- What the first side has marked of the second, the second has marked for itself.
pub record Sees (t other : PairingTransaction) : Type 0 where
  pub hello : t.progress.received ≡ true → other.progress.sent ≡ true
  pub decision :
      t.progress.peer_decided ≡ true
      → (other.progress.decided ≡ true) × (other.local_permissions ≡ t.remote_permissions)
  pub preparation : t.progress.peer_prepared ≡ true → other.progress.prepared ≡ true
  pub commit : t.progress.peer_committed ≡ true → other.progress.committed ≡ true

module _ (null : String → Bool) where
  -- Own calls and calls that the other side's marks allow.
  Sees-step :
      (e : Event) (t other : PairingTransaction)
      → Allowed e other
      → Sees t other
      → Sees (step null e t) other
  unfolding step mark_hello_sent mark_hello_received mark_local_decision mark_remote_decision
      mark_local_prepared mark_remote_prepared mark_local_committed mark_remote_committed
      mark_completed mark_failed mark_progress update_state
  Sees-step (begins i g) t other a v = absurd a
  Sees-step _ t other a v = ground arith

  -- The other side takes nothing back.
  Sees-step_other :
      (e : Event) (t other : PairingTransaction)
      → Allowed e t
      → Sees t other
      → Sees t (step null e other)
  unfolding step mark_hello_sent mark_hello_received mark_local_decision mark_remote_decision
      mark_local_prepared mark_remote_prepared mark_local_committed mark_remote_committed
      mark_completed mark_failed mark_progress update_state
  Sees-step_other (begins i g) t other a v = absurd a
  Sees-step_other _ t other a v = ground arith

  pub record Joint (s : Pair) : Type 0 where
    pub sees : Sees s.here s.there
    pub seen : Sees s.there s.here
    pub ordered : IsOrdered s.here
    pub ordered_there : IsOrdered s.there

  Joint-Move : {s t : Pair} → Move null s t → Joint s → Joint t
  Joint-Move (acts_here e s a) v = record {
    sees = Sees-step e s.here s.there a v.sees;
    seen = Sees-step_other e s.there s.here a v.seen;
    ordered = step-IsOrdered null e s.here v.ordered;
    ordered_there = v.ordered_there;
  }
  Joint-Move (acts_there e s a) v = record {
    sees = Sees-step_other e s.here s.there a v.sees;
    seen = Sees-step e s.there s.here a v.seen;
    ordered = v.ordered;
    ordered_there = step-IsOrdered null e s.there v.ordered_there;
  }

  Joint-Reach : {s t : Pair} → Joint s → Reach null s t → Joint t
  Joint-Reach v start = v
  Joint-Reach v (next r m) = Joint-Move m (Joint-Reach v r)

  -- Two devices that have begun and marked nothing yet.
  pub record IsStart (s : Pair) : Type 0 where
    pub new_here : s.here.progress ≡ no_progress
    pub new_there : s.there.progress ≡ no_progress
    pub open_here : s.here.state ≡ exchanging_hello
    pub open_there : s.there.state ≡ exchanging_hello

  IsStart-Joint : (s : Pair) → IsStart s → Joint s
  unfolding update_state
  IsStart-Joint s v = ground arith

  -- Two devices that have begun and marked nothing yet make any calls but starting over, in any order,
  -- and mark what they hear only when the other has marked it for itself: when one has completed the
  -- pairing, the other has prepared and committed it, and the two agree on what each has granted.
  pub completed_agrees :
      (s t : Pair)
      → IsStart s
      → Reach null s t
      → t.here.state ≡ completed
      → (t.there.progress.committed ≡ true)
        × (t.there.progress.prepared ≡ true)
        × (t.here.remote_permissions ≡ t.there.local_permissions)
        × (t.there.remote_permissions ≡ t.here.local_permissions)
  completed_agrees s t v r c =
      let j = Joint-Reach (IsStart-Joint s v) r in
      ground (arith, j.sees, j.seen, j.ordered, j.ordered_there)
