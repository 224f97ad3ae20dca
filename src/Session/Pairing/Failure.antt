-- ===== src/Session/Pairing/Failure.antt =====
-- What the calls do to a KPairingTransaction that has ended
-- (src/session/pairingtransaction.cpp).
use win_remote_control.Prelude.{◌≡◌, Bool, true, false, ◌&&◌, ◌||◌, List, [], ◌∷◌, if◌then◌else◌}
use win_remote_control.Session.Pairing.{
  PairingTransaction, PairingTransactionState, committed_complete, completed, failed,
}
use win_remote_control.Session.Pairing.Phases.{Event, completes, restarts}

abbrev pub is_completion : Event → Bool
is_completion completes = true
is_completion _ = false

-- Whether a list of calls has one that starts over.
abbrev pub starts_over : List Event → Bool
starts_over [] = false
starts_over (e ∷ es) = restarts e || starts_over es

-- Whether markCompleted is among the calls.
abbrev pub tries_completion : List Event → Bool
tries_completion [] = false
tries_completion (e ∷ es) = is_completion e || tries_completion es

-- The state that a failed transaction comes to.
abbrev pub end_state : Bool → PairingTransaction → PairingTransactionState
end_state tried t = if tried && committed_complete t then completed else failed

-- Its request and its progress are the ones of `t`, and it is in that state.
pub record IsFrozen (t : PairingTransaction) (ended : PairingTransactionState)
    (u : PairingTransaction) : Type 0 where
  pub progress : u.progress ≡ t.progress
  pub request : u.request_id ≡ t.request_id
  pub generation : u.generation ≡ t.generation
  pub state : u.state ≡ ended
