-- ===== src/Session/Pairing/Phases.antt =====
-- The order of the phases of a pairing, over all the calls a KPairingTransaction can get
-- (src/session/pairingtransaction.cpp).
use win_remote_control.Prelude.{ℕ, ◌≡◌, Bool, true, false, List, [], ◌∷◌, arith, String}
use win_remote_control.Session.Pairing.{
  PairingTransaction, begin, committed_complete, completed, decisions_complete, fresh, is_active,
  mark_completed, mark_failed, mark_hello_received, mark_hello_sent, mark_local_committed,
  mark_local_decision, mark_local_prepared, mark_progress, mark_remote_committed,
  mark_remote_decision, mark_remote_prepared, prepared_complete, reset, update_state,
}
use win_remote_control.Security.Permissions.{PermissionScopes}

-- The public methods that change a transaction.
pub data Event : Type 0 where
  begins : String → ℕ → Event
  resets sends_hello receives_hello : Event
  decides peer_decides : PermissionScopes → Event
  prepares peer_prepares commits peer_commits completes fails : Event

unfoldable pub step : (String → Bool) → Event → PairingTransaction → PairingTransaction
step null (begins id generation) t = begin null id generation t
step null resets t = reset t
step null sends_hello t = (mark_hello_sent t).0
step null receives_hello t = (mark_hello_received t).0
step null (decides p) t = (mark_local_decision p t).0
step null (peer_decides p) t = (mark_remote_decision p t).0
step null prepares t = (mark_local_prepared t).0
step null peer_prepares t = (mark_remote_prepared t).0
step null commits t = (mark_local_committed t).0
step null peer_commits t = (mark_remote_committed t).0
step null completes t = (mark_completed t).0
step null fails t = mark_failed t

unfoldable pub run : (String → Bool) → List Event → PairingTransaction → PairingTransaction
run null [] t = t
run null (e ∷ es) t = run null es (step null e t)

-- Nobody prepares before both have decided, nor commits before both are prepared, and a transaction
-- is completed only after both commits. While it is active its state is the one of its progress.
pub record IsOrdered (t : PairingTransaction) : Type 0 where
  pub prepared_after : t.progress.prepared ≡ true → decisions_complete t ≡ true
  pub peer_prepared_after : t.progress.peer_prepared ≡ true → decisions_complete t ≡ true
  pub committed_after : t.progress.committed ≡ true → prepared_complete t ≡ true
  pub peer_committed_after : t.progress.peer_committed ≡ true → prepared_complete t ≡ true
  pub completed_after : t.state ≡ completed → committed_complete t ≡ true
  pub state_of_progress : is_active t ≡ true → (update_state t).state ≡ t.state

-- A call that starts over.
abbrev pub restarts : Event → Bool
restarts (begins i g) = true
restarts resets = true
restarts _ = false

module _ (null : String → Bool) where
  pub step-IsOrdered :
      (e : Event) (t : PairingTransaction) → IsOrdered t → IsOrdered (step null e t)
  unfolding step begin reset mark_hello_sent mark_hello_received mark_local_decision
      mark_remote_decision mark_local_prepared mark_remote_prepared mark_local_committed
      mark_remote_committed mark_completed mark_failed mark_progress update_state
  step-IsOrdered (begins i g) t v = ground arith
  step-IsOrdered _ t v = ground arith

  run-IsOrdered_from :
      (es : List Event) (t : PairingTransaction) → IsOrdered t → IsOrdered (run null es t)
  unfolding run
  run-IsOrdered_from [] t v = v
  run-IsOrdered_from (e ∷ es) t v = run-IsOrdered_from es (step null e t) (step-IsOrdered e t v)

  -- After any calls on a new transaction the phases stand in order: a side that is prepared has both
  -- decisions, one that has committed has both sides prepared, and a completed transaction has both
  -- commits. While the transaction is active, its state is the one that its progress gives.
  pub run-IsOrdered : (es : List Event) → IsOrdered (run null es fresh)
  unfolding update_state
  run-IsOrdered es = run-IsOrdered_from es fresh (ground arith)

  -- A permission set, once decided, is final: until the transaction starts over no call changes the
  -- permissions of a side whose decision has been marked, nor takes the mark back.
  pub decision_final :
      (e : Event) (t : PairingTransaction)
      → restarts e ≡ false
      → (t.progress.decided ≡ true
          → ((step null e t).progress.decided ≡ true)
            × ((step null e t).local_permissions ≡ t.local_permissions))
        × (t.progress.peer_decided ≡ true
            → ((step null e t).progress.peer_decided ≡ true)
              × ((step null e t).remote_permissions ≡ t.remote_permissions))
  unfolding step mark_hello_sent mark_hello_received mark_local_decision mark_remote_decision
      mark_local_prepared mark_remote_prepared mark_local_committed mark_remote_committed
      mark_completed mark_failed mark_progress update_state
  decision_final (begins i g) t r = cc
  decision_final _ t r = ground arith
