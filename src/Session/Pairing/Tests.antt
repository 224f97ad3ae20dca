-- ===== src/Session/Pairing/Tests.antt =====
-- Two devices that pair (pairingtransaction.cpp).
use win_remote_control.Prelude.{◌≡◌, refl, Bool, true, false, List, [], ◌∷◌, String}
use win_remote_control.Session.Pairing.{
  PairingTransaction, Progress, completed, exchanging_hello, failed, fresh, mark_completed,
  mark_failed, mark_hello_received, mark_hello_sent, mark_local_committed, mark_local_decision,
  mark_local_prepared, mark_progress, mark_remote_committed, mark_remote_decision,
  mark_remote_prepared, update_state,
}
use win_remote_control.Session.Pairing.Phases.{
  Event, IsOrdered, begins, commits, completes, decides, decision_final, peer_commits, peer_decides,
  peer_prepares, prepares, receives_hello, run, run-IsOrdered, sends_hello, step,
}
use win_remote_control.Session.Pairing.Agreement.{
  Pair, Reach, acts_here, acts_there, completed_agrees, next, start,
}
use win_remote_control.Session.Pairing.Failure.{end_state}
use win_remote_control.Security.Permissions.{PermissionScopes, no_permissions}

abbrev never_null : String → Bool
never_null s = false

abbrev opened : PairingTransaction
opened = record fresh { request_id = "r"; generation = 1; state = exchanging_hello }

abbrev screen : PermissionScopes
screen = record no_permissions { view_screen = true }

-- One device's calls, with what it hears from the other.
abbrev whole_pairing : List Event
whole_pairing =
    sends_hello
    ∷ (receives_hello
        ∷ (decides screen
            ∷ (peer_decides no_permissions
                ∷ (prepares ∷ (peer_prepares ∷ (commits ∷ (peer_commits ∷ (completes ∷ []))))))))

run-IsOrdered_example : IsOrdered (run never_null (begins "r" 1 ∷ whole_pairing) fresh)
run-IsOrdered_example = run-IsOrdered never_null (begins "r" 1 ∷ whole_pairing)

screen_stays :
    (opened.progress.decided ≡ true
      → ((step never_null (decides screen) opened).progress.decided ≡ true)
        × ((step never_null (decides screen) opened).local_permissions ≡ opened.local_permissions))
    × (opened.progress.peer_decided ≡ true
        → ((step never_null (decides screen) opened).progress.peer_decided ≡ true)
          × ((step never_null (decides screen) opened).remote_permissions
              ≡ opened.remote_permissions))
screen_stays = decision_final never_null (decides screen) opened refl

abbrev all_done : Progress
all_done = record {
  sent = true;
  received = true;
  decided = true;
  peer_decided = true;
  prepared = true;
  peer_prepared = true;
  committed = true;
  peer_committed = true;
}

abbrev broken : PairingTransaction
broken = record opened { progress = all_done; state = failed }

broken_completes : end_state true broken ≡ completed
broken_completes = refl

abbrev at_start : Pair
at_start = record { here = opened; there = record opened { generation = 2 } }

-- The calls of the two sides in turn, true for the first side.
abbrev act : Bool → Event → Pair → Pair
act true e s = record s { here = step never_null e s.here }
act false e s = record s { there = step never_null e s.there }

abbrev pair_1 : Pair
pair_1 = act true sends_hello at_start

abbrev pair_2 : Pair
pair_2 = act false receives_hello pair_1

abbrev pair_3 : Pair
pair_3 = act false sends_hello pair_2

abbrev pair_4 : Pair
pair_4 = act true receives_hello pair_3

abbrev pair_5 : Pair
pair_5 = act true (decides screen) pair_4

abbrev pair_6 : Pair
pair_6 = act false (peer_decides screen) pair_5

abbrev pair_7 : Pair
pair_7 = act false (decides no_permissions) pair_6

abbrev pair_8 : Pair
pair_8 = act true (peer_decides no_permissions) pair_7

abbrev pair_9 : Pair
pair_9 = act true prepares pair_8

abbrev pair_10 : Pair
pair_10 = act false peer_prepares pair_9

abbrev pair_11 : Pair
pair_11 = act false prepares pair_10

abbrev pair_12 : Pair
pair_12 = act true peer_prepares pair_11

abbrev pair_13 : Pair
pair_13 = act true commits pair_12

abbrev pair_14 : Pair
pair_14 = act false peer_commits pair_13

abbrev pair_15 : Pair
pair_15 = act false commits pair_14

abbrev pair_16 : Pair
pair_16 = act true peer_commits pair_15

abbrev pair_17 : Pair
pair_17 = act true completes pair_16

paired : Reach never_null at_start pair_17
unfolding step mark_hello_sent mark_hello_received mark_local_decision mark_remote_decision
    mark_local_prepared mark_remote_prepared mark_local_committed mark_remote_committed
    mark_completed mark_failed mark_progress update_state
paired =
    next
      (next
        (next
          (next
            (next
              (next
                (next
                  (next
                    (next
                      (next
                        (next
                          (next
                            (next
                              (next
                                (next
                                  (next (next start (acts_here sends_hello at_start tt))
                                    (acts_there receives_hello pair_1 refl))
                                  (acts_there sends_hello pair_2 tt))
                                (acts_here receives_hello pair_3 refl))
                              (acts_here (decides screen) pair_4 tt))
                            (acts_there (peer_decides screen) pair_5 (refl, refl)))
                          (acts_there (decides no_permissions) pair_6 tt))
                        (acts_here (peer_decides no_permissions) pair_7 (refl, refl)))
                      (acts_here prepares pair_8 tt))
                    (acts_there peer_prepares pair_9 refl))
                  (acts_there prepares pair_10 tt))
                (acts_here peer_prepares pair_11 refl))
              (acts_here commits pair_12 tt))
            (acts_there peer_commits pair_13 refl))
          (acts_there commits pair_14 tt))
        (acts_here peer_commits pair_15 refl))
      (acts_here completes pair_16 tt)

completed_agrees_example :
    (pair_17.there.progress.committed ≡ true)
    × (pair_17.there.progress.prepared ≡ true)
    × (pair_17.here.remote_permissions ≡ pair_17.there.local_permissions)
    × (pair_17.there.remote_permissions ≡ pair_17.here.local_permissions)
unfolding step mark_hello_sent mark_hello_received mark_local_decision mark_remote_decision
    mark_local_prepared mark_remote_prepared mark_local_committed mark_remote_committed
    mark_completed mark_failed mark_progress update_state
completed_agrees_example =
    completed_agrees never_null at_start pair_17
      (record { new_here = refl; new_there = refl; open_here = refl; open_there = refl }) paired
      refl
