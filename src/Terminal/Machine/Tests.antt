-- ===== src/Terminal/Machine/Tests.antt =====
-- A terminal that asks for approval, opens, runs and pauses (terminalstatemachine.cpp).
use win_remote_control.Prelude.{◌≡◌, refl, List, [], ◌∷◌}
use win_remote_control.Terminal.Machine.{
  TerminalState, awaiting_approval, can_transition_to, closed, opening, paused, running,
  switch_allows, transition_to,
}
use win_remote_control.Terminal.Machine.Paths.{run}

abbrev wishes : List TerminalState
wishes = running ∷ (awaiting_approval ∷ (opening ∷ (running ∷ (paused ∷ []))))

-- The refused wish to run is passed over.
wishes-run : run wishes closed ≡ paused
unfolding run transition_to can_transition_to switch_allows
wishes-run = refl
