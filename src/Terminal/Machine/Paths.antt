-- ===== src/Terminal/Machine/Paths.antt =====
-- Which ways a terminal can go (src/core/terminal/terminalstatemachine.cpp).
use win_remote_control.Prelude.{
  ◌≡◌, ◌⊎◌, Bool, true, false, ◌||◌, List, [], ◌∷◌, arith, if◌then◌else◌,
}
use win_remote_control.Terminal.Machine.{
  state_eq, transition_to, TerminalState, closed, awaiting_approval, opening, running, paused,
}

-- The requests of the owner, in order; a refused one is passed over.
unfoldable pub run : List TerminalState → TerminalState → TerminalState
run [] s = s
run (next ∷ rest) s = run rest (transition_to next s).0

-- A terminal that runs or is paused.
abbrev pub is_up : TerminalState → Bool
is_up running = true
is_up paused = true
is_up _ = false

abbrev pub requests : TerminalState → List TerminalState → Bool
requests s [] = false
requests s (t ∷ ts) = state_eq t s || requests s ts

run_up :
    (ts : List TerminalState) (s : TerminalState)
    → is_up s ≡ false
    → is_up (run ts s) ≡ true
    → (s ≡ opening) ⊎ (requests opening ts ≡ true)
unfolding run transition_to
run_up [] s h u = cc
run_up (t ∷ ts) s h u = ground (arith, run_up ts (transition_to t s).0)

-- A terminal that was closed runs or is paused only after its opening was requested.
up_needs_opening :
    (ts : List TerminalState) → is_up (run ts closed) ≡ true → requests opening ts ≡ true
up_needs_opening ts u = ground (arith, run_up ts closed)

-- From every state, one accepted request closes the terminal; a closed one accepts staying closed,
-- opening and asking for approval and nothing else, so it cannot fail; and a refused request changes
-- nothing, while an accepted one leads to the state that it names.
closing_always_possible :
    (s t : TerminalState)
    → (transition_to closed s ≡ (closed, true))
      × ((transition_to t closed).1
          ≡ (state_eq t closed || (state_eq t opening || state_eq t awaiting_approval)))
      × ((transition_to t s).0 ≡ (if (transition_to t s).1 then t else s))
unfolding transition_to
closing_always_possible s t = ground arith
