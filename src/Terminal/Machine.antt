-- ===== src/Terminal/Machine.antt =====
-- KTerminalStateMachine (src/core/terminal/terminalstatemachine.cpp, terminalstate.h).
pub mod Paths
mod Tests
use win_remote_control.Prelude.{
  Outcome, ok, err, passed, ℕ, zero, suc, ◌+◌, ◌-◌, ◌*◌, ◌/◌, ◌%◌, ◌^◌, ◌≤◌, ◌<◌, min, max, ◌≡◌,
  refl, sym, ap, subst, ◌∙◌, ◌≢◌, ◌↔◌, ◌⊎◌, inl, inr, Bool, true, false, not, ◌&&◌, ◌||◌, Option,
  none, some, List, [], ◌∷◌, ◌++◌, map, Memᴰ, append-nil, append_assoc, arith, String, str_eq,
  str_eq_iff, ltb, leb, ◌==◌, if◌then◌else◌, ltb→lt, lt→ltb, leb→le, ==_iff, tests, Bool-cases,
  Option-cases, length, take, drop, length-append, length-drop, take-append_length,
  drop-append_length, List-cases, take_all, length-take, byte_at, write_le, write_be, read_le,
  read_be, byte_at-append, take-append, drop-append, byte_at-skip, drop-skip, take-skip,
}

pub data TerminalState : Type 0 where
  closed awaiting_approval opening running paused closing failed : TerminalState

-- The numbers that the enumeration has in C++.
abbrev pub state_code : TerminalState → ℕ
state_code closed = 0
state_code awaiting_approval = 1
state_code opening = 2
state_code running = 3
state_code paused = 4
state_code closing = 5
state_code failed = 6

abbrev pub state_eq : TerminalState → TerminalState → Bool
state_eq s t = state_code s == state_code t

-- The switch of canTransitionTo, on the state and the next one.
unfoldable pub switch_allows : TerminalState → TerminalState → Bool
switch_allows closed next = state_eq next opening || state_eq next awaiting_approval
switch_allows awaiting_approval next =
    state_eq next opening || (state_eq next closing || state_eq next closed)
switch_allows opening next =
    state_eq next awaiting_approval
    || (state_eq next running || (state_eq next closing || state_eq next closed))
switch_allows running next = state_eq next paused || (state_eq next closing || state_eq next closed)
switch_allows paused next = state_eq next running || (state_eq next closing || state_eq next closed)
switch_allows failed next = state_eq next closing || state_eq next closed
switch_allows closing next = state_eq next closed

unfoldable pub can_transition_to : TerminalState → TerminalState → Bool
unfolding switch_allows
can_transition_to next state =
    if state_eq next state
    then true
    else if state_eq next failed
    then not (state_eq state closed)
    else switch_allows state next

-- The object is its state.
unfoldable pub transition_to : TerminalState → TerminalState → TerminalState × Bool
unfolding can_transition_to
transition_to next state =
    if not (can_transition_to next state) then (state, false) else (next, true)

unfoldable pub reset : TerminalState → TerminalState
reset state = closed
