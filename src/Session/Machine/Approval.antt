-- ===== src/Session/Machine/Approval.antt =====
-- What has to happen before a session carries pictures and input (sessionstatemachine.cpp).
use win_remote_control.Prelude.{
  Bool, true, false, List, [], ◌∷◌, ◌≡◌, ◌⊎◌, inl, inr, refl, arith, Memᴰ,
}
use win_remote_control.Session.Machine.{
  SessionStateMachine, SessionState, connecting, authenticating_identity, pairing,
  awaiting_approval, negotiating, connected, streaming, reconnecting, initial, begin_reconnecting,
  restore,
}
use win_remote_control.Session.Machine.Run.{Event, role_set, approve, reconnect, step, run}

-- The states past approval.
abbrev pub is_admitted : SessionState → Bool
is_admitted negotiating = true
is_admitted connected = true
is_admitted streaming = true
is_admitted reconnecting = true
is_admitted _ = false

step_admits :
    (e : Event) (m : SessionStateMachine)
    → is_admitted m.state ≡ false
    → (is_admitted (step e m).0.state ≡ false) ⊎ ((approve ≡ e) ⊎ (reconnect ≡ e))
unfolding step
step_admits (role_set r) m h = ground arith
step_admits _ m h = ground arith

run_admits :
    (es : List Event) (m : SessionStateMachine)
    → is_admitted m.state ≡ false
    → is_admitted (run es m).state ≡ true
    → Memᴰ approve es ⊎ Memᴰ reconnect es
unfolding run
run_admits [] m h a = ground arith
run_admits (e ∷ es) m h a = elim (step_admits e m h) [
  | inl still ↦ elim (run_admits es (step e m).0 still a) [
    | inl x ↦ inl (Memᴰ.tail x)
    | inr x ↦ inr (Memᴰ.tail x)
  ]
  | inr (inl p) ↦ inl (Memᴰ.head p)
  | inr (inr p) ↦ inr (Memᴰ.head p)
]

-- From a new machine, a run that ends in a state past approval (negotiating, connected, streaming
-- or reconnecting) holds an approval or an interruption of the peer connection.
pub admitted_needs_approval :
    (es : List Event)
    → is_admitted (run es initial).state ≡ true
    → Memᴰ approve es ⊎ Memᴰ reconnect es
admitted_needs_approval es h = run_admits es initial refl h

-- The states in which the connection has not been approved yet.
pub data IsUnapproved : SessionState → Type 0 where
  calling : IsUnapproved connecting
  identifying : IsUnapproved authenticating_identity
  comparing : IsUnapproved pairing
  asking : IsUnapproved awaiting_approval

unapproved_restore :
    (m : SessionStateMachine) (s : SessionState)
    → IsUnapproved s
    → m.state ≡ s
    → (restore (begin_reconnecting m).0).0.state ≡ connected
unfolding restore begin_reconnecting
unapproved_restore m _ calling h = ground arith
unapproved_restore m _ identifying h = ground arith
unapproved_restore m _ comparing h = ground arith
unapproved_restore m _ asking h = ground arith

-- The machine alone does not ask for the approval: an interruption before it, followed by a
-- recovery, leaves the machine connected.
pub restore_skips_approval :
    (m : SessionStateMachine)
    → IsUnapproved m.state
    → (restore (begin_reconnecting m).0).0.state ≡ connected
restore_skips_approval m u = unapproved_restore m m.state u refl
