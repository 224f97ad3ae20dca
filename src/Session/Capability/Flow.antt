-- ===== src/Session/Capability/Flow.antt =====
-- KCapabilitySessionFlow (src/session/capabilitysessionflow.cpp): one negotiation for each session,
-- with a time limit. The timer is Qt's: the model keeps the time that it was started with.
use win_remote_control.Prelude.{
  ℕ, max, ◌≡◌, refl, ap, ◌∙◌, inl, inr, Bool, true, false, Option, none, some, List, [], ◌∷◌, arith,
  if◌then◌else◌, Bool-cases,
}
use win_remote_control.Session.Capability.{
  SessionCapabilities, NegotiatedCapabilities, CapabilityNegotiationResult, negotiate,
  has_succeeded, refused, no_capabilities, missing_channel,
}

pub record CapabilitySessionFlow : Type 0 where
  pub timer : Option ℕ
  pub local : SessionCapabilities
  pub negotiated : NegotiatedCapabilities
  pub is_complete : Bool

-- KSessionCapabilities() with the versions of protocolconstraints.h.
abbrev pub default_capabilities : SessionCapabilities
default_capabilities = record {
  protocol_min_version = 2;
  protocol_max_version = 2;
  supported_codecs = [];
  supported_channels = [];
  maximum_width = 1920;
  maximum_height = 1080;
  maximum_fps = 60;
  maximum_bitrate_kbps = 20000;
  clipboard_text = true;
  input_realtime = false;
  ordered_mouse_drag = false;
  cursor_shape_v1 = false;
  keyboard = true;
  unicode_text = true;
  mouse_buttons = true;
  mouse_wheel = true;
  supported_privacy_modes = [];
  post_session_lock = false;
}

abbrev pub reset : CapabilitySessionFlow → CapabilitySessionFlow
reset f = record {
  timer = none;
  local = default_capabilities;
  negotiated = no_capabilities;
  is_complete = false;
}

abbrev pub begin : SessionCapabilities → ℕ → CapabilitySessionFlow → CapabilitySessionFlow
begin local timeout f = let f = reset f in record f { local = local; timer = some (max 1 timeout) }

unfoldable pub receive :
    SessionCapabilities
    → CapabilitySessionFlow
    → CapabilitySessionFlow × CapabilityNegotiationResult
receive remote f =
    if f.is_complete
    then (f, refused missing_channel "")
    else let result = negotiate f.local remote in
      if has_succeeded result
      then (record f { timer = none; negotiated = result.capabilities; is_complete = true }, result)
      else (f, result)

-- The messages of the peer, in order.
abbrev pub receive_all : List SessionCapabilities → CapabilitySessionFlow → CapabilitySessionFlow
receive_all [] f = f
receive_all (remote ∷ remotes) f = receive_all remotes (receive remote f).0

-- The first of the peer's messages with which the negotiation succeeds.
abbrev pub first_match : SessionCapabilities → List SessionCapabilities → Option SessionCapabilities
first_match local [] = none
first_match local (remote ∷ remotes) =
    if has_succeeded (negotiate local remote) then some remote else first_match local remotes

receive_complete :
    (remote : SessionCapabilities) (f : CapabilitySessionFlow)
    → f.is_complete ≡ true
    → (receive remote f).0 ≡ f
unfolding receive
receive_complete remote f done = ground arith

receive_all_complete :
    (remotes : List SessionCapabilities) (f : CapabilitySessionFlow)
    → f.is_complete ≡ true
    → receive_all remotes f ≡ f
receive_all_complete [] f done = refl
receive_all_complete (remote ∷ remotes) f done =
    ap (receive_all remotes) (receive_complete remote f done) ∙ receive_all_complete remotes f done

-- What a flow has become: still waiting under its timer, or complete with the timer stopped.
abbrev pub waiting_or_complete :
    CapabilitySessionFlow → Option SessionCapabilities → CapabilitySessionFlow
waiting_or_complete f none = f
waiting_or_complete f (some remote) = record f {
  timer = none;
  negotiated = (negotiate f.local remote).capabilities;
  is_complete = true;
}

-- A flow that begins and receives the peer's messages negotiates once, with the first message that
-- it can agree with: later ones change nothing, earlier ones leave it waiting under its timer.
pub receive_all-begin :
    (local : SessionCapabilities) (timeout : ℕ) (f : CapabilitySessionFlow)
    (remotes : List SessionCapabilities)
    → receive_all remotes (begin local timeout f)
      ≡ waiting_or_complete (begin local timeout f) (first_match local remotes)
unfolding receive
receive_all-begin local timeout f [] = refl
receive_all-begin local timeout f (remote ∷ remotes) =
    elim (Bool-cases (has_succeeded (negotiate local remote))) [
      | inl e ↦ rw e (receive_all_complete remotes _ refl)
      | inr e ↦ rw e (receive_all-begin local timeout f remotes)
    ]
