-- ===== src/Session/Capability/Tests.antt =====
-- Two peers (capabilitynegotiator.cpp), one of which has more channels and a smaller screen.
use win_remote_control.Prelude.{◌≡◌, refl, true, false, none, [], ◌∷◌}
use win_remote_control.Session.Capability.{
  SessionCapabilities, agreed, common, lacking, negotiate, no_capabilities,
}
use win_remote_control.Session.Capability.Symmetry.{SameResult, negotiate_agrees}
use win_remote_control.Session.Capability.Agreed.{Serves, negotiate-Serves}
use win_remote_control.Session.Capability.Flow.{
  CapabilitySessionFlow, begin, default_capabilities, first_match, receive_all, receive_all-begin,
  waiting_or_complete,
}

abbrev viewer : SessionCapabilities
viewer = record default_capabilities {
  supported_codecs = "h264" ∷ [];
  supported_channels = "video" ∷ ("session" ∷ ("input" ∷ ("clipboard" ∷ ("input-realtime" ∷ []))));
  input_realtime = true;
}

abbrev host : SessionCapabilities
host = record default_capabilities {
  supported_codecs = "h265" ∷ ("h264" ∷ []);
  supported_channels = "input" ∷ ("session" ∷ ("video" ∷ ("input-realtime" ∷ [])));
  maximum_width = 1280;
  input_realtime = true;
}

negotiate_agrees_example : SameResult (negotiate viewer host) (negotiate host viewer)
negotiate_agrees_example = negotiate_agrees viewer host

negotiate-Serves_example : Serves viewer host (negotiate viewer host).capabilities
unfolding negotiate agreed lacking common
negotiate-Serves_example = negotiate-Serves viewer host refl

abbrev waiting : CapabilitySessionFlow
waiting = record { timer = none; local = viewer; negotiated = no_capabilities; is_complete = false }

receive_all-waits :
    receive_all (default_capabilities ∷ (host ∷ [])) (begin viewer 0 waiting)
    ≡ waiting_or_complete
        (begin viewer 0 waiting)
        (first_match viewer (default_capabilities ∷ (host ∷ [])))
receive_all-waits = receive_all-begin viewer 0 waiting (default_capabilities ∷ (host ∷ []))
