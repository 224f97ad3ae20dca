-- ===== src/Session/Capability/Symmetry.antt =====
-- Both peers negotiate for themselves (capabilitynegotiator.cpp), and come to the same result.
use win_remote_control.Prelude.{
  min, max, ◌≡◌, refl, sym, ap, inl, inr, Bool, not, ◌&&◌, ◌||◌, List, [], ◌∷◌, arith, String,
  str_eq, str_eq_iff, ltb, Bool-cases, Option-cases,
}
use win_remote_control.Session.Capability.{
  CapabilityNegotiationResult, CapabilityNegotiationStatus, incompatible_version, missing_codec,
  missing_channel, no_capabilities, refused, required_channels, negotiate, is_privacy_mode, agreed,
  common, common_modes, contains, lacking, SessionCapabilities, NegotiatedCapabilities,
}

pub contains-common :
    (xs ys : List String) (s : String)
    → contains (common xs ys) s ≡ (contains xs s && contains ys s)
unfolding common
contains-common [] ys s = refl
contains-common (x ∷ xs) ys s = ground (arith, contains-common xs ys s, str_eq_iff x s)

pub contains-common_modes :
    (xs ys : List String) (s : String)
    → contains (common_modes xs ys) s ≡ (is_privacy_mode s && (contains xs s && contains ys s))
unfolding common_modes
contains-common_modes [] ys s = ground arith
contains-common_modes (x ∷ xs) ys s = elim (Bool-cases (str_eq x s)) [
  | inl same ↦
      let p : x ≡ s = (str_eq_iff x s).0 same in
      let kept : is_privacy_mode x ≡ is_privacy_mode s = ap is_privacy_mode p in
      let found : contains ys x ≡ contains ys s = ap (contains ys) p in
      ground (arith, contains-common_modes xs ys s)
  | inr other ↦ ground (arith, contains-common_modes xs ys s)
]

lacking_comm : (cs : List String) (a b : SessionCapabilities) → lacking cs a b ≡ lacking cs b a
unfolding lacking
lacking_comm [] a b = refl
lacking_comm (c ∷ cs) a b = ground (arith, lacking_comm cs a b)

-- The same channels and privacy modes, perhaps in another order, and the same of all else.
pub record Agrees (v w : NegotiatedCapabilities) : Type 0 where
  pub valid : v.valid ≡ w.valid
  pub protocol_version : v.protocol_version ≡ w.protocol_version
  pub video_codec : v.video_codec ≡ w.video_codec
  pub channels : (s : String) → contains v.channels s ≡ contains w.channels s
  pub width_limit : v.width_limit ≡ w.width_limit
  pub height_limit : v.height_limit ≡ w.height_limit
  pub fps_limit : v.fps_limit ≡ w.fps_limit
  pub bitrate_limit : v.bitrate_limit ≡ w.bitrate_limit
  pub clipboard : v.clipboard ≡ w.clipboard
  pub realtime : v.realtime ≡ w.realtime
  pub mouse_drag : v.mouse_drag ≡ w.mouse_drag
  pub cursor_shape : v.cursor_shape ≡ w.cursor_shape
  pub keys : v.keys ≡ w.keys
  pub text : v.text ≡ w.text
  pub buttons : v.buttons ≡ w.buttons
  pub wheel : v.wheel ≡ w.wheel
  pub file_transfer : v.file_transfer ≡ w.file_transfer
  pub privacy_modes : (s : String) → contains v.privacy_modes s ≡ contains w.privacy_modes s
  pub lock : v.lock ≡ w.lock

&&_comm : (x y : Bool) → (x && y) ≡ (y && x)
&&_comm x y = ground arith

agreed-Agrees : (a b : SessionCapabilities) → Agrees (agreed a b) (agreed b a)
unfolding agreed
agreed-Agrees a b =
    let there : (s : String)
        → contains (common a.supported_channels b.supported_channels) s
          ≡ contains (common b.supported_channels a.supported_channels) s =
      λ s. ground (
        arith,
        contains-common a.supported_channels b.supported_channels s,
        contains-common b.supported_channels a.supported_channels s,
      ) in
    record {
      valid = refl;
      protocol_version = omega arith;
      video_codec = refl;
      channels = there;
      width_limit = omega arith;
      height_limit = omega arith;
      fps_limit = omega arith;
      bitrate_limit = omega arith;
      clipboard = ground (arith, there "clipboard");
      realtime = ground (arith, there "input-realtime");
      mouse_drag = ground (arith, there "input-realtime");
      cursor_shape = &&_comm a.cursor_shape_v1 b.cursor_shape_v1;
      keys = &&_comm a.keyboard b.keyboard;
      text = &&_comm a.unicode_text b.unicode_text;
      buttons = &&_comm a.mouse_buttons b.mouse_buttons;
      wheel = &&_comm a.mouse_wheel b.mouse_wheel;
      file_transfer = ground (arith, there "file-control", there "file-data");
      privacy_modes = λ s. ground (
        arith,
        contains-common_modes a.supported_privacy_modes b.supported_privacy_modes s,
        contains-common_modes b.supported_privacy_modes a.supported_privacy_modes s,
        contains-common_modes a.supported_privacy_modes b.supported_privacy_modes "disabled",
        contains-common_modes b.supported_privacy_modes a.supported_privacy_modes "disabled",
      );
      lock = &&_comm a.post_session_lock b.post_session_lock;
    }

refl-Agrees : Agrees no_capabilities no_capabilities
refl-Agrees = record {
  valid = refl;
  protocol_version = refl;
  video_codec = refl;
  channels = λ s. refl;
  width_limit = refl;
  height_limit = refl;
  fps_limit = refl;
  bitrate_limit = refl;
  clipboard = refl;
  realtime = refl;
  mouse_drag = refl;
  cursor_shape = refl;
  keys = refl;
  text = refl;
  buttons = refl;
  wheel = refl;
  file_transfer = refl;
  privacy_modes = λ s. refl;
  lock = refl;
}

-- Two results with the same answer.
pub record SameResult (r s : CapabilityNegotiationResult) : Type 0 where
  pub status : r.status ≡ s.status
  pub named_channel : r.named_channel ≡ s.named_channel
  pub capabilities : Agrees r.capabilities s.capabilities

same_refusal :
    (status : CapabilityNegotiationStatus) (channel : String)
    → SameResult (refused status channel) (refused status channel)
same_refusal status channel = record {
  status = refl;
  named_channel = refl;
  capabilities = refl-Agrees;
}

-- Two peers that negotiate with each other's capabilities get the same status and name the same
-- missing channel, and what they agree on is the same: the version, the codec, every limit and every
-- feature, and the same channels and privacy modes up to their order.
pub negotiate_agrees : (a b : SessionCapabilities) → SameResult (negotiate a b) (negotiate b a)
unfolding negotiate
negotiate_agrees a b =
    let versions : ltb (min a.protocol_max_version b.protocol_max_version)
          (max a.protocol_min_version b.protocol_min_version)
        ≡ ltb (min b.protocol_max_version a.protocol_max_version)
            (max b.protocol_min_version a.protocol_min_version) =
      ground arith in
    let codecs : (not (contains a.supported_codecs "h264")
          || not (contains b.supported_codecs "h264"))
        ≡ (not (contains b.supported_codecs "h264") || not (contains a.supported_codecs "h264")) =
      ground arith in
    elim (Bool-cases (
      ltb (min a.protocol_max_version b.protocol_max_version)
        (max a.protocol_min_version b.protocol_min_version))) [
          | inl e ↦ rw (sym versions, e) (same_refusal incompatible_version "")
          | inr e ↦
              rw (sym versions, e)
                (elim (Bool-cases (
                  not (contains a.supported_codecs "h264")
                  || not (contains b.supported_codecs "h264"))) [
                    | inl f ↦ rw (sym codecs, f) (same_refusal missing_codec "")
                    | inr f ↦
                        rw (sym codecs, f)
                          (elim (Option-cases (lacking required_channels a b)) [
                            | inl none_lacks ↦
                                rw (lacking_comm required_channels b a, none_lacks)
                                  record {
                                    status = refl;
                                    named_channel = refl;
                                    capabilities = agreed-Agrees a b;
                                  }
                            | inr (channel, lacks) ↦
                                rw (lacking_comm required_channels b a, lacks)
                                  (same_refusal missing_channel channel)
                          ])
                  ])
        ]
