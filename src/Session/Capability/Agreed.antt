-- ===== src/Session/Capability/Agreed.antt =====
-- What a successful negotiation (capabilitynegotiator.cpp) promises to each side.
use win_remote_control.Prelude.{
  ℕ, ◌≤◌, min, max, ◌≡◌, refl, sym, ap, subst, ◌∙◌, inl, inr, Bool, true, false, not, ◌&&◌, ◌||◌,
  none, List, [], ◌∷◌, arith, String, str_eq, str_eq_iff, ltb, Bool-cases, Option-cases,
}
use win_remote_control.Session.Capability.{
  NegotiatedCapabilities, SessionCapabilities, agreed, common_modes, contains, has_succeeded,
  is_privacy_mode, lacking, negotiate, required_channels, with_disabled,
}
use win_remote_control.Session.Capability.Symmetry.{contains-common, contains-common_modes}

lacking-none :
    (cs : List String) (a b : SessionCapabilities)
    → lacking cs a b ≡ none
    → (c : String) → contains cs c ≡ true
    → (contains a.supported_channels c ≡ true) × (contains b.supported_channels c ≡ true)
unfolding lacking
lacking-none [] a b e c m = ground arith
lacking-none (x ∷ xs) a b e c m = elim (Bool-cases (str_eq x c)) [
  | inl same ↦ rw (sym ((str_eq_iff x c).0 same)) (ground arith)
  | inr other ↦ lacking-none xs a b (ground arith) c (ground arith)
]

-- A limit that both maxima allow, and no smaller than any other such limit.
abbrev pub IsLargestWithin : ℕ → ℕ → ℕ → Type 0
IsLargestWithin m n limit =
    (limit ≤ m) × (limit ≤ n) × ((other : ℕ) → other ≤ m → other ≤ n → other ≤ limit)

-- A feature that is agreed on is one of both sides.
abbrev pub IsShared : Bool → Bool → Bool → Type 0
IsShared x y v = v ≡ true → (x ≡ true) × (y ≡ true)

and-IsShared : (x y : Bool) → IsShared x y (x && y)
and-IsShared true y e = (refl, e)
and-IsShared false y e = cc

and-IsShared_left : (x y z : Bool) → IsShared x y (x && (y && z))
and-IsShared_left true true z e = (refl, refl)
and-IsShared_left true false z e = cc
and-IsShared_left false y z e = cc

min-IsLargestWithin : (m n : ℕ) → IsLargestWithin m n (min m n)
min-IsLargestWithin m n = (omega arith, omega arith, λ other h k. omega (arith, h, k))

-- What holds of the result of a negotiation that succeeded.
pub record Serves (a b : SessionCapabilities) (v : NegotiatedCapabilities) : Type 0 where
  pub version :
      (max a.protocol_min_version b.protocol_min_version ≤ v.protocol_version)
      × ((v.protocol_version ≤ a.protocol_max_version)
          × (v.protocol_version ≤ b.protocol_max_version))
  pub channels :
      (s : String)
      → contains v.channels s ≡ (contains a.supported_channels s && contains b.supported_channels s)
  pub required : (s : String) → contains required_channels s ≡ true → contains v.channels s ≡ true
  pub codec :
      (contains a.supported_codecs v.video_codec ≡ true)
      × (contains b.supported_codecs v.video_codec ≡ true)
  pub width : IsLargestWithin a.maximum_width b.maximum_width v.width_limit
  pub height : IsLargestWithin a.maximum_height b.maximum_height v.height_limit
  pub rate : IsLargestWithin a.maximum_fps b.maximum_fps v.fps_limit
  pub bitrate : IsLargestWithin a.maximum_bitrate_kbps b.maximum_bitrate_kbps v.bitrate_limit
  pub privacy :
      (s : String)
      → contains v.privacy_modes s ≡ (
          str_eq "disabled" s
          || (is_privacy_mode s
              && (contains a.supported_privacy_modes s && contains b.supported_privacy_modes s)))
  pub clipboard : IsShared a.clipboard_text b.clipboard_text v.clipboard
  pub realtime : IsShared a.input_realtime b.input_realtime v.realtime
  pub cursor_shape : IsShared a.cursor_shape_v1 b.cursor_shape_v1 v.cursor_shape
  pub keys : IsShared a.keyboard b.keyboard v.keys
  pub text : IsShared a.unicode_text b.unicode_text v.text
  pub buttons : IsShared a.mouse_buttons b.mouse_buttons v.buttons
  pub wheel : IsShared a.mouse_wheel b.mouse_wheel v.wheel
  pub lock : IsShared a.post_session_lock b.post_session_lock v.lock
  pub shared_drag : IsShared a.ordered_mouse_drag b.ordered_mouse_drag v.mouse_drag
  pub drag : v.mouse_drag ≡ true → v.realtime ≡ true

contains-with_disabled :
    (modes : List String) (s : String)
    → contains (with_disabled modes) s ≡ (str_eq "disabled" s || contains modes s)
contains-with_disabled modes s = elim (Bool-cases (contains modes "disabled")) [
  | inl there ↦ elim (Bool-cases (str_eq "disabled" s)) [
    | inl same ↦
        let p : contains modes s ≡ true =
          subst (λ t. contains modes t ≡ true) ((str_eq_iff "disabled" s).0 same) there in
        ground arith
    | inr other ↦ ground arith
  ]
  | inr missing ↦ ground arith
]

agreed-Serves :
    (a b : SessionCapabilities)
    → max a.protocol_min_version b.protocol_min_version
      ≤ min a.protocol_max_version b.protocol_max_version
    → (contains a.supported_codecs "h264" ≡ true) × (contains b.supported_codecs "h264" ≡ true)
    → lacking required_channels a b ≡ none
    → Serves a b (agreed a b)
unfolding agreed
agreed-Serves a b fits codec complete = record {
  version = (fits, (omega arith, omega arith));
  channels = contains-common a.supported_channels b.supported_channels;
  required = λ s m.
      let both = lacking-none required_channels a b complete s m in
      ground (arith, both, contains-common a.supported_channels b.supported_channels s);
  codec = codec;
  width = min-IsLargestWithin a.maximum_width b.maximum_width;
  height = min-IsLargestWithin a.maximum_height b.maximum_height;
  rate = min-IsLargestWithin a.maximum_fps b.maximum_fps;
  bitrate = min-IsLargestWithin a.maximum_bitrate_kbps b.maximum_bitrate_kbps;
  privacy = λ s.
      contains-with_disabled (common_modes a.supported_privacy_modes b.supported_privacy_modes) s
      ∙ ap (λ t. str_eq "disabled" s || t)
          (contains-common_modes a.supported_privacy_modes b.supported_privacy_modes s);
  clipboard = and-IsShared_left a.clipboard_text b.clipboard_text _;
  realtime = and-IsShared_left a.input_realtime b.input_realtime _;
  cursor_shape = and-IsShared a.cursor_shape_v1 b.cursor_shape_v1;
  keys = and-IsShared a.keyboard b.keyboard;
  text = and-IsShared a.unicode_text b.unicode_text;
  buttons = and-IsShared a.mouse_buttons b.mouse_buttons;
  wheel = and-IsShared a.mouse_wheel b.mouse_wheel;
  lock = and-IsShared a.post_session_lock b.post_session_lock;
  shared_drag = λ e. ground arith;
  drag = λ e. ground arith;
}

-- When a negotiation succeeds, its version lies in both ranges, both sides support its codec, its
-- channels are those that both sides support, the required ones among them, its width, height, frame
-- rate and bit rate are each the largest within both sides' maxima, and its privacy modes are
-- "disabled" and the known ones that both sides support. Clipboard, realtime input, ordered mouse
-- drag, cursor shape, keyboard, Unicode text, mouse buttons, wheel and the lock at the end are agreed
-- on only if both sides have them, and the ordered mouse drag only with the realtime input.
pub negotiate-Serves :
    (a b : SessionCapabilities)
    → has_succeeded (negotiate a b) ≡ true
    → Serves a b (negotiate a b).capabilities
unfolding negotiate
negotiate-Serves a b =
    elim (Bool-cases (
      ltb (min a.protocol_max_version b.protocol_max_version)
        (max a.protocol_min_version b.protocol_min_version))) [
          | inl e ↦ rw e (λ h. ground (h, arith))
          | inr e ↦
              rw e
                (elim (Bool-cases (
                  not (contains a.supported_codecs "h264")
                  || not (contains b.supported_codecs "h264"))) [
                    | inl f ↦ rw f (λ h. ground (h, arith))
                    | inr f ↦ rw f (elim (Option-cases (lacking required_channels a b)) [
                      | inl complete ↦
                          rw complete
                            (λ h. agreed-Serves a b (ground arith) (ground arith) complete)
                      | inr (channel, lacks) ↦ rw lacks (λ h. ground (h, arith))
                    ])
                  ])
        ]
