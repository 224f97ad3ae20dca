-- ===== src/Session/Capability.antt =====
-- KCapabilityNegotiator (src/core/session/capabilitynegotiator.h and .cpp) and
-- KCapabilitySessionFlow (src/session/capabilitysessionflow.cpp). The numbers are those of decoded
-- messages, which are positive; the list of monitors takes no part. Of a technical message only the
-- channel that it names is kept.
pub mod Symmetry
pub mod Agreed
pub mod Flow
mod Tests
use win_remote_control.Prelude.{
  Outcome, ok, err, passed, ℕ, zero, suc, ◌+◌, ◌-◌, ◌*◌, ◌/◌, ◌%◌, ◌^◌, ◌≤◌, ◌<◌, min, max, ◌≡◌,
  refl, sym, ap, subst, ◌∙◌, ◌≢◌, ◌↔◌, ◌⊎◌, inl, inr, Bool, true, false, not, ◌&&◌, ◌||◌, Option,
  none, some, List, [], ◌∷◌, ◌++◌, map, Memᴰ, append-nil, append_assoc, arith, String, str_eq,
  str_eq_iff, ltb, leb, ◌==◌, if◌then◌else◌, ltb→lt, lt→ltb, leb→le, ==_iff, tests, Bool-cases,
  Option-cases, length, take, drop, length-append, length-drop, take-append_length,
  drop-append_length, List-cases, take_all, length-take, byte_at, write_le, write_be, read_le,
  read_be, byte_at-append, take-append, drop-append, byte_at-skip, drop-skip, take-skip,
}

pub record SessionCapabilities : Type 0 where
  pub protocol_min_version : ℕ
  pub protocol_max_version : ℕ
  pub supported_codecs : List String
  pub supported_channels : List String
  pub maximum_width : ℕ
  pub maximum_height : ℕ
  pub maximum_fps : ℕ
  pub maximum_bitrate_kbps : ℕ
  pub clipboard_text : Bool
  pub input_realtime : Bool
  pub ordered_mouse_drag : Bool
  pub cursor_shape_v1 : Bool
  pub keyboard : Bool
  pub unicode_text : Bool
  pub mouse_buttons : Bool
  pub mouse_wheel : Bool
  pub supported_privacy_modes : List String
  pub post_session_lock : Bool

pub record NegotiatedCapabilities : Type 0 where
  pub valid : Bool
  pub protocol_version : ℕ
  pub video_codec : String
  pub channels : List String
  pub width_limit : ℕ
  pub height_limit : ℕ
  pub fps_limit : ℕ
  pub bitrate_limit : ℕ
  pub clipboard : Bool
  pub realtime : Bool
  pub mouse_drag : Bool
  pub cursor_shape : Bool
  pub keys : Bool
  pub text : Bool
  pub buttons : Bool
  pub wheel : Bool
  pub file_transfer : Bool
  pub privacy_modes : List String
  pub lock : Bool

pub data CapabilityNegotiationStatus : Type 0 where
  succeeded incompatible_version missing_codec missing_channel : CapabilityNegotiationStatus

pub record CapabilityNegotiationResult : Type 0 where
  pub status : CapabilityNegotiationStatus
  pub capabilities : NegotiatedCapabilities
  pub named_channel : String

-- The default values of the structure.
abbrev pub no_capabilities : NegotiatedCapabilities
no_capabilities = record {
  valid = false;
  protocol_version = 0;
  video_codec = "";
  channels = [];
  width_limit = 0;
  height_limit = 0;
  fps_limit = 0;
  bitrate_limit = 0;
  clipboard = false;
  realtime = false;
  mouse_drag = false;
  cursor_shape = false;
  keys = false;
  text = false;
  buttons = false;
  wheel = false;
  file_transfer = false;
  privacy_modes = [];
  lock = false;
}

-- QStringList::contains.
abbrev pub contains : List String → String → Bool
contains [] s = false
contains (x ∷ xs) s = str_eq x s || contains xs s

-- The first required channel that a side lacks.
unfoldable pub lacking : List String → SessionCapabilities → SessionCapabilities → Option String
lacking [] a b = none
lacking (c ∷ cs) a b =
    if not (contains a.supported_channels c) || not (contains b.supported_channels c)
    then some c
    else lacking cs a b

abbrev pub required_channels : List String
required_channels = "video" ∷ "session" ∷ "input" ∷ []

-- The channels of the first list that are in the second, in order.
unfoldable pub common : List String → List String → List String
common [] ys = []
common (x ∷ xs) ys = if contains ys x then x ∷ common xs ys else common xs ys

unfoldable pub is_privacy_mode : String → Bool
is_privacy_mode m = str_eq m "disabled" || (str_eq m "privacyoverlay" || str_eq m "displayoff")

unfoldable pub common_modes : List String → List String → List String
common_modes [] ys = []
common_modes (x ∷ xs) ys =
    if is_privacy_mode x && contains ys x then x ∷ common_modes xs ys else common_modes xs ys

abbrev pub with_disabled : List String → List String
with_disabled modes = if not (contains modes "disabled") then "disabled" ∷ modes else modes

-- The capabilities that two compatible sides agree on.
unfoldable pub agreed : SessionCapabilities → SessionCapabilities → NegotiatedCapabilities
agreed a b =
    let channels = common a.supported_channels b.supported_channels in
    let realtime = a.input_realtime && (b.input_realtime && contains channels "input-realtime") in
    record {
      valid = true;
      protocol_version = min a.protocol_max_version b.protocol_max_version;
      video_codec = "h264";
      channels = channels;
      width_limit = min a.maximum_width b.maximum_width;
      height_limit = min a.maximum_height b.maximum_height;
      fps_limit = min a.maximum_fps b.maximum_fps;
      bitrate_limit = min a.maximum_bitrate_kbps b.maximum_bitrate_kbps;
      clipboard = a.clipboard_text && (b.clipboard_text && contains channels "clipboard");
      realtime = realtime;
      mouse_drag = realtime && (a.ordered_mouse_drag && b.ordered_mouse_drag);
      cursor_shape = a.cursor_shape_v1 && b.cursor_shape_v1;
      keys = a.keyboard && b.keyboard;
      text = a.unicode_text && b.unicode_text;
      buttons = a.mouse_buttons && b.mouse_buttons;
      wheel = a.mouse_wheel && b.mouse_wheel;
      file_transfer = contains channels "file-control" && contains channels "file-data";
      privacy_modes =
          with_disabled (common_modes a.supported_privacy_modes b.supported_privacy_modes);
      lock = a.post_session_lock && b.post_session_lock;
    }

abbrev pub refused : CapabilityNegotiationStatus → String → CapabilityNegotiationResult
refused status channel = record {
  status = status;
  capabilities = no_capabilities;
  named_channel = channel;
}

unfoldable pub negotiate : SessionCapabilities → SessionCapabilities → CapabilityNegotiationResult
negotiate a b =
    if ltb (min a.protocol_max_version b.protocol_max_version)
      (max a.protocol_min_version b.protocol_min_version)
    then refused incompatible_version ""
    else if not (contains a.supported_codecs "h264") || not (contains b.supported_codecs "h264")
    then refused missing_codec ""
    else elim (lacking required_channels a b) [
      | some channel ↦ refused missing_channel channel
      | none ↦ record { status = succeeded; capabilities = agreed a b; named_channel = "" }
    ]

abbrev pub is_succeeded : CapabilityNegotiationStatus → Bool
is_succeeded succeeded = true
is_succeeded _ = false

-- KCapabilityNegotiationResult::succeeded.
abbrev pub has_succeeded : CapabilityNegotiationResult → Bool
has_succeeded r = is_succeeded r.status && r.capabilities.valid
