-- ===== src/Protocol/Router/Guarded.antt =====
-- Which handler a message reaches (src/core/protocol/protocolrouter.cpp).
use win_remote_control.Prelude.{
  Outcome, ok, ◌≡◌, refl, sym, ap, ◌∙◌, inl, inr, Bool, true, false, ◌&&◌, ◌||◌, Option, none, some,
  List, [], ◌∷◌, arith, String, str_eq, str_eq_iff, ◌==◌, if◌then◌else◌, Bool-cases, Option-cases,
}
use win_remote_control.Protocol.Router.{
  envelope_schema_version, handled_result, dispatch, passes, ProtocolRouteContext, route,
  ProtocolEnvelope, ProtocolChannel, ProtocolRouteStatus, handled, handler_failed, RouteEntry,
  Registration, Routes, find, register_handler, channel_code,
}

-- A message that reached a handler.
abbrev pub has_run : ProtocolRouteStatus → Bool
has_run handled = true
has_run handler_failed = true
has_run _ = false

abbrev or_else {ℓ} : {A : Type ℓ} → Option A → Option A → Option A
or_else none o = o
or_else (some a) o = some a

or_else_assoc {ℓ} :
    {A : Type ℓ} (x y z : Option A) → or_else (or_else x y) z ≡ or_else x (or_else y z)
or_else_assoc none y z = refl
or_else_assoc (some a) y z = refl

or_else-none {ℓ} : {A : Type ℓ} (x : Option A) → or_else x none ≡ x
or_else-none none = refl
or_else-none (some a) = refl

module _ {S J : Type 0} where
  -- The calls of registerHandler, in order.
  abbrev pub register_all : List (Registration S J) → Routes S J → Routes S J
  register_all [] routes = routes
  register_all (r ∷ rs) routes = register_all rs (register_handler r routes).0

  -- What a registration offers to the messages of a channel and a type.
  abbrev pub entry_of : ProtocolChannel → String → Registration S J → Option (RouteEntry S J)
  entry_of channel type r = elim r.handler [
    | none ↦ none
    | some handler ↦
        if channel_code r.channel == 0 || str_eq r.type ""
        then none
        else if channel_code r.channel == channel_code channel && str_eq r.type type
        then some (record { guard = r.guard; handler = handler })
        else none
  ]

  -- The first registration that offers something.
  abbrev pub first_entry :
      ProtocolChannel → String → List (Registration S J) → Option (RouteEntry S J)
  first_entry channel type [] = none
  first_entry channel type (r ∷ rs) =
      or_else (entry_of channel type r) (first_entry channel type rs)

  find_same :
      (c d : ProtocolChannel) (t u : String) (routes : Routes S J)
      → channel_code c ≡ channel_code d
      → t ≡ u
      → find c t routes ≡ find d u routes
  unfolding find
  find_same c d t u [] p q = refl
  find_same c d t u ((e, (v, entry)) ∷ routes) p q =
      rw (p, q)
        (ap (λ o. if channel_code e == channel_code d && str_eq v u then some entry else o)
          (find_same c d t u routes p q))

  -- A match of the two tests that `find` makes.
  find_match :
      (c d : ProtocolChannel) (t u : String) (routes : Routes S J)
      → (channel_code c == channel_code d && str_eq t u) ≡ true
      → find d u routes ≡ find c t routes
  find_match c d t u routes m =
      find_same d c u t routes (ground arith) (ground (arith, str_eq_iff t u))

  find-register_handler :
      (c : ProtocolChannel) (t : String) (r : Registration S J) (routes : Routes S J)
      → find c t (register_handler r routes).0 ≡ or_else (find c t routes) (entry_of c t r)
  unfolding register_handler find
  find-register_handler c t r routes = elim (Option-cases r.handler) [
    | inl e ↦ rw e (sym (or_else-none (find c t routes)))
    | inr (handler, e) ↦ elim (Bool-cases (channel_code r.channel == 0 || str_eq r.type "")) [
      | inl b ↦ rw (e, b) (sym (or_else-none (find c t routes)))
      | inr b ↦ elim (Bool-cases (channel_code r.channel == channel_code c && str_eq r.type t)) [
        | inl m ↦ elim (Option-cases (find r.channel r.type routes)) [
          | inl f ↦ rw (e, b, f, m, find_match r.channel c r.type t routes m, f) refl
          | inr (entry, f) ↦ rw (e, b, f, m, find_match r.channel c r.type t routes m, f) refl
        ]
        | inr m ↦ elim (Option-cases (find r.channel r.type routes)) [
          | inl f ↦ rw (e, b, f, m) (sym (or_else-none (find c t routes)))
          | inr (entry, f) ↦ rw (e, b, f, m) (sym (or_else-none (find c t routes)))
        ]
      ]
    ]
  ]

  find-register_all :
      (c : ProtocolChannel) (t : String) (rs : List (Registration S J)) (routes : Routes S J)
      → find c t (register_all rs routes) ≡ or_else (find c t routes) (first_entry c t rs)
  find-register_all c t [] routes = sym (or_else-none (find c t routes))
  find-register_all c t (r ∷ rs) routes =
      find-register_all c t rs (register_handler r routes).0
      ∙ (ap (λ o. or_else o (first_entry c t rs)) (find-register_handler c t r routes)
          ∙ or_else_assoc (find c t routes) (entry_of c t r) (first_entry c t rs))

  -- Whether the guard of an entry lets a message pass, and what its handler makes of the state.
  abbrev pub is_allowed :
      Option (RouteEntry S J) → ProtocolEnvelope J → ProtocolRouteContext → S → Bool
  is_allowed none envelope context s = false
  is_allowed (some entry) envelope context s = passes entry.guard envelope context s

  abbrev pub state_after :
      Option (RouteEntry S J) → ProtocolEnvelope J → ProtocolRouteContext → S → S
  state_after none envelope context s = s
  state_after (some entry) envelope context s = (entry.handler envelope context s).0

  module _ (decode : ProtocolChannel → String → Outcome String (ProtocolEnvelope J)) where
    route_decoded :
        (channel : ProtocolChannel) (message : String) (context : ProtocolRouteContext)
        (routes : Routes S J) (s : S) (envelope : ProtocolEnvelope J)
        → decode channel message ≡ ok envelope
        → route decode channel message context routes s
          ≡ dispatch decode channel envelope context routes s
    unfolding route
    route_decoded channel message context routes s envelope d = rw (d, route) refl

    dispatch_lem :
        (channel : ProtocolChannel) (context : ProtocolRouteContext) (routes : Routes S J) (s : S)
        (envelope : ProtocolEnvelope J)
        → let r = dispatch decode channel envelope context routes s in
          let entry = find channel envelope.type routes in
          let runs =
            envelope.version == envelope_schema_version && is_allowed entry envelope context s in
          (has_run r.1.status ≡ runs)
          × (r.0 ≡ (if runs then state_after entry envelope context s else s))
    unfolding dispatch handled_result
    dispatch_lem channel context routes s envelope =
        elim (Option-cases (find channel envelope.type routes)) [
          | inl n ↦ rw (n, dispatch) (ground arith)
          | inr (entry, n) ↦ rw (n, dispatch) (ground arith)
        ]

    -- In a router that has got any registrations, in order, a decoded message of the known version
    -- goes to the first of them that is for its channel and type and has a handler, provided that its
    -- guard lets the message pass. It runs that handler and no other; in every other case no handler
    -- runs and the state stays as it is.
    pub route-register_all :
        (rs : List (Registration S J)) (channel : ProtocolChannel) (message : String)
        (context : ProtocolRouteContext) (s : S) (envelope : ProtocolEnvelope J)
        → decode channel message ≡ ok envelope
        → let r = route decode channel message context (register_all rs []) s in
          let entry = first_entry channel envelope.type rs in
          let runs =
            envelope.version == envelope_schema_version && is_allowed entry envelope context s in
          (has_run r.1.status ≡ runs)
          × (r.0 ≡ (if runs then state_after entry envelope context s else s))
    unfolding find
    route-register_all rs channel message context s envelope d =
        rw
          (
            route_decoded channel message context (register_all rs []) s envelope d,
            ← find-register_all channel envelope.type rs [],
          )
          (dispatch_lem channel context (register_all rs []) s envelope)
