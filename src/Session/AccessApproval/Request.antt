-- ===== src/Session/AccessApproval/Request.antt =====
-- The request of an incoming call stays the same one (src/session/accessapprovalcontroller.cpp).
use win_remote_control.Prelude.{
  ℕ, ◌≡◌, refl, ap, ◌∙◌, inl, inr, true, false, not, ◌&&◌, List, [], ◌∷◌, arith, String, str_eq,
  str_eq_iff, ◌==◌, if◌then◌else◌, Bool-cases,
}
use win_remote_control.Session.AccessApproval.{
  AccessApprovalController, begin_incoming, receive_incoming_request, extend_outgoing_timeout,
  stop_timeout, matches, incoming, start_timeout, clear,
}

-- What can come while a request waits.
pub data Event : Type 0 where
  request_received : String → String → ℕ → Event
  timeout_extended : String → ℕ → Event
  timeout_stopped : Event

unfoldable pub step : Event → AccessApprovalController → AccessApprovalController
step (request_received id name timeout) c = (receive_incoming_request id name timeout c).0
step (timeout_extended id timeout) c = (extend_outgoing_timeout id timeout c).0
step timeout_stopped c = stop_timeout c

unfoldable pub run : List Event → AccessApprovalController → AccessApprovalController
run [] c = c
run (e ∷ es) c = run es (step e c)

-- The identifier of the first request that is not empty, "" when there is none.
abbrev pub first_id : List Event → String
first_id [] = ""
first_id (request_received id name timeout ∷ es) = if str_eq id "" then first_id es else id
first_id (timeout_extended id timeout ∷ es) = first_id es
first_id (timeout_stopped ∷ es) = first_id es

abbrev pub first_name : List Event → String
first_name [] = ""
first_name (request_received id name timeout ∷ es) = if str_eq id "" then first_name es else name
first_name (timeout_extended id timeout ∷ es) = first_name es
first_name (timeout_stopped ∷ es) = first_name es

-- With an identifier, no event changes the request of an incoming call.
run_identified :
    (es : List Event) (c : AccessApprovalController)
    → c.request.side ≡ incoming
    → str_eq c.request.request_id "" ≡ false
    → (run es c).request ≡ c.request
unfolding run step receive_incoming_request extend_outgoing_timeout stop_timeout start_timeout
run_identified [] c i n = refl
run_identified (request_received id name timeout ∷ es) c i n =
    ground (arith, run_identified es c i n)
run_identified (timeout_extended id timeout ∷ es) c i n = ground (arith, run_identified es c i n)
run_identified (timeout_stopped ∷ es) c i n = run_identified es (stop_timeout c) i n

receive_empty :
    (id name : String) (timeout : ℕ) (c : AccessApprovalController)
    → str_eq id "" ≡ true
    → (receive_incoming_request id name timeout c).0 ≡ c
unfolding receive_incoming_request
receive_empty id name timeout c e = ground arith

receive_first :
    (id name : String) (timeout : ℕ) (c : AccessApprovalController)
    → str_eq id "" ≡ false
    → c.request.side ≡ incoming
    → c.request.request_id ≡ ""
    → (receive_incoming_request id name timeout c).0
      ≡ start_timeout timeout
          (record c { request = record c.request { request_id = id; device_name = name } })
unfolding receive_incoming_request
receive_first id name timeout c e i n = ground (arith, str_eq_iff c.request.request_id "")

run_waiting :
    (es : List Event) (c : AccessApprovalController)
    → c.request.side ≡ incoming
    → c.request.request_id ≡ ""
    → c.request.device_name ≡ ""
    → (run es c).request
      ≡ record c.request { request_id = first_id es; device_name = first_name es }
unfolding run step receive_incoming_request extend_outgoing_timeout stop_timeout start_timeout
run_waiting [] c i n m = ground arith
run_waiting (request_received id name timeout ∷ es) c i n m = elim (Bool-cases (str_eq id "")) [
  | inl e ↦
      ap (λ d. (run es d).request) (receive_empty id name timeout c e)
      ∙ (run_waiting es c i n m ∙ ground arith)
  | inr e ↦
      let d : AccessApprovalController =
        start_timeout timeout
          (record c { request = record c.request { request_id = id; device_name = name } }) in
      ap (λ t. (run es t).request) (receive_first id name timeout c e i n)
      ∙ (run_identified es d i e ∙ ground arith)
]
run_waiting (timeout_extended id timeout ∷ es) c i n m = ground (arith, run_waiting es c i n m)
run_waiting (timeout_stopped ∷ es) c i n m = run_waiting es (stop_timeout c) i n m

-- However many requests, extensions and stops of the timer follow, an incoming call keeps its source
-- and its generation, and its request is the first one that has an identifier: later ones do not
-- replace it. So an answer matches exactly when it names that identifier and the generation.
pub matches-run :
    (es : List Event) (source : String) (generation timeout : ℕ) (c : AccessApprovalController)
    (id : String) (g : ℕ)
    → let d = run es (begin_incoming source generation timeout c) in
      (d.request ≡ record {
        side = incoming;
        request_id = first_id es;
        device_name = first_name es;
        source_address = source;
        generation = generation;
      })
      × (matches id g d ≡ (not (str_eq id "") && (str_eq id (first_id es) && g == generation)))
unfolding begin_incoming clear start_timeout matches
matches-run es source generation timeout c id g =
    let e = run_waiting es (begin_incoming source generation timeout c) refl refl refl in
    (e, ap (λ r. not (str_eq id "") && (str_eq id r.request_id && g == r.generation)) e)
