-- ===== src/Session/Commands/Memory.antt =====
-- The answers that are remembered (src/session/sessioncommanddispatcher.cpp): an answer stays until 128
-- younger ones have come.
use win_remote_control.Prelude.{
  ℕ, ◌+◌, ◌≤◌, ◌<◌, ◌≡◌, refl, sym, ap, subst, ◌∙◌, inl, inr, false, none, some, List, [], ◌∷◌,
  ◌++◌, append_assoc, arith, String, str_eq, str_eq_iff, ltb, if◌then◌else◌, Bool-cases,
  Option-cases, if-true, if-false, length, length-append,
}
use win_remote_control.Prelude.Table.{
  entries, entries-erase, entries-insert, erase, insert, lookup, lookup-erase, lookup-insert,
}
use win_remote_control.Session.Commands.{
  SessionCommandDispatcher, SessionMessage, maximum_recent_command_results, remember_command_result,
  trim,
}

abbrev pub occurrences : String → List String → ℕ
occurrences i [] = 0
occurrences i (j ∷ js) = (if str_eq j i then 1 else 0) + occurrences i js

occurrences-append :
    (i : String) (xs ys : List String)
    → occurrences i (xs ++ ys) ≡ occurrences i xs + occurrences i ys
occurrences-append i [] ys = omega arith
occurrences-append i (x ∷ xs) ys = omega (arith, occurrences-append i xs ys)

entries-none :
    {V : Type 0} (i : String) (t : List (String × V)) → lookup i t ≡ none → entries i t ≡ 0
entries-none i [] e = refl
entries-none i ((j, v) ∷ t) e = ground (arith, entries-none i t)

module _ {B : Type 0} where
  -- The list of identifiers and the table of answers have the same keys, each once.
  abbrev pub IsIndexed : List String → List (String × SessionMessage B) → Type 0
  IsIndexed ids recent =
      (i : String) → (occurrences i ids ≡ entries i recent) × (entries i recent ≤ 1)

  trim-IsIndexed :
      (ids : List String) (recent : List (String × SessionMessage B))
      → IsIndexed ids recent
      → IsIndexed (trim ids recent).0 (trim ids recent).1
  unfolding trim
  trim-IsIndexed [] recent v = v
  trim-IsIndexed (x ∷ ids) recent v =
      let rest : IsIndexed ids (erase x recent) =
        λ i. ground (arith, v i, entries-erase i x recent) in
      elim (Bool-cases (ltb maximum_recent_command_results (length (x ∷ ids)))) [
        | inl full ↦ rw full (trim-IsIndexed ids (erase x recent) rest)
        | inr room ↦ rw room v
      ]

  pub remember-IsIndexed :
      (m : SessionMessage B) (d : SessionCommandDispatcher B)
      → IsIndexed d.recent_ids d.recent_results
      → let e = remember_command_result m d in IsIndexed e.recent_ids e.recent_results
  unfolding remember_command_result
  remember-IsIndexed m d v = elim (Option-cases (lookup m.request_id d.recent_results)) [
    | inr (r, e) ↦ rw (e, remember_command_result) v
    | inl e ↦
        rw (e, remember_command_result)
          (trim-IsIndexed (d.recent_ids ++ m.request_id ∷ [])
            (insert m.request_id m d.recent_results)
            (λ i. ground (
              arith,
              v i,
              occurrences-append i d.recent_ids (m.request_id ∷ []),
              entries-insert i m.request_id m d.recent_results,
              entries-none m.request_id d.recent_results e,
              str_eq_iff m.request_id i,
            )))
  ]

  -- The answer `r` to the command `i` is remembered, with at most `k` younger ones.
  pub record Remembers (i : String) (r : SessionMessage B) (k : ℕ) (ids : List String)
      (recent : List (String × SessionMessage B)) : Type 0 where
    pub older : List String
    pub younger : List String
    pub split : ids ≡ older ++ i ∷ younger
    pub once : occurrences i older ≡ 0
    pub few : length younger ≤ k
    pub found : lookup i recent ≡ some r

  trim-Remembers :
      (i : String) (r : SessionMessage B) (k : ℕ) (older younger : List String)
      (recent : List (String × SessionMessage B))
      → k < maximum_recent_command_results
      → occurrences i older ≡ 0
      → length younger ≤ k
      → lookup i recent ≡ some r
      → let t = trim (older ++ i ∷ younger) recent in Remembers i r k t.0 t.1
  unfolding trim
  trim-Remembers i r k [] younger recent h once few found =
      let room : ltb maximum_recent_command_results (length (i ∷ younger)) ≡ false = ground arith in
      rw room (record {
        older = [];
        younger = younger;
        split = refl;
        once = refl;
        few = few;
        found = found;
      })
  trim-Remembers i r k (x ∷ older) younger recent h once few found =
      let other : str_eq x i ≡ false = ground arith in
      elim (Bool-cases (ltb maximum_recent_command_results (length (x ∷ older ++ i ∷ younger)))) [
        | inl full ↦ rw full (
            trim-Remembers i r k older younger (erase x recent) h (ground arith) few
              (lookup-erase i x recent ∙ rw other found))
        | inr room ↦ rw room (record {
          older = x ∷ older;
          younger = younger;
          split = refl;
          once = once;
          few = few;
          found = found;
        })
      ]

  -- Of a dispatcher.
  abbrev pub Has : String → SessionMessage B → ℕ → SessionCommandDispatcher B → Type 0
  Has i r k d = Remembers i r k d.recent_ids d.recent_results

  pub Remembers-more :
      (i : String) (r : SessionMessage B) (k : ℕ) (ids : List String)
      (recent : List (String × SessionMessage B))
      → Remembers i r k ids recent
      → Remembers i r (k + 1) ids recent
  Remembers-more i r k ids recent v = record {
    older = v.older;
    younger = v.younger;
    split = v.split;
    once = v.once;
    few = omega (arith, v.few);
    found = v.found;
  }

  pub remember_new :
      (m : SessionMessage B) (d : SessionCommandDispatcher B)
      → IsIndexed d.recent_ids d.recent_results
      → lookup m.request_id d.recent_results ≡ none
      → Has m.request_id m 0 (remember_command_result m d)
  unfolding remember_command_result
  remember_new m d v e =
      rw (e, remember_command_result)
        (trim-Remembers m.request_id m 0 d.recent_ids [] (insert m.request_id m d.recent_results)
          (omega arith)
          (omega (arith, (v m.request_id).0, entries-none m.request_id d.recent_results e))
          (omega arith)
          (lookup-insert m.request_id m.request_id m d.recent_results
            ∙ if-true _ _ _ ((str_eq_iff m.request_id m.request_id).1 refl)))

  pub remember-Has :
      (i : String) (r : SessionMessage B) (k : ℕ) (m : SessionMessage B)
      (d : SessionCommandDispatcher B)
      → k + 1 < maximum_recent_command_results
      → Has i r k d
      → Has i r (k + 1) (remember_command_result m d)
  unfolding remember_command_result
  remember-Has i r k m d h v = elim (Option-cases (lookup m.request_id d.recent_results)) [
    | inr (s, e) ↦ rw (e, remember_command_result) (Remembers-more i r k _ _ v)
    | inl e ↦
        let j = m.request_id in
        let later = v.younger ++ j ∷ [] in
        let same : v.older ++ i ∷ later ≡ d.recent_ids ++ j ∷ [] =
          sym (append_assoc v.older (i ∷ v.younger) (j ∷ []))
          ∙ ap (λ x. x ++ j ∷ []) (sym v.split) in
        let other : str_eq j i ≡ false = ground (arith, v.found, e, str_eq_iff j i) in
        rw (e, remember_command_result)
          (subst
            (λ ids.
              Remembers i r (k + 1) (trim ids (insert j m d.recent_results)).0
                (trim ids (insert j m d.recent_results)).1)
            same
            (trim-Remembers i r (k + 1) v.older later (insert j m d.recent_results) h v.once
              (omega (arith, length-append v.younger (j ∷ []), v.few))
              (lookup-insert i j m d.recent_results ∙ (if-false _ _ _ other ∙ v.found))))
  ]
