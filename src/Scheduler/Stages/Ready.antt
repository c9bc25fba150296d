-- ===== src/Scheduler/Stages/Ready.antt =====
-- Where each stage depends on earlier ones only, some stage that remains is ready.
use mathlib.Core.Option.{some-injective}
use distributed_sql.Prelude.{
  ◌≤◌, ◌≡◌, refl, sym, ap, ◌∙◌, subst, String, Bool, true, false, ◌⊎◌, inl, inr, Option, none, some,
  List, [], ◌∷◌, ◌++◌, length, All, Elem, append-Elem, Dict, lookup, str_elem, Bool-cases, arith,
}
use distributed_sql.Common.Protocol.{StageState}
use distributed_sql.Physical.Stages.{Stage}
use distributed_sql.Physical.Stages.Precede.{IsOrdered, ids}
use distributed_sql.Scheduler.Stages.{
  RunState, and_later, dependencies_succeeded, with_stage, ready_stages,
}

abbrev pub Succeeded : Dict StageState → String → Type 0
Succeeded states id = lookup id states ≡ some StageState.succeeded

-- A stage has a state; it has succeeded, or it remains.
abbrev pub HasState : Dict StageState → String → Type 0
HasState states id = (state : StageState) × (lookup id states ≡ some state)

abbrev pub Known : RunState → Stage → Type 0
Known st stage =
    HasState st.states stage.stage_id
    × (Succeeded st.states stage.stage_id ⊎ (str_elem stage.stage_id st.remaining ≡ true))

dependencies_succeeded-of_Elem :
    (states : Dict StageState) (known dependencies : List String)
    → ((d : String) → Elem d known → Succeeded states d)
    → All (λ d. Elem d known) dependencies
    → dependencies_succeeded states dependencies ≡ some true
unfolding dependencies_succeeded
dependencies_succeeded-of_Elem states known [] h there = refl
dependencies_succeeded-of_Elem states known (d ∷ dependencies) h (first, there) =
    rw (h d first) (dependencies_succeeded-of_Elem states known dependencies h there)

dependencies-known :
    (states : Dict StageState) (known dependencies : List String)
    → ((d : String) → Elem d known → HasState states d)
    → All (λ d. Elem d known) dependencies
    → (b : Bool) × (dependencies_succeeded states dependencies ≡ some b)
unfolding dependencies_succeeded
dependencies-known states known [] h there = (true, refl)
dependencies-known states known (d ∷ dependencies) h (first, there) =
    let (state, found) = h d first in
    let (b, rest) = dependencies-known states known dependencies h there in
    rw (found, rest) (later state b)
  where
    later :
        (state : StageState) (b : Bool) → (c : Bool) × (and_later (some state) (some b) ≡ some c)
    later StageState.succeeded b = (b, refl)
    later StageState.pending b = (false, refl)
    later StageState.running b = (false, refl)
    later StageState.failed b = (false, refl)
    later StageState.canceled b = (false, refl)

abbrev pub Remains : RunState → Stage → Type 0
Remains st stage = str_elem stage.stage_id st.remaining ≡ true

Elem-last :
    {P : String → Type 0} (known : List String) (id : String)
    → ((d : String) → Elem d known → P d)
    → P id
    → (d : String) → Elem d (known ++ id ∷ [])
    → P d
Elem-last {P} known id h p d m = elim (append-Elem d known (id ∷ []) m) [
  | inl old ↦ h d old
  | inr (inl e) ↦ subst P (sym e) p
  | inr (inr none_of) ↦ absurd none_of
]

-- The dependencies of the stages are there, so that the stages that are ready are found.
pub ready_stages-some :
    (st : RunState) (known : List String) (stages : List Stage)
    → IsOrdered known stages
    → ((d : String) → Elem d known → HasState st.states d)
    → All (Known st) stages
    → (ready : List Stage) × (ready_stages st stages ≡ some ready) × All (Remains st) ready
unfolding ready_stages
ready_stages-some st known [] ordered h k = ([], refl, tt)
ready_stages-some st known (stage ∷ stages) (first, ordered) h ((state, _), k) =
    let (ready, found, remain) =
      ready_stages-some st (known ++ stage.stage_id ∷ []) stages ordered
        (Elem-last known stage.stage_id h state) k in
    let (b, fine) = dependencies-known st.states known stage.dependency_stage_ids h first in
    elim (Bool-cases (str_elem stage.stage_id st.remaining)) [
      | inr gone ↦ (ready, rw (found, gone) refl, remain)
      | inl there ↦ elim (Bool-cases b) [
        | inl all_there ↦ (stage ∷ ready, rw (found, there, fine, all_there) refl, (there, remain))
        | inr not_yet ↦ (ready, rw (found, there, fine, not_yet) refl, remain)
      ]
    ]

first_ready :
    (stage : Stage) (rest : Option (List Stage)) {ready : List Stage}
    → with_stage stage (some true) rest ≡ some ready
    → 1 ≤ length ready
first_ready stage none e = cc
first_ready stage (some rest) e = subst (λ l. 1 ≤ length l) (some-injective _ _ e) (omega arith)

pub false≢true : false ≡ true → ⊥
false≢true e = cc

-- The first stage that remains is ready.
pub ready_stages-nonempty :
    (st : RunState) (known : List String) (stages ready : List Stage) (id : String)
    → IsOrdered known stages
    → ((d : String) → Elem d known → Succeeded st.states d)
    → All (Known st) stages
    → Elem id (ids stages)
    → str_elem id st.remaining ≡ true
    → ready_stages st stages ≡ some ready
    → 1 ≤ length ready
unfolding ready_stages
ready_stages-nonempty st known [] ready id ordered h k m r e = absurd m
ready_stages-nonempty st known (stage ∷ stages) ready id (first, ordered) h ((_, done), k) m r e =
    elim (Bool-cases (str_elem stage.stage_id st.remaining)) [
      | inl there ↦
          let fine =
            dependencies_succeeded-of_Elem st.states known stage.dependency_stage_ids h first in
          first_ready stage (ready_stages st stages) (rw (there, fine) at e)
      | inr gone ↦
          let succeeded : Succeeded st.states stage.stage_id = elim done [
            | inl s ↦ s
            | inr t ↦ cc
          ] in
          let m' : Elem id (ids stages) = elim m [
            | inl same ↦
                absurd (false≢true (sym gone ∙ ap (λ i. str_elem i st.remaining) (sym same) ∙ r))
            | inr later ↦ later
          ] in
          ready_stages-nonempty st (known ++ stage.stage_id ∷ []) stages ready id ordered
            (Elem-last known stage.stage_id h succeeded) k m' r (rw gone at e)
    ]
