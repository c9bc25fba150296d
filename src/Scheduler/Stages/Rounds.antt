-- ===== src/Scheduler/Stages/Rounds.antt =====
-- What a round of the loop over the stages does, where all Tasks succeed.
use distributed_sql.Prelude.{
  ◌≤◌, ◌<◌, ◌≡◌, refl, sym, ap, ◌∙◌, String, Bool, true, false, not, inl, inr, List, [], ◌∷◌,
  length, keep, All, Elem, lookup, insert, lookup-insert, str_eq, str_elem, eq_iff, Bool-cases,
  ◌||◌, arith,
}
use distributed_sql.Common.Protocol.{StageState}
use distributed_sql.Physical.Stages.{Stage}
use distributed_sql.Physical.Stages.Precede.{ids}
use distributed_sql.Scheduler.Stages.Ready.{Succeeded, Known, Remains}
use distributed_sql.Scheduler.Stages.{RunState, stage_done}

-- The state after all of some stages have run.
abbrev pub after_all : List Stage → RunState → RunState
after_all [] st = st
after_all (stage ∷ stages) st = after_all stages (stage_done stage.stage_id st)

str_elem-keep :
    (asked id : String) (remaining : List String)
    → str_eq id asked ≡ false
    → str_elem asked (keep (λ other. not (str_eq other id)) remaining) ≡ str_elem asked remaining
str_elem-keep asked id [] h = refl
str_elem-keep asked id (other ∷ remaining) h =
    let later = str_elem-keep asked id remaining h in
    elim (Bool-cases (str_eq other id)) [
      | inl same ↦
          let unlike = ap (λ o. str_eq o asked) ((eq_iff other id).0 same) ∙ h in
          rw same (later ∙ sym (ap (λ b. b || str_elem asked remaining) unlike))
      | inr differ ↦ rw differ (ap (λ b. str_eq other asked || b) later)
    ]

length-keep :
    (id : String) (remaining : List String)
    → length (keep (λ other. not (str_eq other id)) remaining) ≤ length remaining
length-keep id [] = omega arith
length-keep id (other ∷ remaining) =
    let later = length-keep id remaining in
    elim (Bool-cases (str_eq other id)) [
      | inl same ↦ rw same (omega arith)
      | inr differ ↦ rw differ (omega arith)
    ]

length-keep_lt :
    (id : String) (remaining : List String)
    → str_elem id remaining ≡ true
    → length (keep (λ other. not (str_eq other id)) remaining) < length remaining
length-keep_lt id [] h = cc
length-keep_lt id (other ∷ remaining) h = elim (Bool-cases (str_eq other id)) [
  | inl same ↦ let later = length-keep id remaining in rw same (omega arith)
  | inr differ ↦ let later = length-keep_lt id remaining (rw differ at h) in rw differ (omega arith)
]

stage_done-Known :
    (id : String) (st : RunState) (stage : Stage) → Known st stage → Known (stage_done id st) stage
stage_done-Known id st stage ((state, found), done) = elim (Bool-cases (str_eq id stage.stage_id)) [
  | inl same ↦
      let e : Succeeded (stage_done id st).states stage.stage_id =
        lookup-insert id stage.stage_id StageState.succeeded
          (insert id StageState.running st.states)
        ∙ rw same refl in
      ((StageState.succeeded, e), inl e)
  | inr differ ↦
      let e : lookup stage.stage_id (stage_done id st).states ≡ lookup stage.stage_id st.states =
        lookup-insert id stage.stage_id StageState.succeeded
          (insert id StageState.running st.states)
        ∙ rw differ
            (lookup-insert id stage.stage_id StageState.running st.states ∙ rw differ refl) in
      (
        (state, e ∙ found),
        elim done [
          | inl s ↦ inl (e ∙ s)
          | inr t ↦ inr (str_elem-keep stage.stage_id id st.remaining differ ∙ t)
        ],
      )
]

stage_done-All-Known :
    (id : String) (st : RunState) (stages : List Stage)
    → All (Known st) stages
    → All (Known (stage_done id st)) stages
stage_done-All-Known id st [] k = tt
stage_done-All-Known id st (stage ∷ stages) (first, k) =
    (stage_done-Known id st stage first, stage_done-All-Known id st stages k)

keep-All :
    (P : String → Type 0) (p : String → Bool) (xs : List String) → All P xs → All P (keep p xs)
keep-All P p [] h = tt
keep-All P p (x ∷ xs) (first, h) = elim (Bool-cases (p x)) [
  | inl e ↦ rw e (first, keep-All P p xs h)
  | inr e ↦ rw e (keep-All P p xs h)
]

-- What holds before each round.
pub record Holds (stages : List Stage) (st : RunState) : Type 0 where
  pub known : All (Known st) stages
  pub named : All (λ id. Elem id (ids stages)) st.remaining

stage_done-Holds :
    (stages : List Stage) (id : String) (st : RunState)
    → Holds stages st
    → Holds stages (stage_done id st)
stage_done-Holds stages id st h = record {
  known = stage_done-All-Known id st stages h.known;
  named = keep-All (λ i. Elem i (ids stages)) (λ other. not (str_eq other id)) st.remaining h.named;
}

pub after_all-Holds :
    (stages ready : List Stage) (st : RunState)
    → Holds stages st
    → Holds stages (after_all ready st)
after_all-Holds stages [] st h = h
after_all-Holds stages (stage ∷ ready) st h =
    after_all-Holds stages ready (stage_done stage.stage_id st)
      (stage_done-Holds stages stage.stage_id st h)

pub after_all-le :
    (ready : List Stage) (st : RunState)
    → length (after_all ready st).remaining ≤ length st.remaining
after_all-le [] st = omega arith
after_all-le (stage ∷ ready) st =
    let later = after_all-le ready (stage_done stage.stage_id st) in
    let one = length-keep stage.stage_id st.remaining in omega arith

pub after_all-lt :
    (ready : List Stage) (st : RunState) (stage : Stage)
    → Elem stage ready
    → Remains st stage
    → length (after_all ready st).remaining < length st.remaining
after_all-lt [] st stage m r = absurd m
after_all-lt (first ∷ ready) st stage m r =
    elim (Bool-cases (str_eq first.stage_id stage.stage_id)) [
      | inl same ↦
          let there =
            ap (λ i. str_elem i st.remaining) ((eq_iff first.stage_id stage.stage_id).0 same) ∙ r in
          let later = after_all-le ready (stage_done first.stage_id st) in
          let one = length-keep_lt first.stage_id st.remaining there in omega arith
      | inr differ ↦ elim m [
        | inl e ↦
            let there : str_elem first.stage_id st.remaining ≡ true =
              ap (λ s. str_elem s.stage_id st.remaining) (sym e) ∙ r in
            let later = after_all-le ready (stage_done first.stage_id st) in
            let one = length-keep_lt first.stage_id st.remaining there in omega arith
        | inr m' ↦
            let later =
              after_all-lt ready (stage_done first.stage_id st) stage m'
                (str_elem-keep stage.stage_id first.stage_id st.remaining differ ∙ r) in
            let one = length-keep first.stage_id st.remaining in omega arith
      ]
    ]
