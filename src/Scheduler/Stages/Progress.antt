-- ===== src/Scheduler/Stages/Progress.antt =====
-- Where each stage depends on earlier ones only, the loop over the stages runs all of them.
use distributed_sql.Prelude.{
  ℕ, zero, suc, ◌≤◌, ◌≡◌, refl, sym, ap, ◌∙◌, subst, String, true, inl, inr, some, List, [], ◌∷◌,
  length, length-map, All, Elem, Dict, lookup, str_eq, str_elem, eq_iff, Bool-cases, sorted_by,
  Elem-sorted_by, arith,
}
use distributed_sql.Common.Protocol.{StageState}
use distributed_sql.Physical.Stages.{Stage, plan_stages}
use distributed_sql.Planner.Logical.{Plan}
use distributed_sql.Planner.Values.{Python}
use distributed_sql.Physical.Stages.Precede.{IsOrdered, AllDiffer, ids}
use distributed_sql.Physical.Stages.Cut.{plan_stages-IsOrdered}
use distributed_sql.Scheduler.Stages.Ready.{
  Succeeded, HasState, Known, Remains, ready_stages-some, ready_stages-nonempty, false≢true,
}
use distributed_sql.Scheduler.Stages.{
  StageEnding, all_succeeded, RunState, RunEnding, complete, before, stage_done, after_tasks,
  run_ready, run_stages, run_start, run_graph,
}
use distributed_sql.Scheduler.Stages.Copies.{copies_same}
use distributed_sql.Scheduler.Stages.Rounds.{after_all, Holds, after_all-Holds, after_all-lt}

split_list :
    {A : Type 0} (xs : List A) → 1 ≤ length xs → (x : A) × (rest : List A) × (xs ≡ x ∷ rest)
split_list [] h = absurd (omega arith)
split_list (x ∷ xs) h = (x, xs, refl)

module _ (ending : String → StageEnding) (succeed : (id : String) → ending id ≡ all_succeeded) where
  run_ready-after_all :
      (next : RunState → RunEnding) (ready : List Stage) (st : RunState)
      → run_ready ending next ready st ≡ next (after_all ready st)
  unfolding run_ready after_tasks
  run_ready-after_all next [] st = refl
  run_ready-after_all next (stage ∷ ready) st =
      rw (succeed stage.stage_id) (run_ready-after_all next ready (stage_done stage.stage_id st))

  run_stages-complete :
      (fuel : ℕ) (stages : List Stage) (states : Dict StageState) (remaining outcomes : List String)
      → IsOrdered [] stages
      → Holds stages (record { states = states; remaining = remaining; outcomes = outcomes })
      → length remaining ≤ fuel
      → (end : RunState) × (run_stages ending fuel stages
            (record { states = states; remaining = remaining; outcomes = outcomes })
          ≡ complete end)
        × Holds stages end
        × (end.remaining ≡ [])
  unfolding run_stages
  run_stages-complete zero stages states [] outcomes ordered h enough = (_, refl, h, refl)
  run_stages-complete zero stages states (id ∷ later) outcomes ordered h enough =
      absurd (omega arith)
  run_stages-complete (suc fuel) stages states [] outcomes ordered h enough = (_, refl, h, refl)
  run_stages-complete (suc fuel) stages states (id ∷ remaining) outcomes ordered h enough =
      let st : RunState = record {
        states = states;
        remaining = id ∷ remaining;
        outcomes = outcomes;
      } in
      let (ready, found, remain) =
        ready_stages-some st [] stages ordered (λ d m. absurd m) h.known in
      let some_ready =
        ready_stages-nonempty st [] stages ready id ordered (λ d m. absurd m) h.known h.named.0
          (rw ((eq_iff id id).1 refl) refl) found in
      let (first, rest, shape) = split_list ready some_ready in
      let there : All (λ stage. str_elem stage.stage_id (id ∷ remaining) ≡ true) (first ∷ rest) =
        subst (All (Remains st)) shape remain in
      let sorted = sorted_by before (first ∷ rest) in
      let after = after_all sorted st in
      let fewer =
        after_all-lt sorted st first (Elem-sorted_by before first (first ∷ rest) (inl refl))
          there.0 in
      let (end, ran, h', none_left) =
        run_stages-complete fuel stages after.states after.remaining after.outcomes ordered
          (after_all-Holds stages sorted st h) (omega arith) in
      (
        end,
        rw (found ∙ ap some shape)
            (run_ready-after_all (λ st'. run_stages ending fuel stages st') sorted st ∙ ran),
        h',
        none_left,
      )

start-remaining : (stages : List Stage) → (run_start stages).remaining ≡ ids stages
start-remaining [] = refl
start-remaining (stage ∷ stages) = ap (λ l. stage.stage_id ∷ l) (start-remaining stages)

str_elem-of_Elem : (id : String) (names : List String) → Elem id names → str_elem id names ≡ true
str_elem-of_Elem id [] m = absurd m
str_elem-of_Elem id (name ∷ names) (inl e) = let same = (eq_iff name id).1 (sym e) in rw same refl
str_elem-of_Elem id (name ∷ names) (inr m) = let later = str_elem-of_Elem id names m in ground arith

start-HasState :
    (id : String) (stages : List Stage)
    → Elem id (ids stages)
    → HasState (run_start stages).states id
start-HasState id [] m = absurd m
start-HasState id (stage ∷ stages) m = elim (Bool-cases (str_eq stage.stage_id id)) [
  | inl same ↦ rw same (stage.state, refl)
  | inr differ ↦ elim m [
    | inl e ↦ let same = (eq_iff stage.stage_id id).1 (sym e) in cc
    | inr m' ↦ rw differ (start-HasState id stages m')
  ]
]

All-of_ids :
    (P : Stage → Type 0) (names : List String) (stages : List Stage)
    → ((stage : Stage) → Elem stage.stage_id names → P stage)
    → ((id : String) → Elem id (ids stages) → Elem id names)
    → All P stages
All-of_ids P names [] f g = tt
All-of_ids P names (stage ∷ stages) f g =
    (f stage (g stage.stage_id (inl refl)), All-of_ids P names stages f (λ id m. g id (inr m)))

All-of_Elem : (names : List String) → All (λ id. Elem id names) names
All-of_Elem names = go names (λ id m. m)
  where
    go :
        (rest : List String)
        → ((id : String) → Elem id rest → Elem id names)
        → All (λ id. Elem id names) rest
    go [] f = tt
    go (id ∷ rest) f = (f id (inl refl), go rest (λ i m. f i (inr m)))

start-Holds : (stages : List Stage) → Holds stages (run_start stages)
start-Holds stages = record {
  known =
      All-of_ids (Known (run_start stages)) (ids stages) stages
        (λ stage m. (
          start-HasState stage.stage_id stages m,
          inr (
              ap (str_elem stage.stage_id) (start-remaining stages)
              ∙ str_elem-of_Elem stage.stage_id (ids stages) m),
        ))
        (λ id m. m);
  named =
      subst (λ l. All (λ id. Elem id (ids stages)) l) (sym (start-remaining stages))
        (All-of_Elem (ids stages));
}

All-Succeeded :
    (stages : List Stage) (st : RunState)
    → st.remaining ≡ []
    → All (Known st) stages
    → All (λ stage. Succeeded st.states stage.stage_id) stages
All-Succeeded [] st none_left k = tt
All-Succeeded (stage ∷ stages) st none_left ((_, done), k) = (
  elim done [
    | inl s ↦ s
    | inr r ↦ let e = ap (str_elem stage.stage_id) none_left in absurd (false≢true (sym e ∙ r))
  ],
  All-Succeeded stages st none_left k,
)

-- Where each stage of a graph has an identity of its own and depends on stages before it only, and the
-- Tasks of every stage succeed: the loop ends, with no stage left and every stage SUCCEEDED. It does
-- not meet a missing dependency, nor a round without a stage that is ready.
pub run_graph-complete :
    (ending : String → StageEnding) (stages : List Stage)
    → ((id : String) → ending id ≡ all_succeeded)
    → IsOrdered [] stages
    → AllDiffer (ids stages)
    → (end : RunState) × (run_graph ending stages ≡ complete end)
      × (end.remaining ≡ [])
      × All (λ stage. lookup stage.stage_id end.states ≡ some StageState.succeeded) stages
unfolding run_graph
run_graph-complete ending stages succeed ordered differ =
    let st = run_start stages in
    let (end, ran, h, none_left) =
      run_stages-complete ending succeed (length stages) stages st.states st.remaining st.outcomes
        ordered (start-Holds stages)
        (let e = ap length (start-remaining stages) in
          let n = length-map (λ (s : Stage). s.stage_id) stages in omega arith) in
    (
      end,
      ap (λ copies. run_stages ending (length copies) copies (run_start copies))
            (copies_same stages differ)
          ∙ ran,
      none_left,
      All-Succeeded stages end none_left h.known,
    )

-- The scheduler runs every plan that the stage planner cuts into stages: where the Tasks of every
-- stage succeed, the loop over its dictionary of stages ends with all of them SUCCEEDED.
pub run_graph-plan_stages :
    {O : Type 0} (py : Python O) (query_id : String) (plan : Plan O) (root_partition_count : ℕ)
    (ending : String → StageEnding)
    → ((id : String) → ending id ≡ all_succeeded)
    → (end : RunState) × (run_graph ending
          (plan_stages query_id py plan root_partition_count).1.stages
        ≡ complete end)
      × (end.remaining ≡ [])
      × All
          (λ stage. lookup stage.stage_id end.states ≡ some StageState.succeeded)
          (plan_stages query_id py plan root_partition_count).1.stages
run_graph-plan_stages py query_id plan root_partition_count ending succeed =
    let (_, _, _, _, _, ordered, differ, _, _) =
      plan_stages-IsOrdered query_id py plan root_partition_count in
    run_graph-complete ending (plan_stages query_id py plan root_partition_count).1.stages succeed
      ordered differ
