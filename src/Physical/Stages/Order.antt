-- ===== src/Physical/Stages/Order.antt =====
-- The stages of a plan stand after those that they depend on, under different numbers.
use mathlib.Core.Path.{ap₂}
use distributed_sql.Common.Protocol.{Task}
use distributed_sql.Prelude.{
  ℕ, suc, ◌≤◌, ◌<◌, ◌≡◌, refl, sym, ap, ◌∙◌, subst, String, List, [], ◌∷◌, ◌++◌, map, map-append,
  flatten, flatten-append, All, All-append, Elem, Elem-append_left, Elem-append_right, append_assoc,
  append-nil, arith, inl,
}
use distributed_sql.Planner.Values.{Python}
use distributed_sql.Planner.Logical.{
  Plan, scan, project, filter, aggregate, join, limit, order, window, grouping_sets, exchange,
}
use distributed_sql.Physical.Stages.{
  Stage, PlannerState, Fragment, stage_name, close_stage, begun, at_start, stage_of, stage_tasks,
  fragment, plan_stages,
}
use distributed_sql.Physical.Stages.Precede.{
  ids, IsOrdered, AllDiffer, Between, All-mono, IsOrdered-mono, IsOrdered-append, AllDiffer-append,
  AllDiffer-last,
}

module _ (query_id : String) where
  abbrev pub tasks_of : Stage → List Task
  tasks_of stage = stage_tasks query_id stage.stage_id 0 stage.partition_count

  -- What cutting a part of a plan adds to the planner and to the dependencies.
  pub record Adds (dependencies : List String) (st : PlannerState) (dependencies' : List String)
      (st' : PlannerState) : Type 0 where
    pub new : List Stage
    pub numbers : List ℕ
    pub added : List String
    pub stages_are : st'.stages ≡ st.stages ++ new
    pub tasks_are : st'.tasks ≡ st.tasks ++ flatten (map tasks_of new)
    pub dependencies_are : dependencies' ≡ dependencies ++ added
    pub named : ids new ≡ map (stage_name query_id) numbers
    pub grown : st.next_stage ≤ st'.next_stage
    pub between : Between st.next_stage st'.next_stage numbers
    pub differ : AllDiffer numbers
    pub ordered : IsOrdered [] new
    pub known : All (λ d. Elem d (ids new)) added

  Adds-none :
      (dependencies : List String) (st : PlannerState) → Adds dependencies st dependencies st
  Adds-none dependencies st = record {
    new = [];
    numbers = [];
    added = [];
    stages_are = sym (append-nil st.stages);
    tasks_are = sym (append-nil st.tasks);
    dependencies_are = sym (append-nil dependencies);
    named = refl;
    grown = omega arith;
    between = tt;
    differ = tt;
    ordered = tt;
    known = tt;
  }

  Adds-both :
      (d d' d'' : List String) (st st' st'' : PlannerState)
      → Adds d st d' st'
      → Adds d' st' d'' st''
      → Adds d st d'' st''
  Adds-both d d' d'' st st' st'' a b = record {
    new = a.new ++ b.new;
    numbers = a.numbers ++ b.numbers;
    added = a.added ++ b.added;
    stages_are =
        b.stages_are ∙ ap (λ l. l ++ b.new) a.stages_are ∙ append_assoc st.stages a.new b.new;
    tasks_are =
        b.tasks_are
        ∙ ap (λ l. l ++ flatten (map tasks_of b.new)) a.tasks_are
        ∙ append_assoc st.tasks (flatten (map tasks_of a.new)) (flatten (map tasks_of b.new))
        ∙ ap (λ l. st.tasks ++ l)
            (sym (
              ap flatten (map-append tasks_of a.new b.new)
              ∙ flatten-append (map tasks_of a.new) (map tasks_of b.new)));
    dependencies_are =
        b.dependencies_are
        ∙ ap (λ l. l ++ b.added) a.dependencies_are
        ∙ append_assoc d a.added b.added;
    named =
        map-append (λ (stage : Stage). stage.stage_id) a.new b.new
        ∙ ap₂ ◌++◌ a.named b.named
        ∙ sym (map-append (stage_name query_id) a.numbers b.numbers);
    grown = let x = a.grown in let y = b.grown in omega arith;
    between =
        let x = a.grown in
        let y = b.grown in
        All-append (λ n. (st.next_stage ≤ n) × (n < st''.next_stage)) a.numbers b.numbers
          (All-mono (λ n. (st.next_stage ≤ n) × (n < st'.next_stage))
            (λ n. (st.next_stage ≤ n) × (n < st''.next_stage)) (λ n (low, high). (low, omega arith))
            a.numbers a.between)
          (All-mono (λ n. (st'.next_stage ≤ n) × (n < st''.next_stage))
            (λ n. (st.next_stage ≤ n) × (n < st''.next_stage))
            (λ n (low, high). (omega arith, high)) b.numbers b.between);
    differ =
        AllDiffer-append st.next_stage st'.next_stage st''.next_stage a.numbers b.numbers a.between
          b.between a.differ b.differ;
    ordered =
        IsOrdered-append [] a.new b.new a.ordered
          (IsOrdered-mono [] (ids a.new) b.new (λ d m. absurd m) b.ordered);
    known =
        let whole = map-append (λ (stage : Stage). stage.stage_id) a.new b.new in
        subst (λ l. All (λ e. Elem e l) (a.added ++ b.added)) (sym whole)
          (All-append (λ e. Elem e (ids a.new ++ ids b.new)) a.added b.added
            (All-mono (λ e. Elem e (ids a.new)) (λ e. Elem e (ids a.new ++ ids b.new))
              (λ e m. Elem-append_left e (ids a.new) (ids b.new) m) a.added a.known)
            (All-mono (λ e. Elem e (ids b.new)) (λ e. Elem e (ids a.new ++ ids b.new))
              (λ e m. Elem-append_right e (ids a.new) (ids b.new) m) b.added b.known));
  }

  -- A stage that is closed depends on the stages of its part of the plan.
  Adds-close :
      (d : List String) (st : PlannerState) (count : ℕ) (f : Fragment)
      → Adds [] (begun query_id st) f.dependencies f.planner
      → Adds d st
          (d ++ stage_name query_id st.next_stage ∷ [])
          (close_stage query_id st.next_stage count f)
  unfolding close_stage
  Adds-close d st count f a =
      let last = stage_of query_id st.next_stage count f in
      record {
        new = a.new ++ last ∷ [];
        numbers = a.numbers ++ st.next_stage ∷ [];
        added = stage_name query_id st.next_stage ∷ [];
        stages_are =
            ap (λ l. l ++ last ∷ []) a.stages_are ∙ append_assoc st.stages a.new (last ∷ []);
        tasks_are =
            (let ts = tasks_of last in
              ap (λ l. l ++ ts) a.tasks_are
              ∙ append_assoc st.tasks (flatten (map tasks_of a.new)) ts
              ∙ ap (λ l. st.tasks ++ l)
                  (sym (
                    ap flatten (map-append tasks_of a.new (last ∷ []))
                    ∙ flatten-append (map tasks_of a.new) (ts ∷ [])
                    ∙ ap (λ l. flatten (map tasks_of a.new) ++ l) (append-nil ts))));
        dependencies_are = refl;
        named =
            map-append (λ (stage : Stage). stage.stage_id) a.new (last ∷ [])
            ∙ ap (λ l. l ++ stage_name query_id st.next_stage ∷ []) a.named
            ∙ sym (map-append (stage_name query_id) a.numbers (st.next_stage ∷ []));
        grown = let x = a.grown in omega arith;
        between =
            let x = a.grown in
            All-append (λ n. (st.next_stage ≤ n) × (n < f.planner.next_stage)) a.numbers
              (st.next_stage ∷ [])
              (All-mono (λ n. (suc st.next_stage ≤ n) × (n < f.planner.next_stage))
                (λ n. (st.next_stage ≤ n) × (n < f.planner.next_stage))
                (λ n (low, high). (omega arith, high)) a.numbers a.between)
              ((omega arith, omega arith), tt);
        differ = AllDiffer-last st.next_stage f.planner.next_stage a.numbers a.between a.differ;
        ordered =
            IsOrdered-append [] a.new (last ∷ []) a.ordered
              (subst (λ l. All (λ e. Elem e (ids a.new)) l) (sym a.dependencies_are) a.known, tt);
        known = (
          subst (λ l. Elem (stage_name query_id st.next_stage) l)
              (sym (map-append (λ (stage : Stage). stage.stage_id) a.new (last ∷ [])))
              (Elem-append_right (stage_name query_id st.next_stage) (ids a.new)
                (stage_name query_id st.next_stage ∷ []) (inl refl)),
          tt,
        );
      }

  module _ {O : Type 0} (py : Python O) where
    fragment-Adds :
        (plan : Plan O) (d : List String) (st : PlannerState)
        → Adds d st
            (fragment query_id py plan d st).dependencies
            (fragment query_id py plan d st).planner
    unfolding fragment
    fragment-Adds (scan id table_name alias schema) d st = Adds-none d st
    fragment-Adds (project id input expressions schema) d st = fragment-Adds input d st
    fragment-Adds (filter id input predicate schema phase) d st = fragment-Adds input d st
    fragment-Adds (aggregate id input group_by aggregates schema) d st = fragment-Adds input d st
    fragment-Adds (join id l r join_type condition schema input_limit build_side) d st =
        let first = fragment query_id py l d st in
        Adds-both d first.dependencies
          (fragment query_id py r first.dependencies first.planner).dependencies st first.planner
          (fragment query_id py r first.dependencies first.planner).planner (fragment-Adds l d st)
          (fragment-Adds r first.dependencies first.planner)
    fragment-Adds (limit id input count schema) d st = fragment-Adds input d st
    fragment-Adds (order id input order_by schema) d st = fragment-Adds input d st
    fragment-Adds (window id input expressions schema) d st = fragment-Adds input d st
    fragment-Adds (grouping_sets id input sets aggregates schema) d st = fragment-Adds input d st
    fragment-Adds (exchange id input strategy keys count schema) d st =
        Adds-close d st count (fragment query_id py input [] (begun query_id st))
          (fragment-Adds input [] (begun query_id st))

    pub cut_stages :
        (plan : Plan O) (root_partition_count : ℕ)
        → let planned = plan_stages query_id py plan root_partition_count in
          (earlier : List Stage) × (root : Stage) × (numbers : List ℕ) × (planned.1.stages
            ≡ earlier ++ root ∷ [])
          × (root.stage_id ≡ planned.0)
          × (root.partition_count ≡ root_partition_count)
          × IsOrdered [] planned.1.stages
          × (ids planned.1.stages ≡ map (stage_name query_id) numbers)
          × AllDiffer numbers
          × (planned.1.tasks ≡ flatten (map tasks_of planned.1.stages))
    unfolding plan_stages close_stage
    cut_stages plan root_partition_count =
        let part = fragment query_id py plan [] (begun query_id at_start) in
        let inner = fragment-Adds plan [] (begun query_id at_start) in
        let a = Adds-close [] at_start root_partition_count part inner in
        (
          inner.new,
          stage_of query_id 0 root_partition_count part,
          a.numbers,
          ap (λ l. l ++ stage_of query_id 0 root_partition_count part ∷ []) inner.stages_are,
          refl,
          refl,
          subst (IsOrdered []) (sym a.stages_are) a.ordered,
          ap ids a.stages_are ∙ a.named,
          a.differ,
          a.tasks_are ∙ ap (λ l. flatten (map tasks_of l)) (sym a.stages_are),
        )
