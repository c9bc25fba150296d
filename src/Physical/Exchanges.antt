-- ===== src/Physical/Exchanges.antt =====
-- What `materialize_exchanges` adds to a plan: exchanges only.
pub mod Inputs
pub mod Windows
use distributed_sql.Prelude.{
  ℕ, ◌≡◌, refl, sym, ap, ◌∙◌, subst, String, Bool, true, false, Option, none, some, List, [], Dict,
  lookup, Result, ok, >>=-eq-ok, ok-injective, Bool-cases, if◌then◌else◌, ltb, ◌&&◌, not, str_eq,
  inl, inr,
}
use mathlib.Core.Path.{ap₂}
use distributed_sql.Common.Protocol
use distributed_sql.Common.Protocol.{PartitionStrategy}
use distributed_sql.Planner.Types.{Raised}
use distributed_sql.Planner.Values.{Python}
use distributed_sql.Planner.Expressions.{Expressions, nil, cons}
use distributed_sql.Planner.Logical.{
  Plan, scan, project, filter, aggregate, join, limit, order, window, grouping_sets, exchange,
}
use distributed_sql.Physical.{
  JoinDecision, exchanged, left_input, right_input, repartitions_left, repartitions_right,
  is_broadcast, columns, decided, is_empty, is_hash, visit, by_node, materialize_exchanges,
  hash_or_single, count_or_one, window_partition_keys, sided,
}
use distributed_sql.Physical.Exchanges.Windows.{exchanged-IsWindowed}
use distributed_sql.Physical.Exchanges.Inputs.{
  side_of, decided-side, erased, oriented, IsLogical, IsGathered, IsSplitBy, IsPlaced,
  exchanged-erased, exchanged-IsSplitBy, input-IsPlaced, exchanged-IsGathered, Kept,
  left_input-Kept, right_input-Kept,
}

module _ {O : Type 0} (py : Python O) where
  visit-Kept :
      (n : ℕ) (decisions : Dict JoinDecision) (plan : Plan O) {physical : Plan O}
      → IsLogical plan
      → visit py n decisions plan ≡ ok physical
      → (erased physical ≡ oriented decisions plan) × IsPlaced py n physical
  unfolding visit
  visit-Kept n decisions (scan id table_name alias schema) logical e =
      subst (λ p. (erased p ≡ scan id table_name alias schema) × IsPlaced py n p) (ok-injective e)
        (refl, tt)
  visit-Kept n decisions (project id input expressions schema) logical e =
      let (input', visited, done) = >>=-eq-ok (visit py n decisions input) _ e in
      let (same, placed) = visit-Kept n decisions input logical visited in
      let whole : (erased (project id input' expressions schema)
            ≡ project id (oriented decisions input) expressions schema)
          × IsPlaced py n (project id input' expressions schema) =
        (ap (λ i. project id i expressions schema) same, placed) in
      subst
        (λ p.
          (erased p ≡ project id (oriented decisions input) expressions schema) × IsPlaced py n p)
        (ok-injective done) whole
  visit-Kept n decisions (filter id input predicate schema phase) logical e =
      let (input', visited, done) = >>=-eq-ok (visit py n decisions input) _ e in
      let (same, placed) = visit-Kept n decisions input logical visited in
      let whole : (erased (filter id input' predicate schema phase)
            ≡ filter id (oriented decisions input) predicate schema phase)
          × IsPlaced py n (filter id input' predicate schema phase) =
        (ap (λ i. filter id i predicate schema phase) same, placed) in
      subst
        (λ p.
          (erased p ≡ filter id (oriented decisions input) predicate schema phase)
          × IsPlaced py n p)
        (ok-injective done) whole
  visit-Kept n decisions (aggregate id input group_by aggregates schema) logical e =
      let (input', visited, e') = >>=-eq-ok (visit py n decisions input) _ e in
      let (input'', added, done) =
        >>=-eq-ok
          (exchanged input' group_by (hash_or_single group_by) (count_or_one n group_by)
            "aggregate")
          (λ i. ok (aggregate id i group_by aggregates schema)) e' in
      let (same, placed) = visit-Kept n decisions input logical visited in
      let (split, placed') = exchanged-IsSplitBy py n input' group_by "aggregate" added in
      let whole : (erased (aggregate id input'' group_by aggregates schema)
            ≡ aggregate id (oriented decisions input) group_by aggregates schema)
          × IsPlaced py n (aggregate id input'' group_by aggregates schema) =
        (
          ap (λ i. aggregate id i group_by aggregates schema)
              (exchanged-erased input' group_by (hash_or_single group_by) (count_or_one n group_by)
                  "aggregate" added
                ∙ same),
          (split, placed' placed),
        ) in
      subst
        (λ p.
          (erased p ≡ aggregate id (oriented decisions input) group_by aggregates schema)
          × IsPlaced py n p)
        (ok-injective done) whole
  visit-Kept n decisions (window id input expressions schema) logical e =
      let keys = window_partition_keys py expressions in
      let (input', visited, e') = >>=-eq-ok (visit py n decisions input) _ e in
      let (input'', added, done) =
        >>=-eq-ok (exchanged input' keys (hash_or_single keys) (count_or_one n keys) "window")
          (λ i. ok (window id i expressions schema)) e' in
      let (same, placed) = visit-Kept n decisions input logical visited in
      let split = exchanged-IsWindowed py expressions input' n added in
      let placed' =
        input-IsPlaced py n input' keys (hash_or_single keys) (count_or_one n keys) "window"
          added in
      let whole : (erased (window id input'' expressions schema)
            ≡ window id (oriented decisions input) expressions schema)
          × IsPlaced py n (window id input'' expressions schema) =
        (
          ap (λ i. window id i expressions schema)
              (exchanged-erased input' keys (hash_or_single keys) (count_or_one n keys) "window"
                  added
                ∙ same),
          (split, placed' placed),
        ) in
      subst
        (λ p.
          (erased p ≡ window id (oriented decisions input) expressions schema) × IsPlaced py n p)
        (ok-injective done) whole
  visit-Kept n decisions (grouping_sets id input sets aggregates schema) logical e =
      let (input', visited, e') = >>=-eq-ok (visit py n decisions input) _ e in
      let (input'', added, done) =
        >>=-eq-ok (exchanged input' nil Protocol.single 1 "global")
          (λ i. ok (grouping_sets id i sets aggregates schema)) e' in
      let (same, placed) = visit-Kept n decisions input logical visited in
      let whole : (erased (grouping_sets id input'' sets aggregates schema)
            ≡ grouping_sets id (oriented decisions input) sets aggregates schema)
          × IsPlaced py n (grouping_sets id input'' sets aggregates schema) =
        (
          ap (λ i. grouping_sets id i sets aggregates schema)
              (exchanged-erased input' nil Protocol.single 1 "global" added ∙ same),
          (
            exchanged-IsGathered py n input' "global" added,
            input-IsPlaced py n input' nil Protocol.single 1 "global" added placed,
          ),
        ) in
      subst
        (λ p.
          (erased p ≡ grouping_sets id (oriented decisions input) sets aggregates schema)
          × IsPlaced py n p)
        (ok-injective done) whole
  visit-Kept n decisions (order id input order_by schema) logical e =
      let (input', visited, e') = >>=-eq-ok (visit py n decisions input) _ e in
      let (input'', added, done) =
        >>=-eq-ok (exchanged input' nil Protocol.single 1 "global")
          (λ i. ok (order id i order_by schema)) e' in
      let (same, placed) = visit-Kept n decisions input logical visited in
      let whole : (erased (order id input'' order_by schema)
            ≡ order id (oriented decisions input) order_by schema)
          × IsPlaced py n (order id input'' order_by schema) =
        (
          ap (λ i. order id i order_by schema)
              (exchanged-erased input' nil Protocol.single 1 "global" added ∙ same),
          (
            exchanged-IsGathered py n input' "global" added,
            input-IsPlaced py n input' nil Protocol.single 1 "global" added placed,
          ),
        ) in
      subst
        (λ p. (erased p ≡ order id (oriented decisions input) order_by schema) × IsPlaced py n p)
        (ok-injective done) whole
  visit-Kept n decisions (limit id input count schema) logical e =
      let (input', visited, e') = >>=-eq-ok (visit py n decisions input) _ e in
      let (input'', added, done) =
        >>=-eq-ok (exchanged input' nil Protocol.single 1 "limit")
          (λ i. ok (limit id i count schema)) e' in
      let (same, placed) = visit-Kept n decisions input logical visited in
      let whole : (erased (limit id input'' count schema)
            ≡ limit id (oriented decisions input) count schema)
          × IsPlaced py n (limit id input'' count schema) =
        (
          ap (λ i. limit id i count schema)
              (exchanged-erased input' nil Protocol.single 1 "limit" added ∙ same),
          (
            exchanged-IsGathered py n input' "limit" added,
            input-IsPlaced py n input' nil Protocol.single 1 "limit" added placed,
          ),
        ) in
      subst (λ p. (erased p ≡ limit id (oriented decisions input) count schema) × IsPlaced py n p)
        (ok-injective done) whole
  visit-Kept n decisions (join id l r join_type condition schema input_limit build_side)
        (logical, logical') e =
      let (l', visited, e') = >>=-eq-ok (visit py n decisions l) _ e in
      let (r', visited', e'') = >>=-eq-ok (visit py n decisions r) _ e' in
      let (_, _, e₂) = >>=-eq-ok (sided build_side) _ e'' in
      let (decision, found, e₃) = >>=-eq-ok (decided (lookup id decisions)) _ e₂ in
      let (l'', added, e₄) = >>=-eq-ok (left_input n decision l') _ e₃ in
      let (r'', added', e₅) = >>=-eq-ok (right_input n decision r') _ e₄ in
      let (_, _, done) =
        >>=-eq-ok (sided decision.build_side)
          (λ _. ok (join id l'' r'' join_type condition schema input_limit decision.build_side))
          e₅ in
      let (same, placed) = visit-Kept n decisions l logical visited in
      let (same', placed') = visit-Kept n decisions r logical' visited' in
      let (kept, still) = left_input-Kept py n n decision l' added in
      let (kept', still') = right_input-Kept py n n decision r' added' in
      let output = join id l'' r'' join_type condition schema input_limit decision.build_side in
      let whole : (erased output
            ≡ oriented decisions (join id l r join_type condition schema input_limit build_side))
          × IsPlaced py n output =
        (
          ap₂ (λ a b. join id a b join_type condition schema input_limit decision.build_side)
                (kept ∙ same) (kept' ∙ same')
              ∙ ap
                  (λ s.
                    join id (oriented decisions l) (oriented decisions r) join_type condition schema
                      input_limit s)
                  (sym (decided-side build_side (lookup id decisions) found)),
          (still placed, still' placed'),
        ) in
      subst
        (λ p.
          (erased p
            ≡ oriented decisions (join id l r join_type condition schema input_limit build_side))
          × IsPlaced py n p)
        (ok-injective done) whole
  visit-Kept n decisions (exchange id input strategy keys count schema) logical e = absurd logical

  -- Where a logical plan can be given exchanges: without them, the physical plan is the logical one
  -- with the build sides that were decided. Each aggregate reads rows split by its keys over as many
  -- partitions as asked for, or all rows in one partition where it has no keys; so does each window
  -- for the PARTITION BY keys whose texts all of its functions share, if there are such keys; each
  -- sort, limit and GROUPING SETS reads all rows in one partition.
  pub materialize_exchanges-erased :
      (decisions : List JoinDecision) (n : ℕ) (plan : Plan O) {physical : Plan O}
      → IsLogical plan
      → materialize_exchanges py decisions n plan ≡ ok physical
      → (erased physical ≡ oriented (by_node decisions []) plan) × IsPlaced py n physical
  unfolding materialize_exchanges
  materialize_exchanges-erased decisions n plan logical e = elim (Bool-cases (ltb n 1)) [
    | inl small ↦ let e' = rw small at e in cc
    | inr enough ↦ visit-Kept n (by_node decisions []) plan logical (rw enough at e)
  ]
