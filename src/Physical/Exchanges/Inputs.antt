-- ===== src/Physical/Exchanges/Inputs.antt =====
-- What stands before an exchange, and what an exchange does to the input of an operator.
use distributed_sql.Prelude.{
  ℕ, ◌≡◌, refl, sym, ap, subst, String, Bool, true, false, Option, none, some, Dict, lookup, Result,
  ok, ok-injective, Bool-cases, if◌then◌else◌, ltb, ◌&&◌, not, str_eq, inl, inr,
}
use distributed_sql.Common.Protocol
use distributed_sql.Common.Protocol.{PartitionStrategy}
use distributed_sql.Planner.Types.{Raised}
use distributed_sql.Planner.Values.{Python}
use distributed_sql.Planner.Expressions.{Expressions, nil, cons}
use distributed_sql.Planner.Logical.{
  Plan, scan, project, filter, aggregate, join, limit, order, window, grouping_sets, exchange,
}
use distributed_sql.Physical.{
  JoinDecision, exchanged, left_input, right_input, repartitions_left, repartitions_right,
  is_broadcast, columns, decided, is_empty, is_hash, hash_or_single, count_or_one,
}
use distributed_sql.Physical.Exchanges.Windows.{IsWindowed}

abbrev pub side_of : String → Option JoinDecision → String
side_of build_side none = build_side
side_of build_side (some decision) = decision.build_side

pub decided-side :
    (build_side : String) (found : Option JoinDecision) {decision : JoinDecision}
    → decided found ≡ ok decision
    → side_of build_side found ≡ decision.build_side
decided-side build_side none e = cc
decided-side build_side (some decision) e = ap (λ d. d.build_side) (ok-injective e)

module _ {O : Type 0} where
  -- The plan without its exchanges.
  abbrev pub erased : Plan O → Plan O
  erased (scan id table_name alias schema) = scan id table_name alias schema
  erased (project id input expressions schema) = project id (erased input) expressions schema
  erased (filter id input predicate schema phase) = filter id (erased input) predicate schema phase
  erased (aggregate id input group_by aggregates schema) =
      aggregate id (erased input) group_by aggregates schema
  erased (join id l r join_type condition schema input_limit build_side) =
      join id (erased l) (erased r) join_type condition schema input_limit build_side
  erased (limit id input count schema) = limit id (erased input) count schema
  erased (order id input order_by schema) = order id (erased input) order_by schema
  erased (window id input expressions schema) = window id (erased input) expressions schema
  erased (grouping_sets id input sets aggregates schema) =
      grouping_sets id (erased input) sets aggregates schema
  erased (exchange id input strategy keys count schema) = erased input

  -- The plan with the build sides that were decided.
  abbrev pub oriented : Dict JoinDecision → Plan O → Plan O
  oriented decisions (scan id table_name alias schema) = scan id table_name alias schema
  oriented decisions (project id input expressions schema) =
      project id (oriented decisions input) expressions schema
  oriented decisions (filter id input predicate schema phase) =
      filter id (oriented decisions input) predicate schema phase
  oriented decisions (aggregate id input group_by aggregates schema) =
      aggregate id (oriented decisions input) group_by aggregates schema
  oriented decisions (join id l r join_type condition schema input_limit build_side) =
      join id (oriented decisions l) (oriented decisions r) join_type condition schema input_limit
        (side_of build_side (lookup id decisions))
  oriented decisions (limit id input count schema) =
      limit id (oriented decisions input) count schema
  oriented decisions (order id input order_by schema) =
      order id (oriented decisions input) order_by schema
  oriented decisions (window id input expressions schema) =
      window id (oriented decisions input) expressions schema
  oriented decisions (grouping_sets id input sets aggregates schema) =
      grouping_sets id (oriented decisions input) sets aggregates schema
  oriented decisions (exchange id input strategy keys count schema) =
      exchange id input strategy keys count schema

  abbrev pub IsLogical : Plan O → Type 0
  IsLogical (scan id table_name alias schema) = Unit
  IsLogical (project id input expressions schema) = IsLogical input
  IsLogical (filter id input predicate schema phase) = IsLogical input
  IsLogical (aggregate id input group_by aggregates schema) = IsLogical input
  IsLogical (join id l r join_type condition schema input_limit build_side) =
      IsLogical l × IsLogical r
  IsLogical (limit id input count schema) = IsLogical input
  IsLogical (order id input order_by schema) = IsLogical input
  IsLogical (window id input expressions schema) = IsLogical input
  IsLogical (grouping_sets id input sets aggregates schema) = IsLogical input
  IsLogical (exchange id input strategy keys count schema) = ⊥

  -- Read from an exchange into one partition.
  abbrev pub IsGathered : Plan O → Type 0
  IsGathered (exchange id input Protocol.single keys count schema) = count ≡ 1
  IsGathered _ = ⊥

  -- Read from an exchange into one partition, where there are no keys, or into so many by the hash of
  -- the keys.
  abbrev pub IsSplitBy : ℕ → Expressions O → Plan O → Type 0
  IsSplitBy total keys (exchange id input Protocol.single nil count schema) =
      (count ≡ 1) × (is_empty keys ≡ true)
  IsSplitBy total keys (exchange id input Protocol.hash by count schema) =
      (by ≡ keys) × (count ≡ total)
  IsSplitBy total keys _ = ⊥

  pub exchanged-erased :
      (input : Plan O) (keys : Expressions O) (strategy : PartitionStrategy) (n : ℕ)
      (suffix : String) {output : Plan O}
      → exchanged input keys strategy n suffix ≡ ok output
      → erased output ≡ erased input
  unfolding exchanged
  exchanged-erased input keys strategy n suffix e = elim (Bool-cases (ltb n 1)) [
    | inl small ↦ let e' = rw small at e in cc
    | inr enough ↦ elim (Bool-cases (is_hash strategy && is_empty keys)) [
      | inl keyless ↦ let e' = rw (enough, keyless) at e in cc
      | inr fine ↦ let e' = rw (enough, fine) at e in ap erased (sym (ok-injective e'))
    ]
  ]

module _ {O : Type 0} (py : Python O) (total : ℕ) where
  -- Each aggregate reads rows split by its keys, or all of them where it has none; each sort, limit
  -- and GROUPING SETS reads all rows; each window reads rows split by the
  -- keys that its functions share, or all of them where they share none.
  abbrev pub IsPlaced : Plan O → Type 0
  IsPlaced (scan id table_name alias schema) = Unit
  IsPlaced (project id input expressions schema) = IsPlaced input
  IsPlaced (filter id input predicate schema phase) = IsPlaced input
  IsPlaced (aggregate id input group_by aggregates schema) =
      IsSplitBy total group_by input × IsPlaced input
  IsPlaced (join id l r join_type condition schema input_limit build_side) = IsPlaced l × IsPlaced r
  IsPlaced (limit id input count schema) = IsGathered input × IsPlaced input
  IsPlaced (order id input order_by schema) = IsGathered input × IsPlaced input
  IsPlaced (window id input expressions schema) =
      IsWindowed py total expressions input × IsPlaced input
  IsPlaced (grouping_sets id input sets aggregates schema) = IsGathered input × IsPlaced input
  IsPlaced (exchange id input strategy keys count schema) = IsPlaced input

  pub exchanged-IsSplitBy :
      (input : Plan O) (keys : Expressions O) (suffix : String) {output : Plan O}
      → exchanged input keys (hash_or_single keys) (count_or_one total keys) suffix ≡ ok output
      → IsSplitBy total keys output × (IsPlaced input → IsPlaced output)
  unfolding exchanged
  exchanged-IsSplitBy input nil suffix e =
      subst (λ p. IsSplitBy total nil p × (IsPlaced input → IsPlaced p)) (ok-injective e)
        ((refl, refl), λ h. h)
  exchanged-IsSplitBy input (cons key keys) suffix e = elim (Bool-cases (ltb total 1)) [
    | inl small ↦ let e' = rw small at e in cc
    | inr enough ↦
        let e' = rw enough at e in
        subst (λ p. IsSplitBy total (cons key keys) p × (IsPlaced input → IsPlaced p))
          (ok-injective e') ((refl, refl), λ h. h)
  ]

  pub input-IsPlaced :
      (input : Plan O) (keys : Expressions O) (strategy : PartitionStrategy) (n : ℕ)
      (suffix : String) {output : Plan O}
      → exchanged input keys strategy n suffix ≡ ok output
      → IsPlaced input
      → IsPlaced output
  unfolding exchanged
  input-IsPlaced input keys strategy n suffix e placed = elim (Bool-cases (ltb n 1)) [
    | inl small ↦ let e' = rw small at e in cc
    | inr enough ↦ elim (Bool-cases (is_hash strategy && is_empty keys)) [
      | inl keyless ↦ let e' = rw (enough, keyless) at e in cc
      | inr fine ↦ let e' = rw (enough, fine) at e in subst IsPlaced (ok-injective e') placed
    ]
  ]

  pub exchanged-IsGathered :
      (input : Plan O) (suffix : String) {output : Plan O}
      → exchanged input nil Protocol.single 1 suffix ≡ ok output
      → IsGathered output
  unfolding exchanged
  exchanged-IsGathered input suffix e = subst IsGathered (ok-injective e) refl

  -- What becomes of the input of a join.
  abbrev pub Kept : Plan O → Plan O → Type 0
  Kept input output = (erased output ≡ erased input) × (IsPlaced input → IsPlaced output)

  exchanged-Kept :
      (input : Plan O) (keys : Expressions O) (strategy : PartitionStrategy) (n : ℕ)
      (suffix : String) {output : Plan O}
      → exchanged input keys strategy n suffix ≡ ok output
      → Kept input output
  exchanged-Kept input keys strategy n suffix e = (
    exchanged-erased input keys strategy n suffix e,
    input-IsPlaced input keys strategy n suffix e,
  )

  same-Kept :
      (input : Plan O) {output : Plan O}
      → ◌≡◌ {A = Result Raised (Plan O)} (ok input) (ok output)
      → Kept input output
  same-Kept input e =
      subst (λ p. (erased p ≡ erased input) × (IsPlaced input → IsPlaced p)) (ok-injective e)
        (refl, λ h. h)

  join_input-Kept :
      (splits copies : Bool) (input : Plan O) (keys : Expressions O) (n : ℕ) (suffix : String)
      {output : Plan O}
      → (if splits
          then exchanged input keys Protocol.hash n suffix
          else if copies
          then exchanged input nil Protocol.broadcast n suffix
          else ok input)
        ≡ ok output
      → Kept input output
  join_input-Kept true copies input keys n suffix e =
      exchanged-Kept input keys Protocol.hash n suffix e
  join_input-Kept false true input keys n suffix e =
      exchanged-Kept input nil Protocol.broadcast n suffix e
  join_input-Kept false false input keys n suffix e = same-Kept input e

  pub left_input-Kept :
      (n : ℕ) (decision : JoinDecision) (input : Plan O) {output : Plan O}
      → left_input n decision input ≡ ok output
      → Kept input output
  unfolding left_input
  left_input-Kept n decision input e =
      join_input-Kept (repartitions_left decision.strategy)
        (is_broadcast decision.strategy && str_eq decision.build_side "left") input
        (columns decision.left_keys) n "left" e

  pub right_input-Kept :
      (n : ℕ) (decision : JoinDecision) (input : Plan O) {output : Plan O}
      → right_input n decision input ≡ ok output
      → Kept input output
  unfolding right_input
  right_input-Kept n decision input e =
      join_input-Kept (repartitions_right decision.strategy)
        (is_broadcast decision.strategy && not (str_eq decision.build_side "left")) input
        (columns decision.right_keys) n "right" e
