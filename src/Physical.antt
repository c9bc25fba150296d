-- ===== src/Physical.antt =====
-- execution/physical.py: exchanges between the operators of a plan, and the stages that it is cut into
-- at the exchanges. ValueError is the exception.
pub mod Exchanges
pub mod Stages
pub mod Tests
use Prim.Native.Char.{code}
use Prim.Native.String.{String}
use distributed_sql.Prelude.{
  ℕ, zero, suc, ◌==◌, ltb, Bool, true, false, not, ◌&&◌, ◌||◌, Option, none, some, List, [], ◌∷◌,
  all, str_eq, str_concat, Dict, lookup, insert, Result, ok, err, ◌>>=◌, if◌then◌else◌,
}
use distributed_sql.Common.Protocol
use distributed_sql.Common.Protocol.{PartitionStrategy}
use distributed_sql.Planner.Types.{Raised, value_error}
use distributed_sql.Planner.Values.{Python}
use distributed_sql.Planner.Expressions
use distributed_sql.Planner.Expressions.{Expression, Expressions, nil, cons}
use distributed_sql.Planner.Sql.{sql, sql_all}
use distributed_sql.Planner.Logical.{
  Plan, NamedExpression, scan, project, filter, aggregate, join, limit, order, window,
  grouping_sets, exchange, node_id_of, schema_of,
}

pub data JoinStrategy : Type 0 where
  reuse broadcast repartition_left repartition_right repartition_both : JoinStrategy

-- What the exchanges read of a `JoinDecision`.
pub record JoinDecision : Type 0 where
  pub node_id : String
  pub build_side : String
  pub strategy : JoinStrategy
  pub left_keys : List String
  pub right_keys : List String

-- `name.partition(".")`: what is before the first dot, and what is after it.
abbrev split_dot : String → String × String
split_dot String.[] = ("", "")
split_dot (String.◌∷◌ c name) =
    let parts = split_dot name in
    if code c == b'.' then ("", name) else (String.◌∷◌ c parts.0, parts.1)

abbrev column_of : {O : Type 0} → String × String → Expression O
column_of (source, name) =
    if str_eq name ""
    then Expressions.column source "" (record { data_type = Protocol.null; nullable = true })
    else Expressions.column name source (record { data_type = Protocol.null; nullable = true })

-- `_columns`
abbrev pub columns : {O : Type 0} → List String → Expressions O
columns [] = nil
columns (name ∷ names) = cons (column_of (split_dot name)) (columns names)

abbrev pub is_hash : PartitionStrategy → Bool
is_hash Protocol.hash = true
is_hash _ = false

abbrev pub repartitions_left : JoinStrategy → Bool
repartitions_left repartition_left = true
repartitions_left repartition_both = true
repartitions_left _ = false

abbrev pub repartitions_right : JoinStrategy → Bool
repartitions_right repartition_right = true
repartitions_right repartition_both = true
repartitions_right _ = false

abbrev pub is_broadcast : JoinStrategy → Bool
is_broadcast broadcast = true
is_broadcast _ = false

abbrev pub by_node : List JoinDecision → Dict JoinDecision → Dict JoinDecision
by_node [] found = found
by_node (decision ∷ decisions) found = by_node decisions (insert decision.node_id decision found)

abbrev pub same_texts : List String → List String → Bool
same_texts [] [] = true
same_texts (s ∷ ss) (t ∷ ts) = str_eq s t && same_texts ss ts
same_texts _ _ = false

-- `Join.__post_init__`, whenever a join is made.
abbrev pub sided : String → Result Raised Unit
sided build_side =
    if str_eq build_side "left" || str_eq build_side "right" then ok tt else err value_error

abbrev pub decided : Option JoinDecision → Result Raised JoinDecision
decided none = err value_error
decided (some decision) = ok decision

module _ {O : Type 0} where
  abbrev pub is_empty : Expressions O → Bool
  is_empty nil = true
  is_empty (cons e rest) = false

  -- `_exchange`, with the checks of `Exchange.__post_init__`.
  unfoldable pub exchanged :
      Plan O → Expressions O → PartitionStrategy → ℕ → String → Result Raised (Plan O)
  exchanged input keys strategy partition_count suffix =
      if ltb partition_count 1
      then err value_error
      else if is_hash strategy && is_empty keys
      then err value_error
      else ok (
          exchange (str_concat ("exchange_" ∷ node_id_of input ∷ "_" ∷ suffix ∷ [])) input strategy
            keys partition_count (schema_of input))

  -- The left input of a join, and the right one: where it is repartitioned or broadcast.
  unfoldable pub left_input : ℕ → JoinDecision → Plan O → Result Raised (Plan O)
  unfolding exchanged
  left_input partition_count decision input =
      if repartitions_left decision.strategy
      then exchanged input (columns decision.left_keys) Protocol.hash partition_count "left"
      else if is_broadcast decision.strategy && str_eq decision.build_side "left"
      then exchanged input nil Protocol.broadcast partition_count "left"
      else ok input

  unfoldable pub right_input : ℕ → JoinDecision → Plan O → Result Raised (Plan O)
  unfolding exchanged
  right_input partition_count decision input =
      if repartitions_right decision.strategy
      then exchanged input (columns decision.right_keys) Protocol.hash partition_count "right"
      else if is_broadcast decision.strategy && not (str_eq decision.build_side "left")
      then exchanged input nil Protocol.broadcast partition_count "right"
      else ok input

  abbrev pub hash_or_single : Expressions O → PartitionStrategy
  hash_or_single nil = Protocol.single
  hash_or_single (cons e rest) = Protocol.hash

  abbrev pub count_or_one : ℕ → Expressions O → ℕ
  count_or_one partition_count nil = 1
  count_or_one partition_count (cons e rest) = partition_count

  abbrev pub partition_by : Expression O → Expressions O
  partition_by (Expressions.window_function function keys order_by frame) = keys
  partition_by _ = nil

module _ {O : Type 0} (py : Python O) where
  -- `_window_partition_keys`: the expressions of a window operator are window functions.
  unfoldable pub window_partition_keys : List (NamedExpression O) → Expressions O
  window_partition_keys [] = nil
  window_partition_keys (first ∷ rest) =
      let keys = partition_by first.expression in
      if is_empty keys
      then nil
      else if all (λ item. same_texts (sql_all py (partition_by item.expression)) (sql_all py keys))
          rest
      then keys
      else nil

  -- The inner function `visit` of `materialize_exchanges`, with `_replace_children`. An exchange is
  -- no logical operator, and is left as it is.
  unfoldable pub visit : ℕ → Dict JoinDecision → Plan O → Result Raised (Plan O)
  unfolding exchanged left_input right_input window_partition_keys
  visit n decisions (scan id table_name alias schema) = ok (scan id table_name alias schema)
  visit n decisions (project id input expressions schema) = do
    input' ← visit n decisions input
    ok (project id input' expressions schema)
  visit n decisions (filter id input predicate schema phase) = do
    input' ← visit n decisions input
    ok (filter id input' predicate schema phase)
  visit n decisions (join id l r join_type condition schema input_limit build_side) = do
    l' ← visit n decisions l
    r' ← visit n decisions r
    replaced ← sided build_side
    decision ← decided (lookup id decisions)
    l'' ← left_input n decision l'
    r'' ← right_input n decision r'
    oriented ← sided decision.build_side
    ok (join id l'' r'' join_type condition schema input_limit decision.build_side)
  visit n decisions (aggregate id input group_by aggregates schema) = do
    input' ← visit n decisions input
    input'' ←
        exchanged input' group_by (hash_or_single group_by) (count_or_one n group_by) "aggregate"
    ok (aggregate id input'' group_by aggregates schema)
  visit n decisions (grouping_sets id input sets aggregates schema) = do
    input' ← visit n decisions input
    input'' ← exchanged input' nil Protocol.single 1 "global"
    ok (grouping_sets id input'' sets aggregates schema)
  visit n decisions (order id input order_by schema) = do
    input' ← visit n decisions input
    input'' ← exchanged input' nil Protocol.single 1 "global"
    ok (order id input'' order_by schema)
  visit n decisions (window id input expressions schema) = do
    input' ← visit n decisions input
    let keys = window_partition_keys expressions
    input'' ← exchanged input' keys (hash_or_single keys) (count_or_one n keys) "window"
    ok (window id input'' expressions schema)
  visit n decisions (limit id input count schema) = do
    input' ← visit n decisions input
    input'' ← exchanged input' nil Protocol.single 1 "limit"
    ok (limit id input'' count schema)
  visit n decisions (exchange id input strategy keys count schema) = do
    input' ← visit n decisions input
    ok (exchange id input strategy keys count schema)

  unfoldable pub materialize_exchanges : List JoinDecision → ℕ → Plan O → Result Raised (Plan O)
  unfolding visit
  materialize_exchanges decisions partition_count plan =
      if ltb partition_count 1
      then err value_error
      else visit partition_count (by_node decisions []) plan
