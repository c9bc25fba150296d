-- ===== src/Planner/Logical.antt =====
-- planner/logical.py: relational operators, with the Exchange of execution/physical.py, which stands
-- among them in a physical plan, and their protocol form. A schema is its list of names and types.
use distributed_sql.Prelude.{
  ℕ, String, Option, none, some, List, [], ◌∷◌, map, Dict, insert, str_concat,
}
use distributed_sql.Common.Protocol
use distributed_sql.Common.Protocol.{PlanNodeType, PartitionStrategy}
use distributed_sql.Planner.Types.{TypeInfo}
use distributed_sql.Planner.Values.{Python}
use distributed_sql.Planner.Expressions.{Expression, Expressions, SortExpressions}
use distributed_sql.Planner.Sql.{sql, sql_all, sql_sorts}

abbrev pub Schema : Type 0
Schema = List (String × TypeInfo)

pub record NamedExpression (O : Type 0) : Type 0 where
  pub name : String
  pub expression : Expression O

-- A physical plan, which is a logical one where no `exchange` occurs.
pub data Plan (O : Type 0) : Type 0 where
  scan : (node_id table_name alias : String) (output_schema : Schema) → Plan O
  project :
      (node_id : String) (input : Plan O) (expressions : List (NamedExpression O))
      (output_schema : Schema)
      → Plan O
  filter :
      (node_id : String) (input : Plan O) (predicate : Expression O) (output_schema : Schema)
      (phase : String)
      → Plan O
  aggregate :
      (node_id : String) (input : Plan O) (group_by : Expressions O)
      (aggregates : List (NamedExpression O)) (output_schema : Schema)
      → Plan O
  join :
      (node_id : String) (left right : Plan O) (join_type : String) (condition : Expression O)
      (output_schema : Schema) (input_limit : Option ℕ) (build_side : String)
      → Plan O
  limit : (node_id : String) (input : Plan O) (count : ℕ) (output_schema : Schema) → Plan O
  order :
      (node_id : String) (input : Plan O) (order_by : SortExpressions O) (output_schema : Schema)
      → Plan O
  window :
      (node_id : String) (input : Plan O) (expressions : List (NamedExpression O))
      (output_schema : Schema)
      → Plan O
  grouping_sets :
      (node_id : String) (input : Plan O) (sets : List (Expressions O))
      (aggregates : List (NamedExpression O)) (output_schema : Schema)
      → Plan O
  exchange :
      (node_id : String) (input : Plan O) (strategy : PartitionStrategy) (keys : Expressions O)
      (partition_count : ℕ) (output_schema : Schema)
      → Plan O

-- The JSON values that the properties of a plan node hold.
pub data Json : Type 0 where
  text : String → Json
  number : ℕ → Json
  texts : List String → Json
  lists : List (List String) → Json

pub data PlanNode : Type 0 where
  leaf :
      (node_id : String) (node_type : PlanNodeType) (output_schema : Schema)
      (properties : Dict Json)
      → PlanNode
  unary :
      (node_id : String) (node_type : PlanNodeType) (output_schema : Schema) (child : PlanNode)
      (properties : Dict Json)
      → PlanNode
  binary :
      (node_id : String) (node_type : PlanNodeType) (output_schema : Schema)
      (first second : PlanNode) (properties : Dict Json)
      → PlanNode

module _ {O : Type 0} where
  abbrev pub node_id_of : Plan O → String
  node_id_of (scan id table_name alias schema) = id
  node_id_of (project id input expressions schema) = id
  node_id_of (filter id input predicate schema phase) = id
  node_id_of (aggregate id input group_by aggregates schema) = id
  node_id_of (join id l r join_type condition schema input_limit build_side) = id
  node_id_of (limit id input count schema) = id
  node_id_of (order id input order_by schema) = id
  node_id_of (window id input expressions schema) = id
  node_id_of (grouping_sets id input sets aggregates schema) = id
  node_id_of (exchange id input strategy keys count schema) = id

  abbrev pub schema_of : Plan O → Schema
  schema_of (scan id table_name alias schema) = schema
  schema_of (project id input expressions schema) = schema
  schema_of (filter id input predicate schema phase) = schema
  schema_of (aggregate id input group_by aggregates schema) = schema
  schema_of (join id l r join_type condition schema input_limit build_side) = schema
  schema_of (limit id input count schema) = schema
  schema_of (order id input order_by schema) = schema
  schema_of (window id input expressions schema) = schema
  schema_of (grouping_sets id input sets aggregates schema) = schema
  schema_of (exchange id input strategy keys count schema) = schema

-- `strategy.value`
abbrev pub strategy_text : PartitionStrategy → String
strategy_text Protocol.single = "single"
strategy_text Protocol.round_robin = "round_robin"
strategy_text Protocol.hash = "hash"
strategy_text Protocol.broadcast = "broadcast"
strategy_text Protocol.unknown = "unknown"

module _ {O : Type 0} (py : Python O) where
  abbrev named_text : NamedExpression O → String
  named_text item = str_concat (sql py item.expression ∷ " AS " ∷ item.name ∷ [])

  abbrev aggregate_text : NamedExpression O → String
  aggregate_text item = sql py item.expression

  abbrev with_limit : Option ℕ → Dict Json → Dict Json
  with_limit none properties = properties
  with_limit (some n) properties = insert "input_limit" (number n) properties

  -- The properties that `to_protocol` gives a node.
  unfoldable pub properties_of : Plan O → Dict Json
  properties_of (scan id table_name alias schema) =
      ("table", text table_name) ∷ ("alias", text alias) ∷ []
  properties_of (project id input expressions schema) =
      ("expressions", texts (map named_text expressions)) ∷ []
  properties_of (filter id input predicate schema phase) =
      ("predicate", text (sql py predicate)) ∷ ("phase", text phase) ∷ []
  properties_of (aggregate id input group_by aggregates schema) =
      ("group_by", texts (sql_all py group_by))
      ∷ ("aggregates", texts (map aggregate_text aggregates))
      ∷ []
  properties_of (join id l r join_type condition schema input_limit build_side) =
      with_limit input_limit (
        ("join_type", text join_type)
        ∷ ("condition", text (sql py condition))
        ∷ ("build_side", text build_side)
        ∷ [])
  properties_of (limit id input count schema) = ("count", number count) ∷ []
  properties_of (order id input order_by schema) = ("order_by", texts (sql_sorts py order_by)) ∷ []
  properties_of (window id input expressions schema) =
      ("expressions", texts (map named_text expressions)) ∷ []
  properties_of (grouping_sets id input sets aggregates schema) =
      ("grouping_sets", lists (map (sql_all py) sets))
      ∷ ("aggregates", texts (map aggregate_text aggregates))
      ∷ []
  properties_of (exchange id input strategy keys count schema) =
      ("strategy", text (strategy_text strategy))
      ∷ ("keys", texts (sql_all py keys))
      ∷ ("partition_count", number count)
      ∷ []

  unfoldable pub to_protocol : Plan O → PlanNode
  unfolding properties_of
  to_protocol (scan id table_name alias schema) =
      leaf id Protocol.scan schema (properties_of (scan id table_name alias schema))
  to_protocol (project id input expressions schema) =
      unary id Protocol.project schema (to_protocol input)
        (properties_of (project id input expressions schema))
  to_protocol (filter id input predicate schema phase) =
      unary id Protocol.filter schema (to_protocol input)
        (properties_of (filter id input predicate schema phase))
  to_protocol (aggregate id input group_by aggregates schema) =
      unary id Protocol.aggregate schema (to_protocol input)
        (properties_of (aggregate id input group_by aggregates schema))
  to_protocol (join id l r join_type condition schema input_limit build_side) =
      binary id Protocol.join schema (to_protocol l) (to_protocol r)
        (properties_of (join id l r join_type condition schema input_limit build_side))
  to_protocol (limit id input count schema) =
      unary id Protocol.limit schema (to_protocol input)
        (properties_of (limit id input count schema))
  to_protocol (order id input order_by schema) =
      unary id Protocol.order schema (to_protocol input)
        (properties_of (order id input order_by schema))
  to_protocol (window id input expressions schema) =
      unary id Protocol.window schema (to_protocol input)
        (properties_of (window id input expressions schema))
  to_protocol (grouping_sets id input sets aggregates schema) =
      unary id Protocol.grouping_sets schema (to_protocol input)
        (properties_of (grouping_sets id input sets aggregates schema))
  to_protocol (exchange id input strategy keys count schema) =
      unary id Protocol.exchange schema (to_protocol input)
        (properties_of (exchange id input strategy keys count schema))
