-- ===== src/Operators/Aggregates.antt =====
-- `_AggregateState`, and the operators that group rows: HashAggregateOperator, SortAggregateOperator
-- and GroupingSetsOperator.
pub mod Distinct
pub mod Groups
pub mod Streams
pub mod Rows
pub mod Single
use distributed_sql.Prelude.{
  ℕ, zero, suc, ◌+◌, ◌==◌, String, Bool, true, false, ◌&&◌, ◌||◌, Option, none, some, List, [], ◌∷◌,
  ◌++◌, any, str_eq, insert, Result, ok, err, ◌>>=◌, if◌then◌else◌,
}
use distributed_sql.Prelude.Int.{ℤ, pos}
use distributed_sql.Planner.Types.{Raised}
use distributed_sql.Planner.Values
use distributed_sql.Planner.Values.{SqlValue, Python, py_equals, py_less, numeric_operation}
use distributed_sql.Planner.Expressions.{Expression, Expressions, nil, cons}
use distributed_sql.Planner.Evaluate.{Row, evaluate}

pub record AggregateFunction (O : Type 0) : Type 0 where
  pub name : String
  pub arguments : Expressions O
  pub distinct : Bool

-- `_AggregateState`
pub record AggregateState (O : Type 0) : Type 0 where
  pub function : AggregateFunction O
  pub count : ℕ
  pub total : SqlValue O
  pub value : SqlValue O
  pub distinct_values : List (SqlValue O)

abbrev pub new_state : {O : Type 0} → AggregateFunction O → AggregateState O
new_state function = record {
  function = function;
  count = 0;
  total = SqlValue.int (pos 0);
  value = SqlValue.null;
  distinct_values = [];
}

-- `add_decimals left right` is `Decimal(str(left)) + Decimal(str(right))`.
module _ {O : Type 0} (py : Python O) (is_decimal : O → Bool)
    (add_decimals : SqlValue O → SqlValue O → Result Raised (SqlValue O)) where
  abbrev pub is_decimal_value : SqlValue O → Bool
  is_decimal_value (SqlValue.other o) = is_decimal o
  is_decimal_value _ = false

  unfoldable pub add_numbers : SqlValue O → SqlValue O → Result Raised (SqlValue O)
  add_numbers total number =
      if is_decimal_value total || is_decimal_value number
      then add_decimals total number
      else numeric_operation py Values.add total number

  -- `self.value is None or argument < self.value`
  abbrev pub replaces_minimum : SqlValue O → SqlValue O → Result Raised Bool
  replaces_minimum argument value =
      if Values.is_null value then ok true else py_less py argument value

  abbrev pub replaces_maximum : SqlValue O → SqlValue O → Result Raised Bool
  replaces_maximum argument value =
      if Values.is_null value then ok true else py_less py value argument

  -- From `self.count += 1` on.
  unfoldable pub count_argument : SqlValue O → AggregateState O → Result Raised (AggregateState O)
  unfolding add_numbers
  count_argument argument st =
      let name = st.function.name in
      if str_eq name "sum" || str_eq name "avg"
      then (do
        total ← add_numbers st.total argument
        ok (record st { count = suc st.count; total = total }))
      else if str_eq name "min"
      then (do
        smaller ← replaces_minimum argument st.value
        ok (record st { count = suc st.count; value = if smaller then argument else st.value }))
      else if str_eq name "max"
      then (do
        larger ← replaces_maximum argument st.value
        ok (record st { count = suc st.count; value = if larger then argument else st.value }))
      else ok (record st { count = suc st.count })

  abbrev pub is_seen : SqlValue O → List (SqlValue O) → Bool
  is_seen argument seen = any (λ value. py_equals py argument value) seen

  -- What `add` does with the argument.
  unfoldable pub add_argument : SqlValue O → AggregateState O → Result Raised (AggregateState O)
  unfolding count_argument
  add_argument argument st =
      if Values.is_null argument
      then ok st
      else if st.function.distinct
      then (if is_seen argument st.distinct_values
          then ok st
          else count_argument argument
              (record st { distinct_values = argument ∷ st.distinct_values }))
      else count_argument argument st

  -- `self.function.arguments[0].evaluate(row) if self.function.arguments else 1`
  abbrev pub argument_of : Expressions O → Row O → Result Raised (SqlValue O)
  argument_of nil row = ok (SqlValue.int (pos 1))
  argument_of (cons e rest) row = evaluate py e row

  unfoldable pub add_row : AggregateState O → Row O → Result Raised (AggregateState O)
  unfolding add_argument
  add_row st row = do argument ← argument_of st.function.arguments row; add_argument argument st

  unfoldable pub finish_state : AggregateState O → Result Raised (SqlValue O)
  finish_state st =
      let name = st.function.name in
      if str_eq name "count"
      then ok (SqlValue.int (pos st.count))
      else if str_eq name "sum"
      then ok (if st.count == 0 then SqlValue.null else st.total)
      else if str_eq name "avg"
      then (if st.count == 0
          then ok SqlValue.null
          else numeric_operation py Values.divide st.total (SqlValue.int (pos st.count)))
      else ok st.value

  -- `for state in states: state.add(row)`
  unfoldable pub add_to_all :
      List (AggregateState O) → Row O → Result Raised (List (AggregateState O))
  unfolding add_row
  add_to_all [] row = ok []
  add_to_all (st ∷ states) row = do
    st' ← add_row st row
    rest ← add_to_all states row
    ok (st' ∷ rest)

-- Grouping: `S` stands for the list of the states of a group, `new` for `_new_states()`, and `add` for
-- the loop that adds a row to each of them.
module _ {R K S : Type 0} (same : K → K → Bool) (new : S) (add : S → R → Result Raised S) where
  -- `states = groups.setdefault(key, self._new_states())`, and the row added to them.
  unfoldable pub add_to_group : K → R → List (K × S) → Result Raised (List (K × S))
  add_to_group key row [] = do states ← add new row; ok ((key, states) ∷ [])
  add_to_group key row ((at, states) ∷ groups) =
      if same at key
      then (do states' ← add states row; ok ((at, states') ∷ groups))
      else (do rest ← add_to_group key row groups; ok ((at, states) ∷ rest))

  -- The loop over the rows of HashAggregateOperator, and of each grouping set.
  unfoldable pub hash_groups :
      (R → Result Raised K) → List R → List (K × S) → Result Raised (List (K × S))
  unfolding add_to_group
  hash_groups key_of [] groups = ok groups
  hash_groups key_of (row ∷ rows) groups = do
    key ← key_of row
    groups' ← add_to_group key row groups
    hash_groups key_of rows groups'

  -- The loop over the sorted rows of SortAggregateOperator: the current key with its states, and
  -- the groups that are finished.
  unfoldable pub sort_groups :
      (R → Result Raised K) → List R → Option (K × S) → Result Raised (List (K × S))
  sort_groups key_of [] none = ok []
  sort_groups key_of [] (some group) = ok (group ∷ [])
  sort_groups key_of (row ∷ rows) none = do
    key ← key_of row
    states ← add new row
    sort_groups key_of rows (some (key, states))
  sort_groups key_of (row ∷ rows) (some (current_key, states)) = do
    key ← key_of row
    (if same key current_key
        then (do states' ← add states row; sort_groups key_of rows (some (current_key, states')))
        else (do
          fresh ← add new row
          rest ← sort_groups key_of rows (some (key, fresh))
          ok ((current_key, states) ∷ rest)))
