-- ===== src/Operators/Aggregates/Single.antt =====
-- Without GROUP BY there is one row of aggregates, whatever the input.
use distributed_sql.Prelude.{
  ◌≡◌, refl, sym, ap, ◌∙◌, subst, String, Bool, List, [], ◌∷◌, map, length, Result, ok, >>=-eq-ok,
  ok-injective,
}
use distributed_sql.Planner.Types.{Raised}
use distributed_sql.Planner.Values.{SqlValue, Python}
use distributed_sql.Planner.Evaluate.{Row}
use distributed_sql.Operators.Aggregates.{
  AggregateFunction, AggregateState, add_to_all, add_to_group, hash_groups,
}
use distributed_sql.Operators.Aggregates.Rows.{
  with_aggregates, with_values, group_rows, aggregate_rows, new_states,
}
use distributed_sql.Operators.Joins.{key_values, same_key}

module _ {O : Type 0} (py : Python O) (is_decimal : O → Bool)
    (add_decimals : SqlValue O → SqlValue O → Result Raised (SqlValue O)) where
  -- All rows go into the one group.
  hash_groups-single :
      (new states : List (AggregateState O)) (rows : List (Row O))
      {groups : List (List (SqlValue O) × List (AggregateState O))}
      → hash_groups
          (same_key py)
          new
          (add_to_all py is_decimal add_decimals)
          (key_values py [])
          rows
          (([], states) ∷ [])
        ≡ ok groups
      → (states' : List (AggregateState O)) × (groups ≡ ([], states') ∷ [])
  unfolding hash_groups add_to_group key_values same_key
  hash_groups-single new states [] e = (states, sym (ok-injective e))
  hash_groups-single new states (row ∷ rows) e =
      let (groups', added, e') =
        >>=-eq-ok
          (add_to_group (same_key py) new (add_to_all py is_decimal add_decimals) [] row
            (([], states) ∷ []))
          _ e in
      let (states', counted, same) =
        >>=-eq-ok (add_to_all py is_decimal add_decimals states row) _ added in
      hash_groups-single new states' rows (
        ap
          (hash_groups (same_key py) new (add_to_all py is_decimal add_decimals) (key_values py [])
            rows)
          (ok-injective same)
        ∙ e')

  length-group_rows :
      (blank : Row O) (names aggregates : List String) (key : List (SqlValue O))
      (states : List (AggregateState O)) {output : List (Row O)}
      → group_rows py is_decimal add_decimals blank names aggregates ((key, states) ∷ [])
        ≡ ok output
      → length output ≡ 1
  unfolding group_rows
  length-group_rows blank names aggregates key states e =
      let (row, found, done) =
        >>=-eq-ok
          (with_aggregates py is_decimal add_decimals aggregates states
            (with_values names key blank))
          _ e in
      subst (λ (l : List (Row O)). length l ≡ 1) {x = row ∷ []} (ok-injective done) refl

  -- Where an aggregate without GROUP BY does not raise, it gives exactly one row, also for no rows.
  pub length-aggregate_rows :
      (aggregates : List (String × AggregateFunction O)) (rows : List (Row O))
      {output : List (Row O)}
      → aggregate_rows py is_decimal add_decimals aggregates [] [] rows ≡ ok output
      → length output ≡ 1
  unfolding aggregate_rows group_rows
  length-aggregate_rows aggregates rows e =
      let (groups, grouped, e') = >>=-eq-ok _ _ e in
      let (states, single) =
        hash_groups-single (new_states py is_decimal add_decimals aggregates) _ rows grouped in
      length-group_rows [] [] (map (λ (item : String × AggregateFunction O). item.0) aggregates) []
        states
        (ap
            (λ g.
              group_rows py is_decimal add_decimals [] []
                (map (λ (item : String × AggregateFunction O). item.0) aggregates) g)
            (sym single)
          ∙ e')
