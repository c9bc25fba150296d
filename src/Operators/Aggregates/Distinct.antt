-- ===== src/Operators/Aggregates/Distinct.antt =====
-- A DISTINCT aggregate is the aggregate of the distinct arguments.
use distributed_sql.Prelude.{
  ℕ, suc, ◌≡◌, refl, sym, ap, ◌∙◌, subst, Bool, true, false, ◌||◌, List, [], ◌∷◌, str_eq,
  Bool-cases, inl, inr, Result, ok, err, ◌>>=◌, Result-cases, if◌then◌else◌,
}
use distributed_sql.Planner.Types.{Raised}
use distributed_sql.Planner.Values
use distributed_sql.Planner.Values.{SqlValue, Python}
use distributed_sql.Operators.Aggregates.{
  AggregateFunction, AggregateState, new_state, add_numbers, replaces_minimum, replaces_maximum,
  count_argument, is_seen, add_argument, finish_state,
}

module _ {O : Type 0} (py : Python O) (is_decimal : O → Bool)
    (add_decimals : SqlValue O → SqlValue O → Result Raised (SqlValue O)) where
  abbrev pub add_arguments : List (SqlValue O) → AggregateState O → Result Raised (AggregateState O)
  add_arguments [] st = ok st
  add_arguments (a ∷ rest) st = do
    st' ← add_argument py is_decimal add_decimals a st
    add_arguments rest st'

  -- The arguments that are not NULL, each where it is first met.
  abbrev pub distinct_arguments : List (SqlValue O) → List (SqlValue O) → List (SqlValue O)
  distinct_arguments seen [] = []
  distinct_arguments seen (a ∷ rest) =
      if Values.is_null a
      then distinct_arguments seen rest
      else if is_seen py is_decimal add_decimals a seen
      then distinct_arguments seen rest
      else a ∷ distinct_arguments (a ∷ seen) rest

  abbrev pub plain : AggregateFunction O → AggregateFunction O
  plain function = record function { distinct = false }

  -- The state without what only DISTINCT reads.
  abbrev forget : AggregateState O → AggregateState O
  forget st = record st { function = plain st.function; distinct_values = [] }

  abbrev forgotten : Result Raised (AggregateState O) → Result Raised (AggregateState O)
  forgotten (ok st) = ok (forget st)
  forgotten (err e) = err e

  forget-bind :
      {A : Type 0} (m : Result Raised A) (f : A → AggregateState O)
      → (m >>= λ a. ok (forget (f a))) ≡ forgotten (m >>= λ a. ok (f a))
  forget-bind (ok a) f = refl
  forget-bind (err e) f = refl

  forget-if :
      (b : Bool) (m n m' n' : Result Raised (AggregateState O))
      → m ≡ forgotten m'
      → n ≡ forgotten n'
      → (if b then m else n) ≡ forgotten (if b then m' else n')
  forget-if true m n m' n' e f = e
  forget-if false m n m' n' e f = f

  count_argument-forget :
      (a : SqlValue O) (st : AggregateState O)
      → count_argument py is_decimal add_decimals a (forget st)
        ≡ forgotten (count_argument py is_decimal add_decimals a st)
  unfolding count_argument
  count_argument-forget a st =
      let name = st.function.name in
      forget-if (str_eq name "sum" || str_eq name "avg") _ _ _ _
        (forget-bind (add_numbers py is_decimal add_decimals st.total a)
          (λ total. record st { count = suc st.count; total = total }))
        (forget-if (str_eq name "min") _ _ _ _
          (forget-bind (replaces_minimum py is_decimal add_decimals a st.value)
            (λ b. record st { count = suc st.count; value = if b then a else st.value }))
          (forget-if (str_eq name "max") _ _ _ _
            (forget-bind (replaces_maximum py is_decimal add_decimals a st.value)
              (λ b. record st { count = suc st.count; value = if b then a else st.value }))
            refl))

  -- The function and what was seen are as in another state.
  Keeps : AggregateState O → Result Raised (AggregateState O) → Type 0
  Keeps st (ok st') = (st'.function ≡ st.function) × (st'.distinct_values ≡ st.distinct_values)
  Keeps st (err e) = Unit

  bind-Keeps :
      {A : Type 0} (st : AggregateState O) (m : Result Raised A) (count : ℕ)
      (total value : A → SqlValue O)
      → Keeps st (m >>= λ a. ok (record st { count = count; total = total a; value = value a }))
  unfolding Keeps
  bind-Keeps st (ok a) count total value = (refl, refl)
  bind-Keeps st (err e) count total value = tt

  if-Keeps :
      (st : AggregateState O) (b : Bool) (m n : Result Raised (AggregateState O))
      → Keeps st m
      → Keeps st n
      → Keeps st (if b then m else n)
  if-Keeps st true m n h k = h
  if-Keeps st false m n h k = k

  count_argument-Keeps :
      (a : SqlValue O) (st : AggregateState O)
      → Keeps st (count_argument py is_decimal add_decimals a st)
  unfolding count_argument Keeps
  count_argument-Keeps a st =
      let name = st.function.name in
      if-Keeps st (str_eq name "sum" || str_eq name "avg") _ _
        (bind-Keeps st (add_numbers py is_decimal add_decimals st.total a) (suc st.count)
          (λ total. total) (λ _. st.value))
        (if-Keeps st (str_eq name "min") _ _
          (bind-Keeps st (replaces_minimum py is_decimal add_decimals a st.value) (suc st.count)
            (λ _. st.total) (λ b. if b then a else st.value))
          (if-Keeps st (str_eq name "max") _ _
            (bind-Keeps st (replaces_maximum py is_decimal add_decimals a st.value) (suc st.count)
              (λ _. st.total) (λ b. if b then a else st.value))
            (refl, refl)))

  count_argument-kept :
      (a : SqlValue O) (st : AggregateState O) {st' : AggregateState O}
      → count_argument py is_decimal add_decimals a st ≡ ok st'
      → (st'.function ≡ st.function) × (st'.distinct_values ≡ st.distinct_values)
  unfolding Keeps
  count_argument-kept a st e = subst (Keeps st) e (count_argument-Keeps a st)

  abbrev with_seen : SqlValue O → AggregateState O → AggregateState O
  with_seen a st = record st { distinct_values = a ∷ st.distinct_values }

  add_argument-distinct :
      (a : SqlValue O) (st : AggregateState O)
      → st.function.distinct ≡ true
      → add_argument py is_decimal add_decimals a st ≡ (
          if Values.is_null a
          then ok st
          else if is_seen py is_decimal add_decimals a st.distinct_values
          then ok st
          else count_argument py is_decimal add_decimals a (with_seen a st))
  unfolding add_argument
  add_argument-distinct a st d =
      ap
        (λ b.
          if Values.is_null a
          then ok st
          else if b
          then (if is_seen py is_decimal add_decimals a st.distinct_values
              then ok st
              else count_argument py is_decimal add_decimals a (with_seen a st))
          else count_argument py is_decimal add_decimals a st)
        d

  add_argument-plain :
      (a : SqlValue O) (st : AggregateState O)
      → Values.is_null a ≡ false
      → add_argument py is_decimal add_decimals a (forget st)
        ≡ forgotten (count_argument py is_decimal add_decimals a (with_seen a st))
  unfolding add_argument
  add_argument-plain a st there = rw there (count_argument-forget a (with_seen a st))

  add_arguments-forget :
      (arguments : List (SqlValue O)) (st : AggregateState O)
      → st.function.distinct ≡ true
      → forgotten (add_arguments arguments st)
        ≡ add_arguments (distinct_arguments st.distinct_values arguments) (forget st)
  add_arguments-forget [] st d = refl
  add_arguments-forget (a ∷ arguments) st d =
      let first = add_argument-distinct a st d in
      elim (Bool-cases (Values.is_null a)) [
        | inl missing ↦ rw (first, missing) (add_arguments-forget arguments st d)
        | inr there ↦ elim (Bool-cases (is_seen py is_decimal add_decimals a st.distinct_values)) [
          | inl seen ↦ rw (first, there, seen) (add_arguments-forget arguments st d)
          | inr fresh ↦
              let second = add_argument-plain a st there in
              elim (Result-cases (count_argument py is_decimal add_decimals a (with_seen a st))) [
                | inl (st', done) ↦
                    let (same_function, same_seen) = count_argument-kept a (with_seen a st) done in
                    let later =
                      add_arguments-forget arguments st' (ap (λ f. f.distinct) same_function ∙ d) in
                    rw (first, there, fresh, done, second, done)
                      (later
                        ∙ ap
                            (λ seen. add_arguments (distinct_arguments seen arguments) (forget st'))
                            same_seen)
                | inr (e, raised) ↦ rw (first, there, fresh, raised, second, raised) refl
              ]
        ]
      ]

  finished : Result Raised (AggregateState O) → Result Raised (SqlValue O)
  finished m = m >>= λ st. finish_state py is_decimal add_decimals st

  finished-forget : (m : Result Raised (AggregateState O)) → finished (forgotten m) ≡ finished m
  unfolding finished finish_state
  finished-forget (ok st) = refl
  finished-forget (err e) = refl

  -- A DISTINCT aggregate of some arguments gives, or raises, what the aggregate without DISTINCT does
  -- for those that are not NULL, with each value only where it is first met.
  pub add_arguments-distinct_arguments :
      (function : AggregateFunction O) (arguments : List (SqlValue O))
      → function.distinct ≡ true
      → (do
        st ← add_arguments arguments (new_state function)
        finish_state py is_decimal add_decimals st)
        ≡ (do
          st ← add_arguments (distinct_arguments [] arguments) (new_state (plain function))
          finish_state py is_decimal add_decimals st)
  unfolding finished
  add_arguments-distinct_arguments function arguments d =
      sym (finished-forget (add_arguments arguments (new_state function)))
      ∙ ap finished (add_arguments-forget arguments (new_state function) d)
