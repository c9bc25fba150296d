-- ===== src/Optimizer/Folding/Constant.antt =====
-- An expression without columns, aggregates and window functions has one value on all rows.
use distributed_sql.Prelude.{
  ◌≡◌, refl, Bool, true, false, List, [], ◌∷◌, ◌++◌, any, >>=-congr, arith,
}
use distributed_sql.Planner.Values.{SqlValue, Python}
use distributed_sql.Planner.Expressions.{
  Expression, Expressions, Branches, literal, column, cast, unary, binary, is_null, in_list,
  between, like, case, scalar_function, aggregate_function, window_function, nil, cons, end, when,
}
use distributed_sql.Planner.Evaluate.{Row, evaluate, evaluate_all, find_option, find_branch}
use distributed_sql.Optimizer.Utils.{walk_expression, walk_all, walk_branches, varies, is_constant}

any-append_left :
    {A : Type 0} (p : A → Bool) (xs ys : List A) → any p (xs ++ ys) ≡ false → any p xs ≡ false
any-append_left p [] ys h = refl
any-append_left p (x ∷ xs) ys h = ground (arith, any-append_left p xs ys)

any-append_right :
    {A : Type 0} (p : A → Bool) (xs ys : List A) → any p (xs ++ ys) ≡ false → any p ys ≡ false
any-append_right p [] ys h = h
any-append_right p (x ∷ xs) ys h = ground (arith, any-append_right p xs ys)

module _ {O : Type 0} (py : Python O) (row row' : Row O) where
  mutual
    unfolding evaluate walk_expression

    same_value :
        (e : Expression O)
        → any varies (walk_expression e) ≡ false
        → evaluate py e row ≡ evaluate py e row'
    same_value (literal value t) h = refl
    same_value (column name source t) h = cc
    same_value (cast e target implicit) h = rw (same_value e h)
    same_value (unary operator e t) h = rw (same_value e h)
    same_value (binary operator l r t) h = rw (
      same_value l (any-append_left varies (walk_expression l) (walk_expression r) h),
      same_value r (any-append_right varies (walk_expression l) (walk_expression r) h),
    )
    same_value (is_null e negated) h = rw (same_value e h)
    same_value (in_list e options negated) h =
        >>=-congr (same_value e (any-append_left varies (walk_expression e) (walk_all options) h))
          (λ value. rw (
            same_option options (any-append_right varies (walk_expression e) (walk_all options) h)
              value negated false))
    same_value (between e low high negated) h =
        let rest =
          any-append_right varies (walk_expression e) (walk_expression low ++ walk_expression high)
            h in
        rw (
          same_value e (
              any-append_left varies (walk_expression e)
                (walk_expression low ++ walk_expression high) h),
          same_value low (any-append_left varies (walk_expression low) (walk_expression high) rest),
          same_value high
              (any-append_right varies (walk_expression low) (walk_expression high) rest),
        )
    same_value (like e pat negated) h = rw (
      same_value e (any-append_left varies (walk_expression e) (walk_expression pat) h),
      same_value pat (any-append_right varies (walk_expression e) (walk_expression pat) h),
    )
    same_value (case branches default t) h =
        >>=-congr
          (same_branch branches
            (any-append_left varies (walk_branches branches) (walk_expression default) h))
          (λ found.
            let rest =
              same_value default
                (any-append_right varies (walk_branches branches) (walk_expression default) h) in
            ground arith)
    same_value (scalar_function name arguments t) h = rw (same_values arguments h)
    same_value (aggregate_function name arguments t distinct) h = cc
    same_value (window_function f ps os frame) h = cc

    same_values :
        (es : Expressions O)
        → any varies (walk_all es) ≡ false
        → evaluate_all py es row ≡ evaluate_all py es row'
    same_values nil h = refl
    same_values (cons e es) h = rw (
      same_value e (any-append_left varies (walk_expression e) (walk_all es) h),
      same_values es (any-append_right varies (walk_expression e) (walk_all es) h),
    )

    same_option :
        (es : Expressions O)
        → any varies (walk_all es) ≡ false
        → (value : SqlValue O) (negated saw_null : Bool)
        → find_option py es row value negated saw_null
          ≡ find_option py es row' value negated saw_null
    same_option nil h value negated saw = refl
    same_option (cons e es) h value negated saw =
        let rest = any-append_right varies (walk_expression e) (walk_all es) h in
        >>=-congr (same_value e (any-append_left varies (walk_expression e) (walk_all es) h))
          (λ candidate.
            rw (same_option es rest value negated true, same_option es rest value negated saw))

    same_branch :
        (bs : Branches O)
        → any varies (walk_branches bs) ≡ false
        → find_branch py bs row ≡ find_branch py bs row'
    same_branch end h = refl
    same_branch (when c v bs) h =
        let rest =
          any-append_right varies (walk_expression c) (walk_expression v ++ walk_branches bs) h in
        >>=-congr
          (same_value c
            (any-append_left varies (walk_expression c) (walk_expression v ++ walk_branches bs) h))
          (λ found. rw (
            same_value v (any-append_left varies (walk_expression v) (walk_branches bs) rest),
            same_branch bs (any-append_right varies (walk_expression v) (walk_branches bs) rest),
          ))

  pub is_constant-evaluate :
      (e : Expression O) → is_constant e ≡ true → evaluate py e row ≡ evaluate py e row'
  unfolding is_constant
  is_constant-evaluate e h = same_value e (ground arith)
