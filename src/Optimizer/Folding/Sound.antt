-- ===== src/Optimizer/Folding/Sound.antt =====
-- Constant folding keeps the value of an expression on every row where it has one.
use distributed_sql.Prelude.{
  subst, ◌≡◌, Bool, true, false, none, some, ok, ok-injective, ◌>>=◌, >>=-eq-ok, Keeps, Keeps-refl,
  Keeps-bind, Keeps-if,
}
use distributed_sql.Planner.Values
use distributed_sql.Planner.Values.{
  SqlValue, null, bool, int, str, other, Python, is_true, py_equals,
}
use distributed_sql.Planner.Expressions.{
  Expression, Expressions, Branches, literal, column, cast, unary, binary, is_null, in_list,
  between, like, case, scalar_function, aggregate_function, window_function, nil, cons, end, when,
}
use distributed_sql.Planner.Evaluate.{Row, evaluate, evaluate_all, find_option, find_branch}
use distributed_sql.Optimizer.Utils.{map_expression, map_all, map_branches}
use distributed_sql.Optimizer.Folding.{fold, fold_expression}
use distributed_sql.Optimizer.Folding.Node.{
  IsFoldable, AllFoldable, BranchesFoldable, Same, constant_step, strict_step,
}

module _ {O : Type 0} (py : Python O) (row : Row O) where
  mutual
    unfolding evaluate fold_expression IsFoldable map_expression

    fold-Same :
        (e e' : Expression O)
        → IsFoldable py row e
        → map_expression (fold_expression py) e ≡ ok e'
        → Same py row e e'
    fold-Same (literal value t) e' g h =
        constant_step py row (literal value t) (literal value t) e' (Keeps-refl _) h
    fold-Same (column name source t) e' g h =
        constant_step py row (column name source t) (column name source t) e' (Keeps-refl _) h
    fold-Same (cast e target implicit) e' g h =
        let (x, mx, f) =
          >>=-eq-ok (map_expression (fold_expression py) e)
            (λ x. fold_expression py (cast x target implicit)) h in
        constant_step py row (cast e target implicit) (cast x target implicit) e'
          (Keeps-bind (evaluate py e row) (evaluate py x row) _ _ (fold-Same e x g mx)
            (λ a. Keeps-refl _))
          f
    fold-Same (unary operator e t) e' g h =
        let (x, mx, f) =
          >>=-eq-ok (map_expression (fold_expression py) e)
            (λ x. fold_expression py (unary operator x t)) h in
        constant_step py row (unary operator e t) (unary operator x t) e'
          (Keeps-bind (evaluate py e row) (evaluate py x row) _ _ (fold-Same e x g mx)
            (λ a. Keeps-refl _))
          f
    fold-Same (binary operator l r t) e' g h =
        let (x, mx, h') =
          >>=-eq-ok (map_expression (fold_expression py) l)
            (λ x. map_expression (fold_expression py) r >>= λ y.
              fold_expression py (binary operator x y t))
            h in
        let (y, my, f) =
          >>=-eq-ok (map_expression (fold_expression py) r)
            (λ y. fold_expression py (binary operator x y t)) h' in
        strict_step py row operator l r x y e' t g.0 (fold-Same l x g.1 mx) (fold-Same r y g.2 my) f
    fold-Same (is_null e negated) e' g h =
        let (x, mx, f) =
          >>=-eq-ok (map_expression (fold_expression py) e)
            (λ x. fold_expression py (is_null x negated)) h in
        constant_step py row (is_null e negated) (is_null x negated) e'
          (Keeps-bind (evaluate py e row) (evaluate py x row) _ _ (fold-Same e x g mx)
            (λ a. Keeps-refl _))
          f
    fold-Same (in_list e options negated) e' g h =
        let (x, mx, h') =
          >>=-eq-ok (map_expression (fold_expression py) e)
            (λ x. map_all (fold_expression py) options >>= λ os.
              fold_expression py (in_list x os negated))
            h in
        let (os, mos, f) =
          >>=-eq-ok (map_all (fold_expression py) options)
            (λ os. fold_expression py (in_list x os negated)) h' in
        constant_step py row (in_list e options negated) (in_list x os negated) e'
          (Keeps-bind (evaluate py e row) (evaluate py x row) _ _ (fold-Same e x g.0 mx) (λ a.
            Keeps-if (Values.is_null a) _ _ _ _ (Keeps-refl _)
              (options-Same options os g.1 mos a negated false)))
          f
    fold-Same (between e low high negated) e' g h =
        let (x, mx, h') =
          >>=-eq-ok (map_expression (fold_expression py) e)
            (λ x. map_expression (fold_expression py) low >>= λ y.
              map_expression (fold_expression py) high >>= λ z.
              fold_expression py (between x y z negated))
            h in
        let (y, my, h'') =
          >>=-eq-ok (map_expression (fold_expression py) low)
            (λ y. map_expression (fold_expression py) high >>= λ z.
              fold_expression py (between x y z negated))
            h' in
        let (z, mz, f) =
          >>=-eq-ok (map_expression (fold_expression py) high)
            (λ z. fold_expression py (between x y z negated)) h'' in
        constant_step py row (between e low high negated) (between x y z negated) e'
          (Keeps-bind (evaluate py e row) (evaluate py x row) _ _ (fold-Same e x g.0 mx) (λ a.
            Keeps-bind (evaluate py low row) (evaluate py y row) _ _ (fold-Same low y g.1 my) (λ b.
              Keeps-bind (evaluate py high row) (evaluate py z row) _ _ (fold-Same high z g.2 mz)
                (λ c. Keeps-refl _))))
          f
    fold-Same (like e pat negated) e' g h =
        let (x, mx, h') =
          >>=-eq-ok (map_expression (fold_expression py) e)
            (λ x. map_expression (fold_expression py) pat >>= λ y.
              fold_expression py (like x y negated))
            h in
        let (y, my, f) =
          >>=-eq-ok (map_expression (fold_expression py) pat)
            (λ y. fold_expression py (like x y negated)) h' in
        constant_step py row (like e pat negated) (like x y negated) e'
          (Keeps-bind (evaluate py e row) (evaluate py x row) _ _ (fold-Same e x g.0 mx) (λ a.
            Keeps-bind (evaluate py pat row) (evaluate py y row) _ _ (fold-Same pat y g.1 my)
              (λ b. Keeps-refl _)))
          f
    fold-Same (case branches default t) e' g h =
        let (bs, mbs, h') =
          >>=-eq-ok (map_branches (fold_expression py) branches)
            (λ bs.
              map_expression (fold_expression py) default >>= λ d. fold_expression py (case bs d t))
            h in
        let (d, md, f) =
          >>=-eq-ok (map_expression (fold_expression py) default)
            (λ d. fold_expression py (case bs d t)) h' in
        constant_step py row (case branches default t) (case bs d t) e'
          (Keeps-bind (find_branch py branches row) (find_branch py bs row) _ _
            (branches-Same branches bs g.0 mbs)
            (elim [ none ↦ fold-Same default d g.1 md | some value ↦ Keeps-refl _ ]))
          f
    fold-Same (scalar_function name arguments t) e' g h =
        let (args, margs, f) =
          >>=-eq-ok (map_all (fold_expression py) arguments)
            (λ args. fold_expression py (scalar_function name args t)) h in
        constant_step py row (scalar_function name arguments t) (scalar_function name args t) e'
          (Keeps-bind (evaluate_all py arguments row) (evaluate_all py args row) _ _
            (arguments-Same arguments args g margs) (λ vs. Keeps-refl _))
          f
    fold-Same (aggregate_function name arguments t distinct) e' g h = absurd g
    fold-Same (window_function function ps os frame) e' g h = absurd g

    arguments-Same :
        (es es' : Expressions O)
        → AllFoldable py row es
        → map_all (fold_expression py) es ≡ ok es'
        → Keeps (evaluate_all py es row) (evaluate_all py es' row)
    arguments-Same nil es' g h =
        subst (λ x. Keeps (evaluate_all py nil row) (evaluate_all py x row)) (ok-injective h)
          (Keeps-refl _)
    arguments-Same (cons e es) es' g h =
        let (x, mx, h') =
          >>=-eq-ok (map_expression (fold_expression py) e)
            (λ x. map_all (fold_expression py) es >>= λ r. ok (cons x r)) h in
        let (xs, mxs, f) = >>=-eq-ok (map_all (fold_expression py) es) (λ r. ok (cons x r)) h' in
        subst (λ y. Keeps (evaluate_all py (cons e es) row) (evaluate_all py y row))
          (ok-injective f)
          (Keeps-bind (evaluate py e row) (evaluate py x row) _ _ (fold-Same e x g.0 mx) (λ a.
            Keeps-bind (evaluate_all py es row) (evaluate_all py xs row) _ _
              (arguments-Same es xs g.1 mxs) (λ b. Keeps-refl _)))

    options-Same :
        (es es' : Expressions O)
        → AllFoldable py row es
        → map_all (fold_expression py) es ≡ ok es'
        → (value : SqlValue O) (negated saw_null : Bool)
        → Keeps
            (find_option py es row value negated saw_null)
            (find_option py es' row value negated saw_null)
    options-Same nil es' g h value negated saw =
        subst
          (λ y.
            Keeps (find_option py nil row value negated saw)
              (find_option py y row value negated saw))
          (ok-injective h) (Keeps-refl _)
    options-Same (cons e es) es' g h value negated saw =
        let (x, mx, h') =
          >>=-eq-ok (map_expression (fold_expression py) e)
            (λ x. map_all (fold_expression py) es >>= λ r. ok (cons x r)) h in
        let (xs, mxs, f) = >>=-eq-ok (map_all (fold_expression py) es) (λ r. ok (cons x r)) h' in
        subst
          (λ y.
            Keeps (find_option py (cons e es) row value negated saw)
              (find_option py y row value negated saw))
          (ok-injective f)
          (Keeps-bind (evaluate py e row) (evaluate py x row) _ _ (fold-Same e x g.0 mx) (λ a.
            Keeps-if (Values.is_null a) _ _ _ _ (options-Same es xs g.1 mxs value negated true) (
              Keeps-if (py_equals py a value) _ _ _ _ (Keeps-refl _)
                (options-Same es xs g.1 mxs value negated saw))))

    branches-Same :
        (bs bs' : Branches O)
        → BranchesFoldable py row bs
        → map_branches (fold_expression py) bs ≡ ok bs'
        → Keeps (find_branch py bs row) (find_branch py bs' row)
    branches-Same end bs' g h =
        subst (λ y. Keeps (find_branch py end row) (find_branch py y row)) (ok-injective h)
          (Keeps-refl _)
    branches-Same (when c v bs) bs' g h =
        let (x, mx, h') =
          >>=-eq-ok (map_expression (fold_expression py) c)
            (λ x. map_expression (fold_expression py) v >>= λ y.
              map_branches (fold_expression py) bs >>= λ r. ok (when x y r))
            h in
        let (y, my, h'') =
          >>=-eq-ok (map_expression (fold_expression py) v)
            (λ y. map_branches (fold_expression py) bs >>= λ r. ok (when x y r)) h' in
        let (r, mr, f) =
          >>=-eq-ok (map_branches (fold_expression py) bs) (λ r. ok (when x y r)) h'' in
        subst (λ k. Keeps (find_branch py (when c v bs) row) (find_branch py k row))
          (ok-injective f)
          (Keeps-bind (evaluate py c row) (evaluate py x row) _ _ (fold-Same c x g.0 mx) (λ a.
            Keeps-if (is_true a) _ _ _ _
              (Keeps-bind (evaluate py v row) (evaluate py y row) _ _ (fold-Same v y g.1 my)
                (λ b. Keeps-refl _))
              (branches-Same bs r g.2 mr)))

-- Where an expression has a value on a row, and folding returns an expression, that one has the same
-- value there. The operands of its ANDs and ORs are truth values on the row, and it holds no
-- aggregate and no window function.
pub evaluate-fold :
    {O : Type 0} (py : Python O) (row : Row O) (e e' : Expression O) (v : SqlValue O)
    → IsFoldable py row e
    → fold py e ≡ ok e'
    → evaluate py e row ≡ ok v
    → evaluate py e' row ≡ ok v
unfolding fold
evaluate-fold py row e e' v g h p = (fold-Same py row e e' g h).at v p
