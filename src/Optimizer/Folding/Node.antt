-- ===== src/Optimizer/Folding/Node.antt =====
-- One node of constant folding keeps the value of its expression.
use distributed_sql.Prelude.{
  subst, ◌≡◌, refl, sym, ap, ◌∙◌, true, false, not, ◌||◌, [], Result, ok, ok-injective, ◌>>=◌,
  >>=-eq-ok, Keeps, Keeps-refl, Keeps-bind, arith, inl, inr, Bool-cases,
}
use distributed_sql.Planner.Types.{Raised, TypeInfo}
use distributed_sql.Planner.Values.{SqlValue, null, bool, Python}
use distributed_sql.Planner.Expressions.{
  Expression, Expressions, Branches, literal, column, cast, unary, binary, is_null, in_list,
  between, like, case, scalar_function, aggregate_function, window_function, nil, cons, end, when,
  BinaryOperator, and, or, type_info,
}
use distributed_sql.Planner.Evaluate.{Row, evaluate, sql_and, sql_or, binary_value}
use distributed_sql.Optimizer.Utils.{is_constant, is_literal}
use distributed_sql.Optimizer.Conjuncts.{IsTruth}
use distributed_sql.Optimizer.Folding.{
  fold_constant, fold_expression, folded, is_true_literal, is_false_literal,
}
use distributed_sql.Optimizer.Folding.Constant.{is_constant-evaluate}

module _ {O : Type 0} (py : Python O) (row : Row O) where
  abbrev pub TruthValued : Expression O → Type 0
  TruthValued e = (x : SqlValue O) → evaluate py e row ≡ ok x → IsTruth x

  abbrev pub Logical : BinaryOperator → Expression O → Expression O → Type 0
  Logical and l r = TruthValued l × TruthValued r
  Logical or l r = TruthValued l × TruthValued r
  Logical _ l r = Unit

  -- The operands of AND and OR have truth values on the row, and there is no aggregate and no window
  -- function: their results stand in a row under their text, which folding changes.
  unfoldable mutual
    pub IsFoldable : Expression O → Type 0
    IsFoldable (literal value t) = Unit
    IsFoldable (column name source t) = Unit
    IsFoldable (cast e target implicit) = IsFoldable e
    IsFoldable (unary operator e t) = IsFoldable e
    IsFoldable (binary operator l r t) = Logical operator l r × IsFoldable l × IsFoldable r
    IsFoldable (is_null e negated) = IsFoldable e
    IsFoldable (in_list e options negated) = IsFoldable e × AllFoldable options
    IsFoldable (between e low high negated) = IsFoldable e × IsFoldable low × IsFoldable high
    IsFoldable (like e pat negated) = IsFoldable e × IsFoldable pat
    IsFoldable (case branches default t) = BranchesFoldable branches × IsFoldable default
    IsFoldable (scalar_function name arguments t) = AllFoldable arguments
    IsFoldable (aggregate_function name arguments t distinct) = ⊥
    IsFoldable (window_function f ps os frame) = ⊥

    pub AllFoldable : Expressions O → Type 0
    AllFoldable nil = Unit
    AllFoldable (cons e es) = IsFoldable e × AllFoldable es

    pub BranchesFoldable : Branches O → Type 0
    BranchesFoldable end = Unit
    BranchesFoldable (when c v bs) = IsFoldable c × IsFoldable v × BranchesFoldable bs

  folded-value :
      (e e' : Expression O) (v : SqlValue O)
      → evaluate py e [] ≡ ok v
      → folded e (evaluate py e []) ≡ ok e'
      → evaluate py e' row ≡ ok v
  unfolding folded evaluate
  folded-value e e' v p q =
      let q' : ◌≡◌ {A = Result Raised (Expression O)} (ok (literal v (type_info e))) (ok e') =
        rw p at q in
      subst (λ x. evaluate py x row ≡ ok v) (ok-injective q') refl

  fold_constant-value :
      (e e' : Expression O) (v : SqlValue O)
      → evaluate py e row ≡ ok v
      → fold_constant py e ≡ ok e'
      → evaluate py e' row ≡ ok v
  unfolding fold_constant
  fold_constant-value e e' v p q = elim (Bool-cases (not (is_constant e) || is_literal e)) [
    | inl stays ↦
        let q' : ◌≡◌ {A = Result Raised (Expression O)} (ok e) (ok e') = rw stays at q in
        subst (λ x. evaluate py x row ≡ ok v) (ok-injective q') p
    | inr goes ↦
        folded-value e e' v (sym (is_constant-evaluate py row [] e (ground arith)) ∙ p)
          (rw goes at q)
  ]

  true_literal-value :
      (e : Expression O) → is_true_literal e ≡ true → evaluate py e row ≡ ok (bool true)
  unfolding evaluate
  true_literal-value (literal (bool b) t) h = ap (λ x. ok (bool x)) h
  true_literal-value _ h = cc

  false_literal-value :
      (e : Expression O) → is_false_literal e ≡ true → evaluate py e row ≡ ok (bool false)
  unfolding evaluate
  false_literal-value (literal (bool b) t) h = ground arith
  false_literal-value _ h = cc

  true-sql_and : (b : SqlValue O) → IsTruth b → sql_and (bool true) b ≡ b
  true-sql_and null t = refl
  true-sql_and (bool b) t = ground arith
  true-sql_and _ t = absurd t

  sql_and-true : (a : SqlValue O) → IsTruth a → sql_and a (bool true) ≡ a
  sql_and-true null t = refl
  sql_and-true (bool b) t = ground arith
  sql_and-true _ t = absurd t

  sql_and-false : (a : SqlValue O) → sql_and a (bool false) ≡ bool false
  sql_and-false a = ground arith

  false-sql_or : (b : SqlValue O) → IsTruth b → sql_or (bool false) b ≡ b
  false-sql_or null t = refl
  false-sql_or (bool b) t = ground arith
  false-sql_or _ t = absurd t

  sql_or-false : (a : SqlValue O) → IsTruth a → sql_or a (bool false) ≡ a
  sql_or-false null t = refl
  sql_or-false (bool b) t = ground arith
  sql_or-false _ t = absurd t

  sql_or-true : (a : SqlValue O) → sql_or a (bool true) ≡ bool true
  sql_or-true a = ground arith

  -- An expression that is returned for another has the value wanted.
  returned :
      (x e' : Expression O) (u w : SqlValue O)
      → ◌≡◌ {A = Result Raised (Expression O)} (ok x) (ok e')
      → evaluate py x row ≡ ok u
      → w ≡ u
      → evaluate py e' row ≡ ok w
  returned x e' u w made p same =
      subst (λ y. evaluate py y row ≡ ok w) (ok-injective made) (p ∙ ap ok (sym same))

  module _ (l r e' : Expression O) (t : TypeInfo) (a b : SqlValue O) (p : evaluate py l row ≡ ok a)
      (q : evaluate py r row ≡ ok b) (ta : IsTruth a) (tb : IsTruth b) where
    literal_is :
        (e : Expression O) {c d : SqlValue O}
        → evaluate py e row ≡ ok c
        → evaluate py e row ≡ ok d
        → c ≡ d
    literal_is e x y = ok-injective (sym x ∙ y)

    fold_and-value :
        fold_expression py (binary and l r t) ≡ ok e' → evaluate py e' row ≡ ok (sql_and a b)
    unfolding fold_expression
    fold_and-value f = elim (Bool-cases (is_true_literal l)) [
      | inl l_true ↦
          returned r e' b (sql_and a b) (rw l_true at f) q (
            ap (λ x. sql_and x b) (literal_is l p (true_literal-value l l_true))
            ∙ true-sql_and b tb)
      | inr l_not_true ↦ elim (Bool-cases (is_false_literal l)) [
        | inl l_false ↦
            returned l e' a (sql_and a b) (rw (l_not_true, l_false) at f) p
              (ground (arith, literal_is l p (false_literal-value l l_false)))
        | inr l_not_false ↦ elim (Bool-cases (is_true_literal r)) [
          | inl r_true ↦
              returned l e' a (sql_and a b) (rw (l_not_true, l_not_false, r_true) at f) p
                (ap (sql_and a) (literal_is r q (true_literal-value r r_true)) ∙ sql_and-true a ta)
          | inr r_not_true ↦ elim (Bool-cases (is_false_literal r)) [
            | inl r_false ↦
                returned r e' b (sql_and a b)
                  (rw (l_not_true, l_not_false, r_not_true, r_false) at f) q
                  (let e = literal_is r q (false_literal-value r r_false) in
                    ap (sql_and a) e ∙ sql_and-false a ∙ sym e)
            | inr r_not_false ↦
                fold_constant-value (binary and l r t) e' (sql_and a b)
                  (unfold evaluate binary_value in rw (p, q))
                  (rw (l_not_true, l_not_false, r_not_true, r_not_false) at f)
          ]
        ]
      ]
    ]

    fold_or-value :
        fold_expression py (binary or l r t) ≡ ok e' → evaluate py e' row ≡ ok (sql_or a b)
    unfolding fold_expression
    fold_or-value f = elim (Bool-cases (is_false_literal l)) [
      | inl l_false ↦ returned r e' b (sql_or a b) (rw l_false at f) q (
          ap (λ x. sql_or x b) (literal_is l p (false_literal-value l l_false)) ∙ false-sql_or b tb)
      | inr l_not_false ↦ elim (Bool-cases (is_true_literal l)) [
        | inl l_true ↦
            returned l e' a (sql_or a b) (rw (l_not_false, l_true) at f) p
              (ground (arith, literal_is l p (true_literal-value l l_true)))
        | inr l_not_true ↦ elim (Bool-cases (is_false_literal r)) [
          | inl r_false ↦
              returned l e' a (sql_or a b) (rw (l_not_false, l_not_true, r_false) at f) p
                (ap (sql_or a) (literal_is r q (false_literal-value r r_false)) ∙ sql_or-false a ta)
          | inr r_not_false ↦ elim (Bool-cases (is_true_literal r)) [
            | inl r_true ↦
                returned r e' b (sql_or a b)
                  (rw (l_not_false, l_not_true, r_not_false, r_true) at f) q
                  (let e = literal_is r q (true_literal-value r r_true) in
                    ap (sql_or a) e ∙ sql_or-true a ∙ sym e)
            | inr r_not_true ↦
                fold_constant-value (binary or l r t) e' (sql_or a b)
                  (unfold evaluate binary_value in rw (p, q))
                  (rw (l_not_false, l_not_true, r_not_false, r_not_true) at f)
          ]
        ]
      ]
    ]

  abbrev pub transform : Expression O → Result Raised (Expression O)
  transform = fold_expression py

  abbrev pub Same : Expression O → Expression O → Type 0
  Same e e' = Keeps (evaluate py e row) (evaluate py e' row)

  pub constant_step : (e n e' : Expression O) → Same e n → fold_constant py n ≡ ok e' → Same e e'
  constant_step e n e' k f = record { at = λ v p. fold_constant-value n e' v (k.at v p) f }

  pub strict_step :
      (operator : BinaryOperator) (l r x y e' : Expression O) (t : TypeInfo)
      → Logical operator l r
      → Same l x
      → Same r y
      → fold_expression py (binary operator x y t) ≡ ok e'
      → Same (binary operator l r t) e'
  unfolding evaluate fold_expression binary_value
  strict_step and l r x y e' t (tl, tr) kl kr f = record {
    at = λ v p.
        let (a, ea, q) =
          >>=-eq-ok (evaluate py l row) (λ a. evaluate py r row >>= λ b. binary_value py and a b)
            p in
        let (b, eb, s) = >>=-eq-ok (evaluate py r row) (λ b. binary_value py and a b) q in
        fold_and-value x y e' t a b (kl.at a ea) (kr.at b eb) (tl a ea) (tr b eb) f ∙ s;
  }
  strict_step or l r x y e' t (tl, tr) kl kr f = record {
    at = λ v p.
        let (a, ea, q) =
          >>=-eq-ok (evaluate py l row) (λ a. evaluate py r row >>= λ b. binary_value py or a b)
            p in
        let (b, eb, s) = >>=-eq-ok (evaluate py r row) (λ b. binary_value py or a b) q in
        fold_or-value x y e' t a b (kl.at a ea) (kr.at b eb) (tl a ea) (tr b eb) f ∙ s;
  }
  strict_step operator l r x y e' t logical kl kr f =
      constant_step (binary operator l r t) (binary operator x y t) e'
        (Keeps-bind (evaluate py l row) (evaluate py x row) _ _ kl
          (λ a. Keeps-bind (evaluate py r row) (evaluate py y row) _ _ kr (λ b. Keeps-refl _)))
        f
