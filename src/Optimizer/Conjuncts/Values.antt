-- ===== src/Optimizer/Conjuncts/Values.antt =====
-- The value of a conjunction from the values of its conjuncts.
use distributed_sql.Prelude.{
  subst, ◌≡◌, refl, sym, ap, ◌∙◌, Bool, true, false, ◌||◌, List, [], ◌∷◌, ◌++◌, any, any_congr,
  Elem, Result, ok, ◌>>=◌, >>=-eq-ok, arith, inl, inr, if◌then◌else◌,
}
use mathlib.Core.Path.{ap₂}
use distributed_sql.Planner.Types.{Raised, TypeInfo}
use distributed_sql.Planner.Values
use distributed_sql.Planner.Values.{SqlValue, null, bool, int, str, other, Python, is_false}
use distributed_sql.Planner.Expressions.{Expression, binary, and, type_info}
use distributed_sql.Planner.Evaluate.{Row, evaluate, sql_and, binary_value}
use distributed_sql.Optimizer.Utils.{split_conjuncts, conjoin}

module _ {O : Type 0} where
  -- The conjunction of any number of values: False if one is, else NULL if one is, else True.
  unfoldable pub all_of : List (SqlValue O) → SqlValue O
  all_of vs =
      if any is_false vs then bool false else if any Values.is_null vs then null else bool true

  -- A value of SQL's three-valued logic.
  abbrev pub IsTruth : SqlValue O → Type 0
  IsTruth null = Unit
  IsTruth (bool b) = Unit
  IsTruth _ = ⊥

  any-append :
      (p : SqlValue O → Bool) (xs ys : List (SqlValue O))
      → any p (xs ++ ys) ≡ (any p xs || any p ys)
  any-append p [] ys = refl
  any-append p (x ∷ xs) ys = ground (arith, any-append p xs ys)

  pub all_of-append :
      (xs ys : List (SqlValue O)) → all_of (xs ++ ys) ≡ sql_and (all_of xs) (all_of ys)
  unfolding all_of
  all_of-append xs ys = ground (arith, any-append is_false xs ys, any-append Values.is_null xs ys)

  pub all_of-cons :
      (x : SqlValue O) (ys : List (SqlValue O))
      → all_of (x ∷ ys) ≡ sql_and (all_of (x ∷ [])) (all_of ys)
  all_of-cons x ys = all_of-append (x ∷ []) ys

  pub all_of-sql_and :
      (a b : SqlValue O) → all_of (sql_and a b ∷ []) ≡ sql_and (all_of (a ∷ [])) (all_of (b ∷ []))
  unfolding all_of
  all_of-sql_and a b = ground arith

  pub all_of-truth : (v : SqlValue O) → IsTruth v → all_of (v ∷ []) ≡ v
  unfolding all_of
  all_of-truth null t = refl
  all_of-truth (bool b) t = ground arith
  all_of-truth (int n) t = absurd t
  all_of-truth (str s) t = absurd t
  all_of-truth (other o) t = absurd t

  pub sql_and_assoc : (a b c : SqlValue O) → sql_and (sql_and a b) c ≡ sql_and a (sql_and b c)
  sql_and_assoc a b c = ground arith

  pub sql_and-IsTruth : (a b : SqlValue O) → IsTruth (sql_and a b)
  sql_and-IsTruth a b = go (sql_and a b) refl
    where
      go : (v : SqlValue O) → sql_and a b ≡ v → IsTruth v
      go null e = tt
      go (bool x) e = tt
      go (int n) e = ground arith
      go (str s) e = ground arith
      go (other o) e = ground arith

  -- The conjunction depends only on which values there are.
  pub all_of_congr :
      (xs ys : List (SqlValue O))
      → ((v : SqlValue O) → Elem v xs → Elem v ys)
      → ((v : SqlValue O) → Elem v ys → Elem v xs)
      → all_of xs ≡ all_of ys
  unfolding all_of
  all_of_congr xs ys to from =
      rw (any_congr is_false xs ys to from, any_congr Values.is_null xs ys to from)

module _ {O : Type 0} (py : Python O) (row : Row O) where
  unfoldable pub evaluate_list : List (Expression O) → Result Raised (List (SqlValue O))
  evaluate_list [] = ok []
  evaluate_list (e ∷ es) = do v ← evaluate py e row; vs ← evaluate_list es; ok (v ∷ vs)

  pub evaluate_list-cons :
      (e : Expression O) (es : List (Expression O)) {v : SqlValue O} {vs : List (SqlValue O)}
      → evaluate py e row ≡ ok v
      → evaluate_list es ≡ ok vs
      → evaluate_list (e ∷ es) ≡ ok (v ∷ vs)
  unfolding evaluate_list
  evaluate_list-cons e es p q = rw (p, q)

  pub evaluate_list-inv :
      (e : Expression O) (es : List (Expression O)) {vs : List (SqlValue O)}
      → evaluate_list (e ∷ es) ≡ ok vs
      → (v : SqlValue O) × (us : List (SqlValue O)) × (evaluate py e row ≡ ok v)
        × (evaluate_list es ≡ ok us)
        × (vs ≡ v ∷ us)
  unfolding evaluate_list
  evaluate_list-inv e es p =
      let (v, ev, r) =
        >>=-eq-ok (evaluate py e row) (λ v. evaluate_list es >>= λ us. ok (v ∷ us)) p in
      let (us, eus, s) = >>=-eq-ok (evaluate_list es) (λ us. ok (v ∷ us)) r in (v, us, ev, eus, cc)

  pub evaluate_list-append :
      (xs ys : List (Expression O)) {vs ws : List (SqlValue O)}
      → evaluate_list xs ≡ ok vs
      → evaluate_list ys ≡ ok ws
      → evaluate_list (xs ++ ys) ≡ ok (vs ++ ws)
  evaluate_list-append [] ys {vs} {ws} p q = unfold evaluate_list in ground arith
  evaluate_list-append (x ∷ xs) ys {vs} {ws} p q =
      let (v, us, ev, eus, s) = evaluate_list-inv x xs p in
      subst (λ l. evaluate_list ((x ∷ xs) ++ ys) ≡ ok (l ++ ws)) (sym s)
        (evaluate_list-cons x (xs ++ ys) ev (evaluate_list-append xs ys eus q))

  -- Where a list evaluates, so does each of its members, to one of the values.
  pub evaluate-Elem :
      (e : Expression O) (es : List (Expression O)) (vs : List (SqlValue O))
      → evaluate_list es ≡ ok vs
      → Elem e es
      → (v : SqlValue O) × (evaluate py e row ≡ ok v) × Elem v vs
  evaluate-Elem e [] vs p m = absurd m
  evaluate-Elem e (x ∷ es) vs p m =
      let (v, us, ev, eus, s) = evaluate_list-inv x es p in
      elim m [
        | inl same ↦ (v, ap (λ y. evaluate py y row) same ∙ ev, subst (Elem v) (sym s) (inl refl))
        | inr rest ↦
            let (w, ew, mw) = evaluate-Elem e es us eus rest in
            (w, ew, subst (Elem w) (sym s) (inr mw))
      ]

  -- Each of the values is that of a member.
  pub Elem-evaluate :
      (v : SqlValue O) (es : List (Expression O)) (vs : List (SqlValue O))
      → evaluate_list es ≡ ok vs
      → Elem v vs
      → (e : Expression O) × Elem e es × (evaluate py e row ≡ ok v)
  Elem-evaluate v [] vs p m =
      let e : vs ≡ [] = (unfold evaluate_list in cc) in absurd (subst (Elem v) e m)
  Elem-evaluate v (x ∷ es) vs p m =
      let (u, us, eu, eus, s) = evaluate_list-inv x es p in
      let m' : Elem v (u ∷ us) = subst (Elem v) s m in
      elim m' [
        | inl same ↦ (x, inl refl, eu ∙ ap ok (sym same))
        | inr rest ↦ let (e, me, ee) = Elem-evaluate v es us eus rest in (e, inr me, ee)
      ]

  -- A list whose members evaluate does so too.
  pub evaluate_list_total :
      (es : List (Expression O))
      → ((e : Expression O) → Elem e es → (v : SqlValue O) × (evaluate py e row ≡ ok v))
      → (vs : List (SqlValue O)) × (evaluate_list es ≡ ok vs)
  evaluate_list_total [] all = ([], unfold evaluate_list in refl)
  evaluate_list_total (x ∷ es) all =
      let (v, ev) = all x (inl refl) in
      let (vs, evs) = evaluate_list_total es (λ e m. all e (inr m)) in
      (v ∷ vs, evaluate_list-cons x es ev evs)

  pub binary_and-inv :
      (l r : Expression O) (t : TypeInfo) {v : SqlValue O}
      → evaluate py (binary and l r t) row ≡ ok v
      → (a b : SqlValue O) × (evaluate py l row ≡ ok a)
        × (evaluate py r row ≡ ok b)
        × (v ≡ sql_and a b)
  unfolding evaluate binary_value
  binary_and-inv l r t p =
      let (a, ea, q) =
        >>=-eq-ok (evaluate py l row) (λ a. evaluate py r row >>= λ b. ok (sql_and a b)) p in
      let (b, eb, s) = >>=-eq-ok (evaluate py r row) (λ b. ok (sql_and a b)) q in (a, b, ea, eb, cc)

  pub binary_and-value :
      (l r : Expression O) (t : TypeInfo) {a b : SqlValue O}
      → evaluate py l row ≡ ok a
      → evaluate py r row ≡ ok b
      → evaluate py (binary and l r t) row ≡ ok (sql_and a b)
  unfolding evaluate binary_value
  binary_and-value l r t p q = rw (p, q)

  -- The conjuncts of a predicate that has a value have values, whose conjunction it is.
  pub split_conjuncts_values :
      (e : Expression O) (v : SqlValue O)
      → evaluate py e row ≡ ok v
      → (vs : List (SqlValue O)) × (evaluate_list (split_conjuncts e) ≡ ok vs)
        × (all_of (v ∷ []) ≡ all_of vs)
  unfolding split_conjuncts
  split_conjuncts_values (binary and l r t) v p =
      let (a, b, ea, eb, s) = binary_and-inv l r t p in
      let (us, eus, su) = split_conjuncts_values l a ea in
      let (ws, ews, sw) = split_conjuncts_values r b eb in
      (
        us ++ ws,
        evaluate_list-append (split_conjuncts l) (split_conjuncts r) eus ews,
        ap (λ x. all_of (x ∷ [])) s
            ∙ all_of-sql_and a b
            ∙ ap₂ sql_and su sw
            ∙ sym (all_of-append us ws),
      )
  split_conjuncts_values e v p =
      (v ∷ [], evaluate_list-cons e [] p (unfold evaluate_list in refl), refl)

  -- Conjuncts that have values are combined to a predicate that has the conjunction for a value.
  pub conjoin_values :
      (e : Expression O) (es : List (Expression O)) (v : SqlValue O) (vs : List (SqlValue O))
      → evaluate py e row ≡ ok v
      → evaluate_list es ≡ ok vs
      → (w : SqlValue O) × (evaluate py (conjoin e es) row ≡ ok w)
        × (all_of (w ∷ []) ≡ all_of (v ∷ vs))
        × (IsTruth v → IsTruth w)
  unfolding conjoin
  conjoin_values e [] v vs p q =
      (v, p, ap (λ l. all_of (v ∷ l)) (unfold evaluate_list in cc), λ t. t)
  conjoin_values e (x ∷ es) v vs p q =
      let (u, us, eu, eus, s) = evaluate_list-inv x es q in
      let (w, ew, sw, tw) =
        conjoin_values (binary and e x (type_info e)) es (sql_and v u) us
          (binary_and-value e x (type_info e) p eu) eus in
      (
        w,
        ew,
        sw
            ∙ all_of-cons (sql_and v u) us
            ∙ ap (λ x. sql_and x (all_of us)) (all_of-sql_and v u)
            ∙ sql_and_assoc _ _ _
            ∙ ap (sql_and (all_of (v ∷ []))) (sym (all_of-cons u us))
            ∙ sym (all_of-cons v (u ∷ us))
            ∙ ap (λ l. all_of (v ∷ l)) (sym s),
        λ t. tw (sql_and-IsTruth v u),
      )
