-- ===== src/Optimizer/Conjuncts/Normal.antt =====
-- `normalize_conjuncts`: sorting the conjuncts by their text, with one kept for each text, changes
-- no value.
use distributed_sql.Prelude.{
  subst, String, ◌≡◌, refl, sym, ap, ◌∙◌, List, [], ◌∷◌, map, Elem, Elem-append_left, Elem-map,
  map-Elem, Elem-sorted_by, sorted_by-Elem, insert-Elem, HasKey, HasKey-insert, HasKey-insert_self,
  Dict, insert, sorted_by, Result, ok, inl, inr, ◌⊎◌,
}
use distributed_sql.Planner.Types.{Raised}
use distributed_sql.Planner.Values.{SqlValue, Python}
use distributed_sql.Planner.Expressions.{Expression, binary, and}
use distributed_sql.Planner.Sql.{sql}
use distributed_sql.Planner.Evaluate.{Row, evaluate}
use distributed_sql.Optimizer.Utils.{
  split_conjuncts, conjoin, combine_conjuncts, unique_by_text, key_leb, entry, normalize_conjuncts,
}
use distributed_sql.Optimizer.Conjuncts.Values.{
  evaluate_list, all_of, IsTruth, all_of-truth, all_of_congr, evaluate-Elem, Elem-evaluate,
  evaluate_list_total, evaluate_list-inv, split_conjuncts_values, conjoin_values, sql_and-IsTruth,
  binary_and-inv,
}

module _ {O : Type 0} (py : Python O) where
  -- Every entry of the dictionary stands under its own text, and comes from the list.
  unique_by_text-Elem :
      (es : List (Expression O)) (found : Dict (Expression O)) (k : String) (e : Expression O)
      → Elem (k, e) (unique_by_text py es found)
      → (k ≡ sql py e) × Elem e es ⊎ Elem (k, e) found
  unfolding unique_by_text
  unique_by_text-Elem [] found k e m = inr m
  unique_by_text-Elem (x ∷ es) found k e m =
      elim (unique_by_text-Elem es (insert (sql py x) x found) k e m) [
        | inl (named, there) ↦ inl (named, inr there)
        | inr old ↦ elim (insert-Elem (sql py x) k x e found old) [
          | inl (key, same) ↦ inl (key ∙ ap (sql py) (sym same), inl same)
          | inr older ↦ inr older
        ]
      ]

  unique_by_text-HasKey :
      (es : List (Expression O)) (found : Dict (Expression O)) (k : String)
      → HasKey k found
      → HasKey k (unique_by_text py es found)
  unfolding unique_by_text
  unique_by_text-HasKey [] found k h = h
  unique_by_text-HasKey (x ∷ es) found k h =
      unique_by_text-HasKey es (insert (sql py x) x found) k (HasKey-insert (sql py x) k x found h)

  -- The text of every item of the list is a key.
  HasKey-unique_by_text :
      (es : List (Expression O)) (found : Dict (Expression O)) (e : Expression O)
      → Elem e es
      → HasKey (sql py e) (unique_by_text py es found)
  unfolding unique_by_text
  HasKey-unique_by_text [] found e m = absurd m
  HasKey-unique_by_text (x ∷ es) found e (inl same) =
      unique_by_text-HasKey es (insert (sql py x) x found) (sql py e) (
        subst (λ k. HasKey k (insert (sql py x) x found)) (ap (sql py) (sym same))
          (HasKey-insert_self (sql py x) x found))
  HasKey-unique_by_text (x ∷ es) found e (inr rest) =
      HasKey-unique_by_text es (insert (sql py x) x found) e rest

  -- The conjuncts that are kept, in their new order.
  abbrev kept : Expression O → List (Expression O)
  kept e = map entry (sorted_by key_leb (unique_by_text py (split_conjuncts e) []))

  kept-Elem : (e c : Expression O) → Elem c (kept e) → Elem c (split_conjuncts e)
  kept-Elem e c m =
      let ((k, d), md, same) =
        map-Elem entry c (sorted_by key_leb (unique_by_text py (split_conjuncts e) [])) m in
      elim (unique_by_text-Elem (split_conjuncts e) [] k d
        (sorted_by-Elem key_leb (k, d) (unique_by_text py (split_conjuncts e) []) md)) [
          | inl (named, there) ↦ subst (λ x. Elem x (split_conjuncts e)) (sym same) there
          | inr none ↦ absurd none
        ]

  -- For every conjunct one of the same text is kept.
  Elem-kept :
      (e c : Expression O)
      → Elem c (split_conjuncts e)
      → (d : Expression O) × Elem d (kept e) × Elem d (split_conjuncts e) × (sql py c ≡ sql py d)
  Elem-kept e c m =
      let (d, md) = HasKey-unique_by_text (split_conjuncts e) [] c m in
      let es = unique_by_text py (split_conjuncts e) [] in
      let stays =
        Elem-map entry (sql py c, d) (sorted_by key_leb es)
          (Elem-sorted_by key_leb (sql py c, d) es md) in
      elim (unique_by_text-Elem (split_conjuncts e) [] (sql py c) d md) [
        | inl (named, there) ↦ (d, stays, there, named)
        | inr none ↦ absurd none
      ]

  split_conjuncts-first : (e : Expression O) → (c : Expression O) × Elem c (split_conjuncts e)
  unfolding split_conjuncts
  split_conjuncts-first (binary and l r t) =
      let (c, m) = split_conjuncts-first l in
      (c, Elem-append_left c (split_conjuncts l) (split_conjuncts r) m)
  split_conjuncts-first e = (e, inl refl)

  combine_kept :
      (l : List (Expression O)) (c : Expression O)
      → Elem c l
      → (x : Expression O) × (xs : List (Expression O)) × (l ≡ x ∷ xs)
        × (combine_conjuncts l ≡ ok (conjoin x xs))
  unfolding combine_conjuncts
  combine_kept [] c m = absurd m
  combine_kept (x ∷ xs) c m = (x, xs, refl, refl)

  truth :
      (row : Row O) (e : Expression O) (v : SqlValue O)
      → evaluate py e row ≡ ok v
      → ((c : Expression O) (x : SqlValue O)
          → Elem c (split_conjuncts e)
          → evaluate py c row ≡ ok x
          → IsTruth x)
      → IsTruth v
  unfolding split_conjuncts
  truth row (binary and l r t) v value typed =
      let (a, b, ea, eb, s) = binary_and-inv py row l r t value in
      subst IsTruth (sym s) (sql_and-IsTruth a b)
  truth row e v value typed = typed e v (inl refl) value

  ok-injective : {x y : SqlValue O} → ◌≡◌ {A = Result Raised (SqlValue O)} (ok x) (ok y) → x ≡ y
  ok-injective p = cc

  module _ (row : Row O) (e : Expression O) (v : SqlValue O) (value : evaluate py e row ≡ ok v)
      (typed : (c : Expression O) (x : SqlValue O)
        → Elem c (split_conjuncts e)
        → evaluate py c row ≡ ok x
        → IsTruth x)
      (same_text : (c d : Expression O)
        → Elem c (split_conjuncts e)
        → Elem d (split_conjuncts e)
        → sql py c ≡ sql py d
        → evaluate py c row ≡ evaluate py d row) where
    all_of-kept :
        (vs ws : List (SqlValue O))
        → evaluate_list py row (split_conjuncts e) ≡ ok vs
        → evaluate_list py row (kept e) ≡ ok ws
        → all_of vs ≡ all_of ws
    all_of-kept vs ws evs ews =
        all_of_congr vs ws
          (λ x m.
            let (c, mc, ec) = Elem-evaluate py row x (split_conjuncts e) vs evs m in
            let (d, md, md', same) = Elem-kept e c mc in
            let (y, ed, my) = evaluate-Elem py row d (kept e) ws ews md in
            let xy : x ≡ y = ok-injective (sym ec ∙ same_text c d mc md' same ∙ ed) in
            subst (λ z. Elem z ws) (sym xy) my)
          (λ x m.
            let (c, mc, ec) = Elem-evaluate py row x (kept e) ws ews m in
            let (y, ed, my) =
              evaluate-Elem py row c (split_conjuncts e) vs evs (kept-Elem e c mc) in
            let xy : x ≡ y = ok-injective (sym ec ∙ ed) in subst (λ z. Elem z vs) (sym xy) my)

    split-IsTruth : IsTruth v
    split-IsTruth = truth row e v value typed

    -- A predicate that has a value on a row is normalised without an error, and the result has the
    -- same value on that row, provided that its conjuncts are truth values there, and that
    -- conjuncts of one text have one value.
    pub evaluate-normalize_conjuncts :
        (n : Expression O) × (normalize_conjuncts py e ≡ ok n) × (evaluate py n row ≡ ok v)
    unfolding normalize_conjuncts
    evaluate-normalize_conjuncts =
        let (c, m) = split_conjuncts-first e in
        let (d, md, _, _) = Elem-kept e c m in
        let (x, xs, shape, made) = combine_kept (kept e) d md in
        let (vs, evs, sv) = split_conjuncts_values py row e v value in
        let (ws, ews) = evaluate_list_total py row (kept e) (λ k mk.
          let (u, eu, mu) = evaluate-Elem py row k (split_conjuncts e) vs evs (kept-Elem e k mk) in
          (u, eu)) in
        let (u, us, eu, eus, sw) =
          evaluate_list-inv py row x xs (subst (λ l. evaluate_list py row l ≡ ok ws) shape ews) in
        let (w, ew, aw, tw) = conjoin_values py row x xs u us eu eus in
        let mx : Elem x (split_conjuncts e) =
          kept-Elem e x (subst (Elem x) (sym shape) (inl refl)) in
        let agree : w ≡ v =
          sym (all_of-truth w (tw (typed x u mx eu)))
          ∙ aw
          ∙ ap all_of (sym sw)
          ∙ sym (all_of-kept vs ws evs ews)
          ∙ sym sv
          ∙ all_of-truth v split-IsTruth in
        (conjoin x xs, made, ew ∙ ap ok agree)
