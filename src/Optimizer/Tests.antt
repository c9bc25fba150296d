-- ===== src/Optimizer/Tests.antt =====
-- The theorems about rewriting expressions, at a predicate on a row.
use distributed_sql.Prelude.{Bool, true, ok, [], ◌∷◌, ◌≡◌, refl, Elem, inl, inr, subst}
use distributed_sql.Prelude.Int.{ℤ, pos}
use distributed_sql.Common.Protocol
use distributed_sql.Planner.Sample.{NoScalar, small, type_of}
use distributed_sql.Planner.Values.{SqlValue, bool, int}
use distributed_sql.Planner.Values
use distributed_sql.Planner.Expressions.{Expression, literal, column, binary, and, equal}
use distributed_sql.Planner.Sql.{sql}
use distributed_sql.Planner.Evaluate.{Row, evaluate, binary_value, strict_binary}
use distributed_sql.Planner.Values.{py_equals, py_str}
use distributed_sql.Optimizer.Utils.{
  split_conjuncts, normalize_conjuncts, is_constant, walk_expression, map_expression,
}
use distributed_sql.Optimizer.Conjuncts.{IsTruth}
use distributed_sql.Optimizer.Conjuncts.Normal.{evaluate-normalize_conjuncts}
use distributed_sql.Optimizer.Folding.{fold}
use distributed_sql.Optimizer.Folding.Node.{IsFoldable}
use distributed_sql.Optimizer.Folding.Sound.{evaluate-fold}

abbrev E : Type 0
E = Expression NoScalar

abbrev number : ℤ → E
number n = literal (int n) (type_of Protocol.int32)

abbrev truth : Bool → E
truth b = literal (bool b) (type_of Protocol.boolean)

abbrev a_is : ℤ → E
a_is n =
    binary equal (column "a" "t" (type_of Protocol.int32)) (number n) (type_of Protocol.boolean)

-- (TRUE AND (t.a = 1))
abbrev guarded : E
guarded = binary and (truth true) (a_is (pos 1)) (type_of Protocol.boolean)

abbrev row : Row NoScalar
row = ("t.a", int (pos 1)) ∷ []

program : Unit {0}
unfolding fold evaluate binary_value strict_binary py_equals is_constant walk_expression
    normalize_conjuncts sql IsFoldable map_expression py_str
program = tt

folded : fold small guarded ≡ ok (a_is (pos 1))
unfolding program
folded = refl

guarded_value : evaluate small guarded row ≡ ok (bool true)
unfolding program
guarded_value = refl

true_is_truth : (x : SqlValue NoScalar) → evaluate small (truth true) row ≡ ok x → IsTruth x
unfolding program
true_is_truth (bool b) e = tt
true_is_truth Values.null e = tt
true_is_truth _ e = cc

a_is-truth : (x : SqlValue NoScalar) → evaluate small (a_is (pos 1)) row ≡ ok x → IsTruth x
unfolding program
a_is-truth (bool b) e = tt
a_is-truth Values.null e = tt
a_is-truth _ e = cc

guarded-IsFoldable : IsFoldable small row guarded
unfolding program
guarded-IsFoldable = ((true_is_truth, a_is-truth), tt, (tt, tt, tt))

evaluate-fold_example : evaluate small (a_is (pos 1)) row ≡ ok (bool true)
evaluate-fold_example =
    evaluate-fold small row guarded (a_is (pos 1)) (bool true) guarded-IsFoldable folded
      guarded_value

-- ((t.a = 1) AND (t.a = 1))
abbrev twice : E
twice = binary and (a_is (pos 1)) (a_is (pos 1)) (type_of Protocol.boolean)

twice_value : evaluate small twice row ≡ ok (bool true)
unfolding program
twice_value = refl

twice-only : (c : E) → Elem c (split_conjuncts twice) → c ≡ a_is (pos 1)
unfolding split_conjuncts
twice-only c (inl e) = e
twice-only c (inr (inl e)) = e
twice-only c (inr (inr e)) = absurd e

twice-truth :
    (c : E) (x : SqlValue NoScalar)
    → Elem c (split_conjuncts twice)
    → evaluate small c row ≡ ok x
    → IsTruth x
twice-truth c x m e = a_is-truth x (subst (λ k. evaluate small k row ≡ ok x) (twice-only c m) e)

twice-same :
    (c d : E)
    → Elem c (split_conjuncts twice)
    → Elem d (split_conjuncts twice)
    → sql small c ≡ sql small d
    → evaluate small c row ≡ evaluate small d row
twice-same c d mc md e = rw (twice-only c mc, twice-only d md)

evaluate-normalize_conjuncts_example :
    (n : E) × (normalize_conjuncts small twice ≡ ok n) × (evaluate small n row ≡ ok (bool true))
evaluate-normalize_conjuncts_example =
    evaluate-normalize_conjuncts small row twice (bool true) twice_value twice-truth twice-same

once : normalize_conjuncts small twice ≡ ok (a_is (pos 1))
unfolding program
once = refl
