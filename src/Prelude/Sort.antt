-- ===== src/Prelude/Sort.antt =====
-- Python's `sorted(xs, key=...)`: a stable sort, written as insertion.
use Prim.Native.Nat.{Ordering}
use Prim.Native.String.{String, compare}
use mathlib.Core.Bool.{Bool, true, false}
use mathlib.Core.List.{List, [], ◌∷◌, Perm}
use mathlib.Core.List.Perm
use distributed_sql.Prelude.Tests.{if◌then◌else◌, Bool-cases}
use mathlib.Core.Logic.{inl, inr}

abbrev pub str_leb : String → String → Bool
str_leb s t = elim (compare s t) [ Ordering.gt ↦ false | _ ↦ true ]

module _ {ℓ} {A : Type ℓ} where
  abbrev pub place : (A → A → Bool) → A → List A → List A
  place before x [] = x ∷ []
  place before x (y ∷ ys) = if before x y then x ∷ y ∷ ys else y ∷ place before x ys

  abbrev pub sorted_by : (A → A → Bool) → List A → List A
  sorted_by before [] = []
  sorted_by before (x ∷ xs) = place before x (sorted_by before xs)

  pub place-perm : (before : A → A → Bool) (x : A) (xs : List A) → Perm (place before x xs) (x ∷ xs)
  place-perm before x [] = Perm.refl (x ∷ [])
  place-perm before x (y ∷ ys) = elim (Bool-cases (before x y)) [
    | inl e ↦ rw e (Perm.refl (x ∷ y ∷ ys))
    | inr e ↦ rw e (Perm.trans (Perm.cons y (place-perm before x ys)) (Perm.swap x y ys))
  ]

  pub sorted_by-perm : (before : A → A → Bool) (xs : List A) → Perm (sorted_by before xs) xs
  sorted_by-perm before [] = Perm.refl []
  sorted_by-perm before (x ∷ xs) =
      Perm.trans (place-perm before x (sorted_by before xs))
        (Perm.cons x (sorted_by-perm before xs))
