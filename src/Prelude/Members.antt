-- ===== src/Prelude/Members.antt =====
-- Membership with a place, which a proof can take apart, and sorting and dictionaries under it.
use Prim.Native.String.{String}
use mathlib.Core.Path.{◌≡◌, refl, sym, ◌∙◌, ap}
use mathlib.Core.Logic.{◌⊎◌, inl, inr}
use mathlib.Core.Bool.{Bool, true}
use mathlib.Core.List.{List, [], ◌∷◌, ◌++◌, map}
use native.Mathlib.Omega.{arith}
use text.Mathlib.Text.{◌==◌}
use text.Mathlib.TextEquality.{eq_iff}
use distributed_sql.Prelude.Tests.{Bool-cases}
use distributed_sql.Prelude.Lists.{any}
use distributed_sql.Prelude.Sort.{place, sorted_by}
use distributed_sql.Prelude.Dicts.{Dict, insert}

module _ {A : Type 0} where
  abbrev pub Elem : A → List A → Type 0
  Elem a [] = ⊥
  Elem a (x ∷ xs) = (a ≡ x) ⊎ Elem a xs

  pub Elem-append_left : (a : A) (xs ys : List A) → Elem a xs → Elem a (xs ++ ys)
  Elem-append_left a (x ∷ xs) ys (inl e) = inl e
  Elem-append_left a (x ∷ xs) ys (inr e) = inr (Elem-append_left a xs ys e)
  Elem-append_left a [] ys e = absurd e

  pub Elem-append_right : (a : A) (xs ys : List A) → Elem a ys → Elem a (xs ++ ys)
  Elem-append_right a [] ys e = e
  Elem-append_right a (x ∷ xs) ys e = inr (Elem-append_right a xs ys e)

  pub append-Elem : (a : A) (xs ys : List A) → Elem a (xs ++ ys) → Elem a xs ⊎ Elem a ys
  append-Elem a [] ys e = inr e
  append-Elem a (x ∷ xs) ys (inl e) = inl (inl e)
  append-Elem a (x ∷ xs) ys (inr e) = elim (append-Elem a xs ys e) [
    | inl l ↦ inl (inr l)
    | inr r ↦ inr r
  ]

  -- `place` inserts one item and keeps the others.
  pub Elem-place :
      (before : A → A → Bool) (x a : A) (xs : List A)
      → (a ≡ x) ⊎ Elem a xs
      → Elem a (place before x xs)
  Elem-place before x a [] e = e
  Elem-place before x a (y ∷ ys) e = elim (Bool-cases (before x y)) [
    | inl first ↦ rw first e
    | inr later ↦ rw later (elim e [
      | inl same ↦ inr (Elem-place before x a ys (inl same))
      | inr (inl same) ↦ inl same
      | inr (inr rest) ↦ inr (Elem-place before x a ys (inr rest))
    ])
  ]

  pub place-Elem :
      (before : A → A → Bool) (x a : A) (xs : List A)
      → Elem a (place before x xs)
      → (a ≡ x) ⊎ Elem a xs
  place-Elem before x a [] e = e
  place-Elem before x a (y ∷ ys) e = elim (Bool-cases (before x y)) [
    | inl first ↦ rw first at e
    | inr later ↦
        let e' : Elem a (y ∷ place before x ys) = rw later at e in
        elim e' [
          | inl same ↦ inr (inl same)
          | inr rest ↦ elim (place-Elem before x a ys rest) [ inl s ↦ inl s | inr r ↦ inr (inr r) ]
        ]
  ]

  pub Elem-sorted_by :
      (before : A → A → Bool) (a : A) (xs : List A) → Elem a xs → Elem a (sorted_by before xs)
  Elem-sorted_by before a [] e = e
  Elem-sorted_by before a (x ∷ xs) (inl s) = Elem-place before x a (sorted_by before xs) (inl s)
  Elem-sorted_by before a (x ∷ xs) (inr r) =
      Elem-place before x a (sorted_by before xs) (inr (Elem-sorted_by before a xs r))

  pub sorted_by-Elem :
      (before : A → A → Bool) (a : A) (xs : List A) → Elem a (sorted_by before xs) → Elem a xs
  sorted_by-Elem before a [] e = e
  sorted_by-Elem before a (x ∷ xs) e = elim (place-Elem before x a (sorted_by before xs) e) [
    | inl s ↦ inl s
    | inr r ↦ inr (sorted_by-Elem before a xs r)
  ]

  pub any-of_Elem : (p : A → Bool) (a : A) (xs : List A) → Elem a xs → p a ≡ true → any p xs ≡ true
  any-of_Elem p a [] e h = absurd e
  any-of_Elem p a (x ∷ xs) (inl s) h = let h' : p x ≡ true = ap p (sym s) ∙ h in ground arith
  any-of_Elem p a (x ∷ xs) (inr r) h = let h' = any-of_Elem p a xs r h in ground arith

  pub Elem-of_any :
      (p : A → Bool) (xs : List A) → any p xs ≡ true → (a : A) × Elem a xs × (p a ≡ true)
  Elem-of_any p [] h = cc
  Elem-of_any p (x ∷ xs) h = elim (Bool-cases (p x)) [
    | inl yes_x ↦ (x, inl refl, yes_x)
    | inr no_x ↦ let (a, e, pa) = Elem-of_any p xs (rw no_x at h) in (a, inr e, pa)
  ]

  -- Whether some item passes depends only on which items there are.
  pub any_congr :
      (p : A → Bool) (xs ys : List A)
      → ((a : A) → Elem a xs → Elem a ys)
      → ((a : A) → Elem a ys → Elem a xs)
      → any p xs ≡ any p ys
  any_congr p xs ys to from = elim (Bool-cases (any p xs)) [
    | inl e ↦ let (a, m, h) = Elem-of_any p xs e in e ∙ sym (any-of_Elem p a ys (to a m) h)
    | inr e ↦ elim (Bool-cases (any p ys)) [
      | inl e' ↦
          let (a, m, h) = Elem-of_any p ys e' in let t = any-of_Elem p a xs (from a m) h in cc
      | inr e' ↦ e ∙ sym e'
    ]
  ]

module _ {A B : Type 0} where
  pub Elem-map : (f : A → B) (a : A) (xs : List A) → Elem a xs → Elem (f a) (map f xs)
  Elem-map f a [] e = e
  Elem-map f a (x ∷ xs) (inl s) = inl (ap f s)
  Elem-map f a (x ∷ xs) (inr r) = inr (Elem-map f a xs r)

  pub map-Elem :
      (f : A → B) (b : B) (xs : List A) → Elem b (map f xs) → (a : A) × Elem a xs × (b ≡ f a)
  map-Elem f b [] e = absurd e
  map-Elem f b (x ∷ xs) (inl s) = (x, inl refl, s)
  map-Elem f b (x ∷ xs) (inr r) = let (a, m, s) = map-Elem f b xs r in (a, inr m, s)

module _ {V : Type 0} where
  pub insert-Elem :
      (k j : String) (v w : V) (m : Dict V)
      → Elem (j, w) (insert k v m)
      → (j ≡ k) × (w ≡ v) ⊎ Elem (j, w) m
  insert-Elem k j v w [] (inl s) = inl (ap (λ p. p.0) s, ap (λ p. p.1) s)
  insert-Elem k j v w [] (inr r) = absurd r
  insert-Elem k j v w ((i, u) ∷ m) e = elim (Bool-cases (i == k)) [
    | inl same ↦
        let e' : Elem (j, w) ((k, v) ∷ m) = rw same at e in
        elim e' [ inl s ↦ inl (ap (λ p. p.0) s, ap (λ p. p.1) s) | inr r ↦ inr (inr r) ]
    | inr differ ↦
        let e' : Elem (j, w) ((i, u) ∷ insert k v m) = rw differ at e in
        elim e' [
          | inl s ↦ inr (inl s)
          | inr r ↦ elim (insert-Elem k j v w m r) [ inl s ↦ inl s | inr o ↦ inr (inr o) ]
        ]
  ]

  abbrev pub HasKey : String → Dict V → Type 0
  HasKey k m = (v : V) × Elem (k, v) m

  pub HasKey-insert_self : (k : String) (v : V) (m : Dict V) → HasKey k (insert k v m)
  HasKey-insert_self k v [] = (v, inl refl)
  HasKey-insert_self k v ((i, u) ∷ m) = elim (Bool-cases (i == k)) [
    | inl same ↦ rw same (v, inl refl)
    | inr differ ↦ rw differ (let (w, e) = HasKey-insert_self k v m in (w, inr e))
  ]

  pub HasKey-insert : (k j : String) (v : V) (m : Dict V) → HasKey j m → HasKey j (insert k v m)
  HasKey-insert k j v [] (w, e) = absurd e
  HasKey-insert k j v ((i, u) ∷ m) (w, e) = elim (Bool-cases (i == k)) [
    | inl same ↦ rw same (elim e [
      | inl s ↦ (v, inl (ap (λ (x : String). (x, v)) (ap (λ p. p.0) s ∙ (eq_iff i k).0 same)))
      | inr r ↦ (w, inr r)
    ])
    | inr differ ↦ rw differ (elim e [
      | inl s ↦ (w, inl s)
      | inr r ↦ let (x, r') = HasKey-insert k j v m (w, r) in (x, inr r')
    ])
  ]
