-- ===== src/Operators/Joins/Partitions/Blocks.antt =====
-- Lists cut into blocks by a number of each item, and gathered again.
use mathlib.Core.List.{Perm}
use mathlib.Core.List.Perm
use mathlib.Core.Path.{ap₂}
use distributed_sql.Prelude.{
  ℕ, zero, suc, ◌+◌, ◌<◌, ◌≤◌, ◌==◌, ==_iff, ◌≡◌, refl, sym, ap, ◌∙◌, subst, Bool, true, false,
  List, [], ◌∷◌, ◌++◌, map, flatten, any, keep, append-nil, append_assoc, Bool-cases, if◌then◌else◌,
  inl, inr, arith,
}

module _ {X : Type 0} where
  pub Perm-of_eq : {xs ys : List X} → xs ≡ ys → Perm xs ys
  Perm-of_eq {xs} e = subst (Perm xs) e (Perm.refl xs)

  Perm-middle : (x : X) (ys xs : List X) → Perm (x ∷ (ys ++ xs)) (ys ++ x ∷ xs)
  Perm-middle x [] xs = Perm.refl (x ∷ xs)
  Perm-middle x (y ∷ ys) xs =
      Perm.trans (Perm.swap y x (ys ++ xs)) (Perm.cons y (Perm-middle x ys xs))

  append-Perm : (xs ys : List X) → Perm (xs ++ ys) (ys ++ xs)
  append-Perm [] ys = Perm-of_eq (sym (append-nil ys))
  append-Perm (x ∷ xs) ys = Perm.trans (Perm.cons x (append-Perm xs ys)) (Perm-middle x ys xs)

  Perm-front : (xs ys zs : List X) → Perm (xs ++ (ys ++ zs)) (ys ++ (xs ++ zs))
  Perm-front xs ys zs =
      Perm.trans (Perm-of_eq (sym (append_assoc xs ys zs)))
        (Perm.trans (Perm.append_right zs (append-Perm xs ys)) (Perm-of_eq (append_assoc ys xs zs)))

  -- Two parts for each index, gathered.
  pub Perm-halves :
      (f g : ℕ → List X) (is : List ℕ)
      → Perm (flatten (map (λ i. f i ++ g i) is)) (flatten (map f is) ++ flatten (map g is))
  Perm-halves f g [] = Perm.refl []
  Perm-halves f g (i ∷ is) =
      let rest = Perm-halves f g is in
      let fs = flatten (map f is) in
      let gs = flatten (map g is) in
      Perm.trans (Perm.append_left (f i ++ g i) rest) (
        Perm.trans (Perm-of_eq (append_assoc (f i) (g i) (fs ++ gs))) (
          Perm.trans (Perm.append_left (f i) (Perm-front (g i) fs gs))
            (Perm-of_eq (sym (append_assoc (f i) fs (g i ++ gs))))))

abbrev pub upto : ℕ → ℕ → List ℕ
upto first zero = []
upto first (suc n) = first ∷ upto (suc first) n

module _ {R X : Type 0} (f : R → List X) (number : R → ℕ) where
  abbrev pub block : List R → ℕ → List X
  block xs i = flatten (map f (keep (λ r. number r == i) xs))

  abbrev pub blocks : List R → List ℕ → List X
  blocks xs is = flatten (map (block xs) is)

  blocks-absent :
      (x : R) (xs : List R) (first n : ℕ)
      → number x < first
      → blocks (x ∷ xs) (upto first n) ≡ blocks xs (upto first n)
  blocks-absent x xs first zero h = refl
  blocks-absent x xs first (suc n) h =
      let other : (number x == first) ≡ false = ground arith in
      rw other (ap (λ l. block xs first ++ l) (blocks-absent x xs (suc first) n (omega arith)))

  blocks-cons :
      (x : R) (xs : List R) (first n : ℕ)
      → first ≤ number x
      → number x < first + n
      → Perm (blocks (x ∷ xs) (upto first n)) (f x ++ blocks xs (upto first n))
  blocks-cons x xs first zero h k = absurd (omega arith)
  blocks-cons x xs first (suc n) h k = elim (Bool-cases (number x == first)) [
    | inl here ↦
        let same = (==_iff (number x) first).0 here in
        rw here (
          Perm-of_eq (
            ap (λ l. (f x ++ block xs first) ++ l) (blocks-absent x xs (suc first) n (omega arith))
            ∙ append_assoc (f x) (block xs first) (blocks xs (upto (suc first) n))))
    | inr later ↦ rw later (
        Perm.trans
          (Perm.append_left (block xs first)
            (blocks-cons x xs (suc first) n (ground arith) (omega arith)))
          (Perm-front (block xs first) (f x) (blocks xs (upto (suc first) n))))
  ]

  blocks-none : (first n : ℕ) → blocks [] (upto first n) ≡ []
  blocks-none first zero = refl
  blocks-none first (suc n) = blocks-none (suc first) n

  pub blocks-Perm :
      (n : ℕ)
      → ((x : R) → number x < n)
      → (xs : List R) → Perm (blocks xs (upto 0 n)) (flatten (map f xs))
  blocks-Perm n h [] = Perm-of_eq (blocks-none 0 n)
  blocks-Perm n h (x ∷ xs) =
      Perm.trans (blocks-cons x xs 0 n (omega arith) (let k = h x in omega arith))
        (Perm.append_left (f x) (blocks-Perm n h xs))

module _ {A : Type 0} where
  pub keep-keep :
      (p q : A → Bool)
      → ((x : A) → p x ≡ true → q x ≡ true)
      → (xs : List A) → keep p (keep q xs) ≡ keep p xs
  keep-keep p q h [] = refl
  keep-keep p q h (x ∷ xs) = elim (Bool-cases (p x)) [
    | inl e ↦ rw (h x e, e) (ap (λ l. x ∷ l) (keep-keep p q h xs))
    | inr e ↦ elim (Bool-cases (q x)) [
      | inl k ↦ rw (k, e) (keep-keep p q h xs)
      | inr k ↦ rw (k, e) (keep-keep p q h xs)
    ]
  ]

  pub any-keep :
      (p q : A → Bool)
      → ((x : A) → p x ≡ true → q x ≡ true)
      → (xs : List A) → any p (keep q xs) ≡ any p xs
  any-keep p q h [] = refl
  any-keep p q h (x ∷ xs) = elim (Bool-cases (p x)) [
    | inl e ↦ rw (h x e, e) refl
    | inr e ↦ elim (Bool-cases (q x)) [
      | inl k ↦ rw (k, e) (any-keep p q h xs)
      | inr k ↦ rw (k, e) (any-keep p q h xs)
    ]
  ]

  pub keep-flatten :
      {B : Type 0} (b : Bool) (p : A → Bool) (f : A → B) (xs : List A)
      → (if b then map f (keep p xs) else [])
        ≡ flatten (map (λ x. if b then (if p x then f x ∷ [] else []) else []) xs)
  keep-flatten true p f [] = refl
  keep-flatten true p f (x ∷ xs) = elim (Bool-cases (p x)) [
    | inl e ↦ rw e (ap (λ l. f x ∷ l) (keep-flatten true p f xs))
    | inr e ↦ rw e (keep-flatten true p f xs)
  ]
  keep-flatten false p f [] = refl
  keep-flatten false p f (x ∷ xs) = keep-flatten false p f xs

  pub map-keep_congr :
      {B : Type 0} (f g : A → B) (p : A → Bool)
      → ((x : A) → p x ≡ true → f x ≡ g x)
      → (xs : List A) → map f (keep p xs) ≡ map g (keep p xs)
  map-keep_congr f g p h [] = refl
  map-keep_congr f g p h (x ∷ xs) = elim (Bool-cases (p x)) [
    | inl e ↦ rw (e) (ap₂ (λ y ys. y ∷ ys) (h x e) (map-keep_congr f g p h xs))
    | inr e ↦ rw e (map-keep_congr f g p h xs)
  ]
