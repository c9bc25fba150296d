-- ===== src/Prelude/Results.antt =====
-- What a fallible call gives: its value, or what it raised. `E` is the type of the exceptions.
use mathlib.Core.Path.{◌≡◌, refl, ap₂, fun_ext}
use mathlib.Core.Bool.{Bool, true, false}
use distributed_sql.Prelude.Tests.{if◌then◌else◌}
use mathlib.Core.Logic.{◌⊎◌, inl, inr}

pub data Result (E A : Type 0) : Type 0 where
  ok : A → Result E A
  err : E → Result E A

module _ {E : Type 0} where
  infixl 5 ◌>>=◌ ◌>>◌
  abbrev pub ◌>>=◌ : {A B : Type 0} → Result E A → (A → Result E B) → Result E B
  ok a >>= f = f a
  err e >>= f = err e

  abbrev pub ◌>>◌ : {A B : Type 0} → Result E A → Result E B → Result E B
  m >> k = m >>= λ _. k

  -- `if not b: raise e`
  abbrev pub guard : Bool → E → Result E (Unit {0})
  guard true e = ok tt
  guard false e = err e

  pub >>=-eq-ok :
      {A B : Type 0} (first : Result E A) (next : A → Result E B) {result : B}
      → (first >>= next) ≡ ok result
      → (x : A) × (first ≡ ok x) × (next x ≡ ok result)
  >>=-eq-ok (ok x) next done = (x, refl, done)
  >>=-eq-ok (err raised) next done = cc

  pub Result-cases :
      {A : Type 0} (m : Result E A) → ((a : A) × (m ≡ ok a)) ⊎ ((e : E) × (m ≡ err e))
  Result-cases (ok a) = inl (a, refl)
  Result-cases (err e) = inr (e, refl)

  -- Two blocks whose parts agree agree.
  pub >>=-congr :
      {A B : Type 0} {m n : Result E A} {f g : A → Result E B}
      → m ≡ n
      → ((a : A) → f a ≡ g a)
      → (m >>= f) ≡ (n >>= g)
  >>=-congr p h = ap₂ ◌>>=◌ p (fun_ext h)

  pub ok-injective : {A : Type 0} {a b : A} → ◌≡◌ {A = Result E A} (ok a) (ok b) → a ≡ b
  ok-injective p = cc

  -- The second call gives whatever the first one gives, where that is a value.
  pub record Keeps {A : Type 0} (m n : Result E A) : Type 0 where
    pub at : (a : A) → m ≡ ok a → n ≡ ok a

  pub Keeps-refl : {A : Type 0} (m : Result E A) → Keeps m m
  Keeps-refl m = record { at = λ a p. p }

  pub Keeps-bind :
      {A B : Type 0} (m n : Result E A) (f g : A → Result E B)
      → Keeps m n
      → ((a : A) → Keeps (f a) (g a))
      → Keeps (m >>= f) (n >>= g)
  Keeps-bind m n f g k l = record {
    at = λ b p. let (a, q, r) = >>=-eq-ok m f p in rw (k.at a q) ((l a).at b r);
  }

  pub Keeps-if :
      {A : Type 0} (b : Bool) (m n m' n' : Result E A)
      → Keeps m m'
      → Keeps n n'
      → Keeps (if b then m else n) (if b then m' else n')
  Keeps-if true m n m' n' k l = k
  Keeps-if false m n m' n' k l = l
