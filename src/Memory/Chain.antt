-- ===== src/Memory/Chain.antt =====
-- `_chain`: the loop ends within its fuel, at the root, and visits no account twice.
use distributed_sql.Prelude.{
  ℕ, zero, suc, ◌≤◌, ◌<◌, ◌≡◌, refl, ap, Option, none, some, List, [], ◌∷◌, arith, false, length,
  get_elem?, get_elem?-lt_length, All, Option-cases, inl, inr,
}
use distributed_sql.Memory.{Heap, parent_of, ancestors, chain}
use distributed_sql.Memory.Update.{elem, Distinct}

-- An account is made after its parent.
abbrev pub IsTree : Heap → Type 0
IsTree h = (a p : ℕ) → parent_of h a ≡ some p → p < a

-- The addresses from an optional account up to a root, each followed by its parent.
pub data IsPath (h : Heap) : Option ℕ → List ℕ → Type 0 where
  top : IsPath h none []
  up : {p : ℕ} {path : List ℕ} → IsPath h (parent_of h p) path → IsPath h (some p) (p ∷ path)

abbrev Below : ℕ → Option ℕ → Type 0
Below n none = Unit
Below n (some p) = p < n

parent-Below : (h : Heap) → IsTree h → (a : ℕ) → Below a (parent_of h a)
parent-Below h tree a = go (parent_of h a) refl
  where
    go : (o : Option ℕ) → parent_of h a ≡ o → Below a o
    go none e = tt
    go (some p) e = tree a p e

Below-le : (n m : ℕ) (o : Option ℕ) → n ≤ m → Below n o → Below m o
Below-le n m none le b = tt
Below-le n m (some p) le b = omega arith

ancestors-IsPath :
    (h : Heap) (fuel : ℕ) (o : Option ℕ) → IsTree h → Below fuel o → IsPath h o (ancestors fuel h o)
unfolding ancestors
ancestors-IsPath h zero none tree b = top
ancestors-IsPath h (suc fuel) none tree b = top
ancestors-IsPath h zero (some p) tree b = absurd (omega arith)
ancestors-IsPath h (suc fuel) (some p) tree b = up (
    ancestors-IsPath h fuel (parent_of h p) tree
      (Below-le p fuel (parent_of h p) (omega arith) (parent-Below h tree p)))

parent-Below-length : (h : Heap) → IsTree h → (a : ℕ) → Below (length h) (parent_of h a)
parent-Below-length h tree a = elim (Option-cases (get_elem? h a)) [
  | inl e ↦ rw (e, parent_of, Below) tt
  | inr (x, e) ↦
      Below-le a (length h) (parent_of h a) (omega (arith, get_elem?-lt_length h a e))
        (parent-Below h tree a)
]

-- In a heap whose accounts are younger than their parents, `chain` lists the account and then its
-- parent, its parent's parent and so on, and it stops at an account without a parent: the fuel is
-- never what ends the loop.
pub chain-IsPath : (h : Heap) (self : ℕ) → IsTree h → IsPath h (some self) (chain h self)
unfolding chain
chain-IsPath h self tree =
    up (ancestors-IsPath h (length h) (parent_of h self) tree (parent-Below-length h tree self))

ancestors_under :
    (h : Heap) (fuel n : ℕ) (o : Option ℕ)
    → IsTree h
    → Below n o
    → All (λ a. a < n) (ancestors fuel h o)
unfolding ancestors
ancestors_under h zero n o tree b = tt
ancestors_under h (suc fuel) n none tree b = tt
ancestors_under h (suc fuel) n (some p) tree b = (
  b,
  ancestors_under h fuel n (parent_of h p) tree
      (Below-le p n (parent_of h p) (omega arith) (parent-Below h tree p)),
)

elem-above : (n : ℕ) (l : List ℕ) → All (λ a. a < n) l → elem n l ≡ false
elem-above n [] h = refl
elem-above n (a ∷ l) h = ground (arith, elem-above n l h.1)

ancestors-Distinct : (h : Heap) (fuel : ℕ) (o : Option ℕ) → IsTree h → Distinct (ancestors fuel h o)
unfolding ancestors
ancestors-Distinct h zero o tree = tt
ancestors-Distinct h (suc fuel) none tree = tt
ancestors-Distinct h (suc fuel) (some p) tree = (
  elem-above p _ (ancestors_under h fuel p (parent_of h p) tree (parent-Below h tree p)),
  ancestors-Distinct h fuel (parent_of h p) tree,
)

pub chain-Distinct : (h : Heap) (self : ℕ) → IsTree h → Distinct (chain h self)
unfolding chain
chain-Distinct h self tree = (
  elem-above self _
      (ancestors_under h (length h) self (parent_of h self) tree (parent-Below h tree self)),
  ancestors-Distinct h (length h) (parent_of h self) tree,
)

-- A heap with the same parents has the same chains.
ancestors_congr :
    (h k : Heap) (fuel : ℕ) (o : Option ℕ)
    → ((a : ℕ) → parent_of h a ≡ parent_of k a)
    → ancestors fuel h o ≡ ancestors fuel k o
unfolding ancestors
ancestors_congr h k zero o same = refl
ancestors_congr h k (suc fuel) none same = refl
ancestors_congr h k (suc fuel) (some p) same =
    rw (same p) (ap (λ l. p ∷ l) (ancestors_congr h k fuel (parent_of k p) same))

pub chain_congr :
    (h k : Heap) (self : ℕ)
    → length h ≡ length k
    → ((a : ℕ) → parent_of h a ≡ parent_of k a)
    → chain h self ≡ chain k self
unfolding chain
chain_congr h k self len same =
    rw (len, same self)
      (ap (λ l. self ∷ l) (ancestors_congr h k (length k) (parent_of k self) same))
