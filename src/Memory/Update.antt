-- ===== src/Memory/Update.antt =====
-- What the loops over a chain of distinct addresses write.
use distributed_sql.Prelude.{
  ℕ, ◌≡◌, ◌≢◌, refl, ◌∙◌, Bool, false, ◌||◌, List, [], ◌∷◌, arith, ◌==◌, Bool-cases, ==_iff, length,
  get_elem?, length-set, get_elem?-set_self, get_elem?-set_ne, get_elem?-lt_length, Option-cases,
  inl, inr, if◌then◌else◌,
}
use distributed_sql.Memory.{Account, Heap, modify, modify_all}
use mathlib.Core.Option

abbrev pub elem : ℕ → List ℕ → Bool
elem a [] = false
elem a (b ∷ bs) = (b == a) || elem a bs

abbrev pub Distinct : List ℕ → Type 0
Distinct [] = Unit
Distinct (a ∷ rest) = (elem a rest ≡ false) × Distinct rest

pub length-modify : (f : Account → Account) (a : ℕ) (h : Heap) → length (modify f a h) ≡ length h
unfolding modify
length-modify f a h = elim (Option-cases (get_elem? h a)) [
  | inl e ↦ rw (e, modify)
  | inr (x, e) ↦ rw (e, modify) (length-set h a (f x))
]

pub get_elem?-modify :
    (f : Account → Account) (a j : ℕ) (h : Heap)
    → get_elem? (modify f a h) j ≡ (if a == j then Option.map f (get_elem? h j) else get_elem? h j)
unfolding modify
get_elem?-modify f a j h = elim (Bool-cases (a == j)) [
  | inl same ↦ rw same (modify_here ((==_iff a j).0 same))
  | inr other ↦ rw other (modify_elsewhere (ground arith))
]
  where
    modify_here : a ≡ j → get_elem? (modify f a h) j ≡ Option.map f (get_elem? h j)
    modify_here p = elim (Option-cases (get_elem? h a)) [
      | inl e ↦ rw (← p) (rw (e, modify) e)
      | inr (x, e) ↦
          rw (← p) (rw (e, modify) (get_elem?-set_self h a (f x) (get_elem?-lt_length h a e)))
    ]

    modify_elsewhere : a ≢ j → get_elem? (modify f a h) j ≡ get_elem? h j
    modify_elsewhere n = elim (Option-cases (get_elem? h a)) [
      | inl e ↦ rw (e, modify)
      | inr (x, e) ↦ rw (e, modify) (get_elem?-set_ne h a j (f x) n)
    ]

pub get_elem?-modify_all :
    (f : Account → Account) (rest : List ℕ) (j : ℕ) (h : Heap)
    → Distinct rest
    → get_elem? (modify_all f rest h) j
      ≡ (if elem j rest then Option.map f (get_elem? h j) else get_elem? h j)
unfolding modify_all
get_elem?-modify_all f [] j h d = refl
get_elem?-modify_all f (a ∷ rest) j h d =
    ground (arith, get_elem?-modify_all f rest j (modify f a h) d.1, get_elem?-modify f a j h)

pub length-modify_all :
    (f : Account → Account) (rest : List ℕ) (h : Heap) → length (modify_all f rest h) ≡ length h
unfolding modify_all
length-modify_all f [] h = refl
length-modify_all f (a ∷ rest) h = length-modify_all f rest (modify f a h) ∙ length-modify f a h
