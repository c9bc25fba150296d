-- ===== src/Scheduler/Choice.antt =====
-- The choice of a Worker for an attempt.
use distributed_sql.Prelude.{
  ℕ, zero, suc, ◌%◌, ◌<◌, ◌≡◌, ◌≢◌, refl, sym, ap, subst, String, Bool, true, false, not, some,
  List, [], ◌∷◌, keep, length, get_elem?, get_elem?-of_lt, Elem, str_elem, Bool-cases,
  if◌then◌else◌, arith, inl, inr, ◌⊎◌,
}
use distributed_sql.Scheduler.{or_else, fresh, choose_worker}

get_elem?-Elem : {A : Type 0} (xs : List A) (i : ℕ) {a : A} → get_elem? xs i ≡ some a → Elem a xs
get_elem?-Elem [] i h = cc
get_elem?-Elem (x ∷ xs) zero h = inl (cc)
get_elem?-Elem (x ∷ xs) (suc i) h = inr (get_elem?-Elem xs i h)

kept-Elem :
    {A : Type 0} (b : Bool) (x a : A) (ys : List A)
    → Elem a (if b then x ∷ ys else ys)
    → ((a ≡ x) × (b ≡ true)) ⊎ Elem a ys
kept-Elem true x a ys (inl e) = inl (e, refl)
kept-Elem true x a ys (inr later) = inr later
kept-Elem false x a ys h = inr h

keep-Elem :
    {A : Type 0} (p : A → Bool) (xs : List A) (a : A)
    → Elem a (keep p xs)
    → Elem a xs × (p a ≡ true)
keep-Elem p [] a h = absurd h
keep-Elem p (x ∷ xs) a h = elim (kept-Elem (p x) x a (keep p xs) h) [
  | inl (e, q) ↦ (inl e, subst (λ y. p y ≡ true) (sym e) q)
  | inr later ↦ let (i, q) = keep-Elem p xs a later in (inr i, q)
]

keeps-Elem :
    {A : Type 0} (p : A → Bool) (xs : List A) (a : A) → Elem a xs → p a ≡ true → keep p xs ≢ []
keeps-Elem p [] a h q = absurd h
keeps-Elem p (x ∷ xs) a (inl e) q = λ empty. absurd (let r = ap p e in ground arith)
keeps-Elem p (x ∷ xs) a (inr later) q = λ empty. absurd (
    let ih = keeps-Elem p xs a later q in
    elim (Bool-cases (p x)) [ inl holds ↦ ground arith | inr fails ↦ ih (ground arith) ])

turn_below : (next n : ℕ) → next % suc n < suc n
turn_below next n = omega arith

or_else-Elem : (xs ys : List String) (a : String) → Elem a (or_else xs ys) → Elem a xs ⊎ Elem a ys
or_else-Elem [] ys a h = inr h
or_else-Elem (x ∷ xs) ys a h = inl h

some_candidate :
    (xs : List String) (w : String) (ws : List String) (next : ℕ)
    → (c : String) × (get_elem? (or_else xs (w ∷ ws)) (next % length (or_else xs (w ∷ ws)))
        ≡ some c)
some_candidate [] w ws next = get_elem?-of_lt (w ∷ ws) _ (turn_below next (length ws))
some_candidate (x ∷ xs) w ws next = get_elem?-of_lt (x ∷ xs) _ (turn_below next (length xs))

-- A Worker is chosen exactly when one is healthy.
pub choose_worker-ok :
    (healthy previous : List String) (next : ℕ)
    → healthy ≢ []
    → (w : String) × (choose_worker healthy previous next ≡ some w)
unfolding choose_worker
choose_worker-ok [] previous next h = absurd (h refl)
choose_worker-ok (w ∷ ws) previous next h = some_candidate (fresh previous (w ∷ ws)) w ws next

prefers :
    (xs ys : List String) (previous : List String) (a : String)
    → ((x : String) → Elem x xs → not (str_elem x previous) ≡ true)
    → xs ≢ []
    → Elem a (or_else xs ys)
    → str_elem a previous ≡ false
prefers [] ys previous a all_fresh some_fresh h = absurd (some_fresh refl)
prefers (x ∷ xs) ys previous a all_fresh some_fresh h = let q = all_fresh a h in ground arith

-- The Worker chosen for an attempt is healthy, and while a healthy Worker is left that the Task has
-- not tried, it is one of those.
pub choose_worker-Elem :
    (healthy previous : List String) (next : ℕ) (w : String)
    → choose_worker healthy previous next ≡ some w
    → Elem w healthy
      × ((other : String)
          → Elem other healthy
          → str_elem other previous ≡ false
          → str_elem w previous ≡ false)
unfolding choose_worker
choose_worker-Elem [] previous next w h = cc
choose_worker-Elem (x ∷ xs) previous next w h =
    let healthy = x ∷ xs in
    let new = fresh previous healthy in
    let tested = λ (u : String). not (str_elem u previous) in
    let chosen = get_elem?-Elem (or_else new healthy) (next % length (or_else new healthy)) h in
    (
      elim (or_else-Elem new healthy w chosen) [
        | inl h' ↦ (keep-Elem tested healthy w h').0
        | inr h' ↦ h'
      ],
      λ other here untried.
          prefers new healthy previous w (λ u e. (keep-Elem tested healthy u e).1)
            (keeps-Elem tested healthy other here (ground arith)) chosen,
    )
