-- ===== src/Physical/Stages/Precede.antt =====
-- Lists of stages in which each one depends on earlier ones only, and lists of different numbers.
use distributed_sql.Prelude.{
  ℕ, zero, suc, ◌≡◌, ◌≤◌, ◌<◌, ◌≢◌, sym, subst, String, List, [], ◌∷◌, ◌++◌, map, All, All-append,
  Elem, Elem-append_left, Elem-append_right, append_assoc, append-nil, arith, inl, inr,
}
use distributed_sql.Physical.Stages.{Stage}

abbrev pub ids : List Stage → List String
ids stages = map (λ stage. stage.stage_id) stages

-- After stages with some identities: each stage depends only on stages before it.
abbrev pub IsOrdered : List String → List Stage → Type 0
IsOrdered before [] = Unit
IsOrdered before (stage ∷ stages) =
    All (λ d. Elem d before) stage.dependency_stage_ids
    × IsOrdered (before ++ stage.stage_id ∷ []) stages

abbrev pub AllDiffer : {A : Type 0} → List A → Type 0
AllDiffer [] = Unit
AllDiffer (n ∷ ns) = All (λ m. n ≢ m) ns × AllDiffer ns

pub AllDiffer-map :
    {A B : Type 0} (f : A → B)
    → ((a b : A) → f a ≡ f b → a ≡ b)
    → (xs : List A) → AllDiffer xs
    → AllDiffer (map f xs)
AllDiffer-map f injective [] h = tt
AllDiffer-map f injective (x ∷ xs) (first, h) = (go xs first, AllDiffer-map f injective xs h)
  where
    go : (ys : List _) → All (λ y. x ≢ y) ys → All (λ b. f x ≢ b) (map f ys)
    go [] k = tt
    go (y ∷ ys) (apart, k) = ((λ e. apart (injective x y e)), go ys k)

-- The numbers `range(from, from + n)`.
abbrev pub ordinals : ℕ → ℕ → List ℕ
ordinals from zero = []
ordinals from (suc n) = from ∷ ordinals (suc from) n

abbrev pub Between : ℕ → ℕ → List ℕ → Type 0
Between low high ns = All (λ n. (low ≤ n) × (n < high)) ns

pub All-mono :
    {A : Type 0} (P Q : A → Type 0) → ((a : A) → P a → Q a) → (xs : List A) → All P xs → All Q xs
All-mono P Q f [] h = tt
All-mono P Q f (x ∷ xs) (first, h) = (f x first, All-mono P Q f xs h)

Elem-append_same :
    (d : String) (xs ys zs : List String)
    → ((e : String) → Elem e xs → Elem e ys)
    → Elem d (xs ++ zs)
    → Elem d (ys ++ zs)
Elem-append_same d [] ys zs f h = Elem-append_right d ys zs h
Elem-append_same d (x ∷ xs) ys zs f (inl e) = Elem-append_left d ys zs (f d (inl e))
Elem-append_same d (x ∷ xs) ys zs f (inr h) = Elem-append_same d xs ys zs (λ e m. f e (inr m)) h

pub IsOrdered-mono :
    (before wider : List String) (stages : List Stage)
    → ((d : String) → Elem d before → Elem d wider)
    → IsOrdered before stages
    → IsOrdered wider stages
IsOrdered-mono before wider [] f h = tt
IsOrdered-mono before wider (stage ∷ stages) f (first, h) = (
  All-mono (λ d. Elem d before) (λ d. Elem d wider) f stage.dependency_stage_ids first,
  IsOrdered-mono (before ++ stage.stage_id ∷ []) (wider ++ stage.stage_id ∷ []) stages
      (λ d m. Elem-append_same d before wider (stage.stage_id ∷ []) f m) h,
)

pub IsOrdered-append :
    (before : List String) (xs ys : List Stage)
    → IsOrdered before xs
    → IsOrdered (before ++ ids xs) ys
    → IsOrdered before (xs ++ ys)
IsOrdered-append before [] ys h k = subst (λ l. IsOrdered l ys) (append-nil before) k
IsOrdered-append before (x ∷ xs) ys (first, h) k = (
  first,
  IsOrdered-append (before ++ x.stage_id ∷ []) xs ys h
      (subst (λ l. IsOrdered l ys) (sym (append_assoc before (x.stage_id ∷ []) (ids xs))) k),
)

pub AllDiffer-append :
    (low middle high : ℕ) (ns ms : List ℕ)
    → Between low middle ns
    → Between middle high ms
    → AllDiffer ns
    → AllDiffer ms
    → AllDiffer (ns ++ ms)
AllDiffer-append low middle high [] ms b c h k = k
AllDiffer-append low middle high (n ∷ ns) ms ((_, below), b) c (first, h) k = (
  All-append (λ m. n ≢ m) ns ms first
      (All-mono (λ m. (middle ≤ m) × (m < high)) (λ m. n ≢ m) (λ m (above, _). (λ e. omega arith))
        ms c),
  AllDiffer-append low middle high ns ms b c h k,
)

pub AllDiffer-last :
    (n high : ℕ) (ms : List ℕ) → Between (suc n) high ms → AllDiffer ms → AllDiffer (ms ++ n ∷ [])
AllDiffer-last n high [] b h = (tt, tt)
AllDiffer-last n high (m ∷ ms) ((above, _), b) (first, h) = (
  All-append (λ k. m ≢ k) ms (n ∷ []) first ((λ e. omega arith), tt),
  AllDiffer-last n high ms b h,
)
