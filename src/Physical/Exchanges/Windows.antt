-- ===== src/Physical/Exchanges/Windows.antt =====
-- The keys by which the input of a window operator is split.
use distributed_sql.Prelude.{
  ◌≡◌, ◌≢◌, ◌↔◌, refl, sym, ap, ◌∙◌, subst, Bool, true, false, ◌&&◌, List, [], ◌∷◌, String, str_eq,
  eq_iff, all, All, Bool-cases, inl, inr, ok, ok-injective, ltb, ℕ, arith,
}
use distributed_sql.Common.Protocol
use distributed_sql.Planner.Values.{Python}
use distributed_sql.Planner.Expressions.{Expressions, nil, cons}
use distributed_sql.Planner.Sql.{sql_all}
use distributed_sql.Planner.Logical.{Plan, NamedExpression, exchange}
use distributed_sql.Physical.{
  exchanged, hash_or_single, count_or_one, partition_by, same_texts, window_partition_keys,
}

same_texts_iff : (a b : List String) → (same_texts a b ≡ true) ↔ (a ≡ b)
same_texts_iff [] [] = (λ e. refl, λ e. refl)
same_texts_iff [] (t ∷ ts) = (λ e. cc, λ e. cc)
same_texts_iff (s ∷ ss) [] = (λ e. cc, λ e. cc)
same_texts_iff (s ∷ ss) (t ∷ ts) = (
  (λ e.
      let (here, later) = both (str_eq s t) (same_texts ss ts) e in
      let one = (eq_iff s t).0 here in let rest = (same_texts_iff ss ts).0 later in cc),
  (λ e.
      let one : s ≡ t = cc in
      let rest : ss ≡ ts = cc in
      let here = (eq_iff s t).1 one in let later = (same_texts_iff ss ts).1 rest in ground arith),
)
  where
    both : (a b : Bool) → (a && b) ≡ true → (a ≡ true) × (b ≡ true)
    both a b h = ground arith

module _ {O : Type 0} (py : Python O) where
  -- The SQL texts of the PARTITION BY keys of a window function.
  abbrev pub texts_of : NamedExpression O → List String
  texts_of item = sql_all py (partition_by item.expression)

  -- There is a function, and all of them have these PARTITION BY keys.
  abbrev pub Share : List (NamedExpression O) → List String → Type 0
  Share [] texts = ⊥
  Share (first ∷ rest) texts = All (λ item. texts_of item ≡ texts) (first ∷ rest)

  -- Read from an exchange into so many partitions by the hash of the keys that all functions share; or from one into a single
  -- partition, where there are no keys that they share.
  abbrev pub IsWindowed : ℕ → List (NamedExpression O) → Plan O → Type 0
  IsWindowed total functions (exchange id input Protocol.single nil count schema) =
      (count ≡ 1) × ((key : String) (keys : List String) → ¬ Share functions (key ∷ keys))
  IsWindowed total functions (exchange id input Protocol.hash (cons key keys) count schema) =
      Share functions (sql_all py (cons key keys)) × (count ≡ total)
  IsWindowed total functions _ = ⊥

  all-Same :
      (texts : List String) (items : List (NamedExpression O))
      → all (λ item. same_texts (texts_of item) texts) items ≡ true
      → All (λ item. texts_of item ≡ texts) items
  all-Same texts [] h = tt
  all-Same texts (item ∷ items) h = elim (Bool-cases (same_texts (texts_of item) texts)) [
    | inl same ↦
        ((same_texts_iff (texts_of item) texts).0 same, all-Same texts items (rw same at h))
    | inr differs ↦ let e = rw differs at h in cc
  ]

  Same-all :
      (texts : List String) (items : List (NamedExpression O))
      → All (λ item. texts_of item ≡ texts) items
      → all (λ item. same_texts (texts_of item) texts) items ≡ true
  Same-all texts [] h = refl
  Same-all texts (item ∷ items) (same, h) =
      let e = (same_texts_iff (texts_of item) texts).1 same in
      let later = Same-all texts items h in ground arith

  true≢false : ◌≢◌ {A = Bool} true false
  true≢false e = cc

  -- What the keys of a window operator say of its functions.
  abbrev Read : List (NamedExpression O) → Expressions O → Type 0
  Read functions nil = (key : String) (keys : List String) → ¬ Share functions (key ∷ keys)
  Read functions (cons key keys) = Share functions (sql_all py (cons key keys))

  keys-Read :
      (first : NamedExpression O) (rest : List (NamedExpression O)) (keys : Expressions O)
      → partition_by first.expression ≡ keys
      → Read (first ∷ rest) (window_partition_keys py (first ∷ rest))
  unfolding window_partition_keys sql_all
  keys-Read first rest nil e = rw e (λ key keys (same, _). let none_here = ap (sql_all py) e in cc)
  keys-Read first rest (cons key keys) e =
      elim (Bool-cases
        (all (λ item. same_texts (texts_of item) (sql_all py (cons key keys))) rest)) [
          | inl shared ↦
              rw (e, shared) (ap (sql_all py) e, all-Same (sql_all py (cons key keys)) rest shared)
          | inr apart ↦
              rw (e, apart)
                (λ k ks (here, same).
                  let texts : sql_all py (cons key keys) ≡ k ∷ ks =
                    sym (ap (sql_all py) e) ∙ here in
                  let yes =
                    Same-all (sql_all py (cons key keys)) rest
                      (subst (λ t. All (λ item. texts_of item ≡ t) rest) (sym texts) same) in
                  absurd (true≢false (sym yes ∙ apart)))
        ]

  window_partition_keys-Read :
      (functions : List (NamedExpression O)) → Read functions (window_partition_keys py functions)
  unfolding window_partition_keys
  window_partition_keys-Read [] = λ key keys none_there. none_there
  window_partition_keys-Read (first ∷ rest) =
      keys-Read first rest (partition_by first.expression) refl

  exchanged-Windowed :
      (functions : List (NamedExpression O)) (input : Plan O) (keys : Expressions O) (n : ℕ)
      (suffix : String) {output : Plan O}
      → Read functions keys
      → exchanged input keys (hash_or_single keys) (count_or_one n keys) suffix ≡ ok output
      → IsWindowed n functions output
  unfolding exchanged
  exchanged-Windowed functions input nil n suffix read e =
      subst (IsWindowed n functions) (ok-injective e) (refl, read)
  exchanged-Windowed functions input (cons key keys) n suffix read e = elim (Bool-cases (ltb n 1)) [
    | inl small ↦ let e' = rw small at e in cc
    | inr enough ↦
        let e' = rw enough at e in subst (IsWindowed n functions) (ok-injective e') (read, refl)
  ]

  pub exchanged-IsWindowed :
      (functions : List (NamedExpression O)) (input : Plan O) (n : ℕ) {output : Plan O}
      → exchanged input
          (window_partition_keys py functions)
          (hash_or_single (window_partition_keys py functions))
          (count_or_one n (window_partition_keys py functions))
          "window"
        ≡ ok output
      → IsWindowed n functions output
  exchanged-IsWindowed functions input n e =
      exchanged-Windowed functions input (window_partition_keys py functions) n "window"
        (window_partition_keys-Read functions) e
