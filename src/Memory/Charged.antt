-- ===== src/Memory/Charged.antt =====
-- What a client that reserves piece by piece and releases all at once does to the heap.
use mathlib.Core.Option
use distributed_sql.Prelude.{
  ℕ, suc, ◌+◌, ◌≡◌, refl, sym, ap, ◌∙◌, Bool, true, false, Option, none, some, length, get_elem?,
  ok, Option-cases, if◌then◌else◌, arith, inl, inr,
}
use distributed_sql.Prelude.Int.{ℤ, pos, ◌+ℤ◌, ◌-ℤ◌, ◌≤ℤ◌, leb_ℤ, +ℤ_parts, -ℤ_parts, eq_of_parts}
use distributed_sql.Memory.{Account, Heap, chain, parent_of, reserve, release, charge, discharge}
use distributed_sql.Memory.Update.{elem, length-modify_all}
use distributed_sql.Memory.Chain.{IsTree, chain_congr}
use distributed_sql.Memory.Limits.{
  current_of, get_elem?-reserve, get_elem?-release, parent_of-reserve, length-reserve, elem-chain,
}

abbrev plus : Bool → ℕ → Option ℤ → Option ℤ
plus b n o = Option.map (λ (x : ℤ). if b then x +ℤ pos n else x) o

-- `h` is `before`, but for as many bytes more in use on the chain of `self`.
pub record Charged (before : Heap) (self : ℕ) (bytes : ℕ) (h : Heap) : Type 0 where
  pub same_size : length h ≡ length before
  pub same_parents : (a : ℕ) → parent_of h a ≡ parent_of before a
  pub balance :
      (a : ℕ) → current_of h a ≡ plus (elem a (chain before self)) bytes (current_of before a)

module _ (before : Heap) (self : ℕ) (tree : IsTree before) where
  plus_zero : (b : Bool) (o : Option ℤ) → plus b 0 o ≡ o
  plus_zero b none = refl
  plus_zero true (some x) = ap some (eq_of_parts _ _ (omega (arith, +ℤ_parts x (pos 0))))
  plus_zero false (some x) = refl

  pub Charged-refl : Charged before self 0 before
  Charged-refl = record {
    same_size = refl;
    same_parents = λ a. refl;
    balance = λ a. sym (plus_zero (elem a (chain before self)) (current_of before a));
  }

  module _ {h : Heap} {n : ℕ} (charged : Charged before self n h) where
    Charged-chain : chain h self ≡ chain before self
    Charged-chain = chain_congr h before self charged.same_size charged.same_parents

    Charged-IsTree : IsTree h
    Charged-IsTree a p e = tree a p (sym (charged.same_parents a) ∙ e)

  sum_of_two : (b : Bool) (m n : ℕ) (o : Option ℤ) → plus b m (plus b n o) ≡ plus b (n + m) o
  sum_of_two b m n none = refl
  sum_of_two false m n (some x) = refl
  sum_of_two true m n (some x) = ap some (
      eq_of_parts _ _ (
        omega (arith, +ℤ_parts x (pos n), +ℤ_parts (x +ℤ pos n) (pos m), +ℤ_parts x (pos (n + m)))))

  minus_plus :
      (b : Bool) (m : ℕ) (o : Option ℤ)
      → Option.map (λ (x : ℤ). if b then x -ℤ pos m else x) (plus b m o) ≡ plus b 0 o
  minus_plus b m none = refl
  minus_plus false m (some x) = refl
  minus_plus true m (some x) = ap some (
      eq_of_parts _ _
        (omega (arith, +ℤ_parts x (pos m), -ℤ_parts (x +ℤ pos m) (pos m), +ℤ_parts x (pos 0))))

  charge-balance :
      (b : Bool) (m : ℕ) (o : Option Account)
      → Option.map
          (λ (x : Account). x.current_bytes)
          (if b then Option.map (charge (pos m)) o else o)
        ≡ plus b m (Option.map (λ (x : Account). x.current_bytes) o)
  charge-balance false m none = refl
  charge-balance true m none = refl
  charge-balance false m (some x) = refl
  charge-balance true m (some x) = refl

  discharge-balance :
      (b : Bool) (m : ℕ) (o : Option Account)
      → Option.map
          (λ (x : Account). x.current_bytes)
          (if b then Option.map (discharge (pos m)) o else o)
        ≡ Option.map
            (λ (x : ℤ). if b then x -ℤ pos m else x)
            (Option.map (λ (x : Account). x.current_bytes) o)
  discharge-balance false m none = refl
  discharge-balance true m none = refl
  discharge-balance false m (some x) = refl
  discharge-balance true m (some x) = refl

  pub Charged-reserve :
      {h : Heap} {n : ℕ} (k : ℕ)
      → Charged before self n h
      → (reserve (pos (suc k)) self h).0 ≡ ok tt
      → Charged before self (n + suc k) (reserve (pos (suc k)) self h).1
  Charged-reserve {h} {n} k charged done =
      let tree' = Charged-IsTree charged in
      record {
        same_size = length-reserve (pos (suc k)) self h ∙ charged.same_size;
        same_parents = λ a. parent_of-reserve k self h tree' done a ∙ charged.same_parents a;
        balance = λ a.
            ap (λ o. Option.map (λ (x : Account). x.current_bytes) o)
              (get_elem?-reserve k self h a tree' done)
            ∙ charge-balance (elem a (chain h self)) (suc k) (get_elem? h a)
            ∙ ap (λ path. plus (elem a path) (suc k) (current_of h a)) (Charged-chain charged)
            ∙ ap (plus (elem a (chain before self)) (suc k)) (charged.balance a)
            ∙ sum_of_two (elem a (chain before self)) (suc k) n (current_of before a);
      }

  length-release : (k : ℕ) (h : Heap) → length (release (pos (suc k)) self h).1 ≡ length h
  unfolding release
  length-release k h = ground (arith, length-modify_all (discharge (pos (suc k))) (chain h self) h)

  parent_of-release :
      (k : ℕ) (h : Heap)
      → IsTree h
      → (release (pos (suc k)) self h).0 ≡ ok tt
      → (a : ℕ) → parent_of (release (pos (suc k)) self h).1 a ≡ parent_of h a
  parent_of-release k h tree' done a = ground (arith, get_elem?-release k self h a tree' done)

  module _ (base : ℤ) (found : current_of before self ≡ some base) (owned : pos 0 ≤ℤ base) where
    in_use :
        {h : Heap} {n : ℕ}
        → Charged before self n h
        → (x : Account) × (get_elem? h self ≡ some x) × (x.current_bytes ≡ base +ℤ pos n)
    in_use {h} {n} charged = elim (Option-cases (get_elem? h self)) [
      | inl missing ↦
          absurd (let e = charged.balance self in let m = elem-chain before self in ground arith)
      | inr (x, here) ↦
          (x, here, let e = charged.balance self in let m = elem-chain before self in ground arith)
    ]

    enough :
        (x : Account) (k : ℕ)
        → x.current_bytes ≡ base +ℤ pos (suc k)
        → leb_ℤ (pos (suc k)) x.current_bytes ≡ true
    enough x k e = rw e (ground (arith, +ℤ_parts base (pos (suc k))))

    pub Charged-release_ok :
        {h : Heap} (k : ℕ)
        → Charged before self (suc k) h
        → (release (pos (suc k)) self h).0 ≡ ok tt
    unfolding release
    Charged-release_ok {h} k charged =
        let (x, here, e) = in_use charged in let room = enough x k e in ground arith

    pub Charged-release :
        {h : Heap} (k : ℕ)
        → Charged before self (suc k) h
        → Charged before self 0 (release (pos (suc k)) self h).1
    Charged-release {h} k charged =
        let tree' = Charged-IsTree charged in
        let done = Charged-release_ok k charged in
        record {
          same_size = length-release k h ∙ charged.same_size;
          same_parents = λ a. parent_of-release k h tree' done a ∙ charged.same_parents a;
          balance = λ a.
              ap (λ o. Option.map (λ (x : Account). x.current_bytes) o)
                (get_elem?-release k self h a tree' done)
              ∙ discharge-balance (elem a (chain h self)) (suc k) (get_elem? h a)
              ∙ ap
                  (λ path.
                    Option.map (λ (x : ℤ). if elem a path then x -ℤ pos (suc k) else x)
                      (current_of h a))
                  (Charged-chain charged)
              ∙ ap
                  (Option.map
                    (λ (x : ℤ). if elem a (chain before self) then x -ℤ pos (suc k) else x))
                  (charged.balance a)
              ∙ minus_plus (elem a (chain before self)) (suc k) (current_of before a);
        }

  -- All given back: every account has as many bytes in use as before.
  pub Charged-zero :
      {h : Heap} → Charged before self 0 h → (a : ℕ) → current_of h a ≡ current_of before a
  Charged-zero charged a =
      charged.balance a ∙ plus_zero (elem a (chain before self)) (current_of before a)
