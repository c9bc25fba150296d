-- ===== src/Memory/Limits.antt =====
-- `reserve`, `try_reserve` and `release` of memory.py: limits, atomicity, and what they write.
use mathlib.Core.Option
use distributed_sql.Prelude.{
  Result-cases, ℕ, zero, suc, ◌≡◌, ◌↔◌, refl, ap, sym, ◌∙◌, Bool, Option, none, some, List, [], ◌∷◌,
  arith, ◌==◌, true, false, length, get_elem?, Option-cases, Bool-cases, inl, inr, ◌⊎◌, ok, err,
  ==_iff, if◌then◌else◌, subst,
}
use distributed_sql.Prelude.Int.{ℤ, pos, negsuc, ◌+ℤ◌, ◌≤ℤ◌, leb_ℤ, +ℤ_parts, -ℤ_parts, eq_of_parts}
use distributed_sql.Memory.{
  Account, Heap, MemoryError, exceeds, first_exceeded, charge, discharge, chain, reserve, release,
  parent_of,
}
use distributed_sql.Memory.Update.{elem, get_elem?-modify_all, length-modify_all}
use distributed_sql.Memory.Chain.{IsTree, chain-Distinct, chain_congr}

-- What every account keeps: it is within its limit, now and at its peak.
pub record IsWithin (account : Account) : Type 0 where
  pub current_fits : account.current_bytes ≤ℤ account.limit_bytes
  pub peak_fits : account.peak_bytes ≤ℤ account.limit_bytes
  pub peak_seen : account.current_bytes ≤ℤ account.peak_bytes

abbrev pub IsValid : Heap → Type 0
IsValid h = (a : ℕ) (account : Account) → get_elem? h a ≡ some account → IsWithin account

-- There is room for `size` more bytes in every account of a chain.
abbrev pub HasRoom : ℤ → Heap → List ℕ → Type 0
HasRoom size h path =
    (a : ℕ) (account : Account)
    → elem a path ≡ true
    → get_elem? h a ≡ some account
    → account.current_bytes +ℤ size ≤ℤ account.limit_bytes

room_of_test :
    (size : ℤ) (x : Account) → exceeds size x ≡ false → x.current_bytes +ℤ size ≤ℤ x.limit_bytes
room_of_test size x h = ground arith

test_of_room :
    (size : ℤ) (x : Account) → x.current_bytes +ℤ size ≤ℤ x.limit_bytes → exceeds size x ≡ false
test_of_room size x h = ground arith

first_exceeded-cons :
    (size : ℤ) (h : Heap) (b : ℕ) (path : List ℕ)
    → first_exceeded size h (b ∷ path) ≡ none
    → ((x : Account) → get_elem? h b ≡ some x → exceeds size x ≡ false)
      × (first_exceeded size h path ≡ none)
unfolding first_exceeded
first_exceeded-cons size h b path e = (λ x g. ground arith, ground arith)

first_exceeded-none :
    (size : ℤ) (h : Heap) (path : List ℕ) → first_exceeded size h path ≡ none → HasRoom size h path
first_exceeded-none size h [] e a x m g = cc
first_exceeded-none size h (b ∷ path) e a x m g =
    let (here, there) = first_exceeded-cons size h b path e in
    elim (Bool-cases (b == a)) [
      | inl same ↦ room_of_test size x (here x (ap (get_elem? h) ((==_iff b a).0 same) ∙ g))
      | inr other ↦ first_exceeded-none size h path there a x (rw other at m) g
    ]

none-first_exceeded :
    (size : ℤ) (h : Heap) (path : List ℕ) → HasRoom size h path → first_exceeded size h path ≡ none
unfolding first_exceeded
none-first_exceeded size h [] room = refl
none-first_exceeded size h (b ∷ path) room =
    let rest = none-first_exceeded size h path (λ a x m. room a x (ground arith)) in
    elim (Option-cases (get_elem? h b)) [
      | inl e ↦ rw (e, first_exceeded) rest
      | inr (x, e) ↦ ground (arith, test_of_room size x (room b x (ground arith) e))
    ]

module _ (n self : ℕ) (h : Heap) where
  -- A failed reservation changes nothing.
  pub reserve_atomic :
      (size : ℤ) (e : MemoryError) → (reserve size self h).0 ≡ err e → (reserve size self h).1 ≡ h
  unfolding reserve
  reserve_atomic (negsuc n) e p = refl
  reserve_atomic (pos zero) e p = refl
  reserve_atomic (pos (suc n)) e p = ground arith

  -- A reservation of a positive size succeeds exactly when every account of the chain has room.
  pub reserve-ok_iff :
      ((reserve (pos (suc n)) self h).0 ≡ ok tt) ↔ HasRoom (pos (suc n)) h (chain h self)
  unfolding reserve
  reserve-ok_iff = (
    (λ p. first_exceeded-none (pos (suc n)) h (chain h self) (ground arith)),
    (λ room. let e = none-first_exceeded (pos (suc n)) h (chain h self) room in ground arith),
  )

  pub get_elem?-reserve :
      (j : ℕ)
      → IsTree h
      → (reserve (pos (suc n)) self h).0 ≡ ok tt
      → get_elem? (reserve (pos (suc n)) self h).1 j ≡ (
          if elem j (chain h self)
          then Option.map (charge (pos (suc n))) (get_elem? h j)
          else get_elem? h j)
  unfolding reserve
  get_elem?-reserve j tree p = ground (
    arith,
    get_elem?-modify_all (charge (pos (suc n))) (chain h self) j h (chain-Distinct h self tree),
  )

  pub get_elem?-release :
      (j : ℕ)
      → IsTree h
      → (release (pos (suc n)) self h).0 ≡ ok tt
      → get_elem? (release (pos (suc n)) self h).1 j ≡ (
          if elem j (chain h self)
          then Option.map (discharge (pos (suc n))) (get_elem? h j)
          else get_elem? h j)
  unfolding release
  get_elem?-release j tree p = ground (
    arith,
    get_elem?-modify_all (discharge (pos (suc n))) (chain h self) j h (chain-Distinct h self tree),
  )

charge-IsWithin :
    (size : ℤ) (x : Account)
    → IsWithin x
    → x.current_bytes +ℤ size ≤ℤ x.limit_bytes
    → IsWithin (charge size x)
charge-IsWithin size x w room = ground arith

pub map_cases :
    {m : Account → Account} (b : Bool) (o : Option Account) {y : Account}
    → (if b then Option.map m o else o) ≡ some y
    → ((x : Account) × (o ≡ some x) × (y ≡ m x) × (b ≡ true)) ⊎ ((o ≡ some y) × (b ≡ false))
map_cases true none e = cc
map_cases true (some x) e = inl (x, refl, cc, refl)
map_cases false o e = inr (e, refl)

-- In a heap whose accounts are younger than their parents: where every account is within its limit,
-- it still is after a reservation, whether that succeeds, fails or raises.
pub reserve-IsValid :
    (size : ℤ) (self : ℕ) (h : Heap) → IsTree h → IsValid h → IsValid (reserve size self h).1
reserve-IsValid (negsuc n) self h tree v = unfold reserve in v
reserve-IsValid (pos zero) self h tree v = unfold reserve in v
reserve-IsValid (pos (suc n)) self h tree v = elim (Result-cases (reserve (pos (suc n)) self h).0) [
  | inl (tt, done) ↦ λ a y g.
      elim (map_cases (elem a (chain h self)) (get_elem? h a)
        (sym (get_elem?-reserve n self h a tree done) ∙ g)) [
          | inl (x, found, made, m) ↦ subst IsWithin (sym made) (
              charge-IsWithin (pos (suc n)) x (v a x found)
                ((reserve-ok_iff n self h).0 done a x m found))
          | inr (found, m) ↦ v a y found
        ]
  | inr (e, failed) ↦ subst IsValid (sym (reserve_atomic n self h (pos (suc n)) e failed)) v
]

abbrev pub current_of : Heap → ℕ → Option ℤ
current_of h a = Option.map (λ (x : Account). x.current_bytes) (get_elem? h a)

pub parent_of-reserve :
    (n self : ℕ) (h : Heap)
    → IsTree h
    → (reserve (pos (suc n)) self h).0 ≡ ok tt
    → (a : ℕ) → parent_of (reserve (pos (suc n)) self h).1 a ≡ parent_of h a
parent_of-reserve n self h tree done a = ground (arith, get_elem?-reserve n self h a tree done)

charge-discharge :
    (size : ℤ) (x : Account) → (discharge size (charge size x)).current_bytes ≡ x.current_bytes
charge-discharge size x =
    eq_of_parts _ _
      (omega (arith, +ℤ_parts x.current_bytes size, -ℤ_parts (x.current_bytes +ℤ size) size))

pub length-reserve : (size : ℤ) (self : ℕ) (h : Heap) → length (reserve size self h).1 ≡ length h
unfolding reserve
length-reserve (negsuc n) self h = refl
length-reserve (pos zero) self h = refl
length-reserve (pos (suc n)) self h =
    ground (arith, length-modify_all (charge (pos (suc n))) (chain h self) h)

pub elem-chain : (h : Heap) (self : ℕ) → elem self (chain h self) ≡ true
unfolding chain
elem-chain h self = ground arith

abbrev balance : Option Account → Option ℤ
balance o = Option.map (λ (x : Account). x.current_bytes) o

abbrev on : Bool → (Account → Account) → Option Account → Option Account
on b f o = if b then Option.map f o else o

balance_restored :
    (size : ℤ) (b : Bool) (o : Option Account)
    → balance (on b (discharge size) (on b (charge size) o)) ≡ balance o
balance_restored size false o = refl
balance_restored size true none = refl
balance_restored size true (some x) = ap some (charge-discharge size x)

module _ (n self : ℕ) (h : Heap) (tree : IsTree h) (x : Account) (found : get_elem? h self ≡ some x)
    (owned : pos 0 ≤ℤ x.current_bytes) (done : (reserve (pos (suc n)) self h).0 ≡ ok tt) where
  abbrev reserved : Heap
  reserved = (reserve (pos (suc n)) self h).1

  chain-reserved : chain reserved self ≡ chain h self
  chain-reserved =
      chain_congr reserved h self (length-reserve (pos (suc n)) self h)
        (parent_of-reserve n self h tree done)

  reserved-IsTree : IsTree reserved
  reserved-IsTree a p e = tree a p (sym (parent_of-reserve n self h tree done a) ∙ e)

  get_elem?-reserved_self : get_elem? reserved self ≡ some (charge (pos (suc n)) x)
  get_elem?-reserved_self =
      get_elem?-reserve n self h self tree done ∙ rw (elem-chain h self, found)

  room_to_release : leb_ℤ (pos (suc n)) (x.current_bytes +ℤ pos (suc n)) ≡ true
  room_to_release = ground (arith, +ℤ_parts x.current_bytes (pos (suc n)))

  release_succeeds : (release (pos (suc n)) self reserved).0 ≡ ok tt
  unfolding release
  release_succeeds = ground (arith, get_elem?-reserved_self, room_to_release)

  -- A reservation that succeeds can be released, and then every account of the heap, on the chain
  -- or not, has as many bytes in use as before, provided that the account that reserves had a
  -- balance that is not negative, and that the heap is a tree.
  pub release-reserve :
      ((release (pos (suc n)) self reserved).0 ≡ ok tt)
      × ((a : ℕ) → current_of (release (pos (suc n)) self reserved).1 a ≡ current_of h a)
  release-reserve = (
    release_succeeds,
    λ a.
        ap balance (
          get_elem?-release n self reserved a reserved-IsTree release_succeeds
          ∙ ap (λ path. on (elem a path) (discharge (pos (suc n))) (get_elem? reserved a))
              chain-reserved
          ∙ ap (on (elem a (chain h self)) (discharge (pos (suc n))))
              (get_elem?-reserve n self h a tree done))
        ∙ balance_restored (pos (suc n)) (elem a (chain h self)) (get_elem? h a),
  )
