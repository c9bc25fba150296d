-- ===== src/RuntimeFilter/Ranges.antt =====
-- A range contains what was added to it, where the values of its column are ordered.
use distributed_sql.Prelude.{
  ℕ, zero, suc, ◌≡◌, refl, ap, Bool, true, false, not, List, [], ◌∷◌, length, replicate, ok,
  Bool-cases, if◌then◌else◌, arith, inl, inr, ◌⊎◌,
}
use distributed_sql.Planner.Values
use distributed_sql.Planner.Values.{SqlValue, null, Python, py_less, py_less_or_equal}
use distributed_sql.RuntimeFilter.{
  MinMaxFilter, any_missing, add_to_range, add_to_ranges, range_might_contain, ranges_might_contain,
}

-- Python orders the values of each column totally: comparisons of two of them do not raise, and
-- they agree with a total preorder. A float that is not a number has no place in such a column.
pub record IsOrdered {O : Type 0} (py : Python O) (In : ℕ → SqlValue O → Type 0) : Type 0 where
  pub below : SqlValue O → SqlValue O → Bool
  pub less : (c : ℕ) (x y : SqlValue O) → In c x → In c y → py_less py x y ≡ ok (not (below y x))
  pub less_or_equal :
      (c : ℕ) (x y : SqlValue O) → In c x → In c y → py_less_or_equal py x y ≡ ok (below x y)
  pub reflexive : (c : ℕ) (x : SqlValue O) → In c x → below x x ≡ true
  pub total : (c : ℕ) (x y : SqlValue O) → In c x → In c y → below x y ≡ false → below y x ≡ true
  pub transitive :
      (c : ℕ) (x y z : SqlValue O)
      → In c x
      → In c y
      → In c z
      → below x y ≡ true
      → below y z ≡ true
      → below x z ≡ true

module _ {O : Type 0} (py : Python O) (In : ℕ → SqlValue O → Type 0) (order : IsOrdered py In) where
  -- Both ends are there.
  pub record IsOpen (c : ℕ) (range : MinMaxFilter O) : Type 0 where
    pub from : In c range.minimum
    pub from_there : Values.is_null range.minimum ≡ false
    pub to : In c range.maximum
    pub to_there : Values.is_null range.maximum ≡ false

  abbrev pub IsSound : ℕ → MinMaxFilter O → Type 0
  IsSound c range =
      ((Values.is_null range.minimum ≡ true) × (Values.is_null range.maximum ≡ true))
      ⊎ IsOpen c range

  pub record Covers (c : ℕ) (range : MinMaxFilter O) (x : SqlValue O) : Type 0 where
    pub opened : IsOpen c range
    pub there : Values.is_null x ≡ false
    pub inside : In c x
    pub above : order.below range.minimum x ≡ true
    pub within : order.below x range.maximum ≡ true

  pub Covers-might_contain :
      (c : ℕ) (range : MinMaxFilter O) (x : SqlValue O)
      → Covers c range x
      → range_might_contain py range x ≡ ok true
  unfolding range_might_contain
  Covers-might_contain c range x h =
      let low = order.less_or_equal c range.minimum x h.opened.from h.inside in
      let high = order.less_or_equal c x range.maximum h.inside h.opened.to in
      rw (h.there, h.opened.from_there, h.opened.to_there, low, h.above, high, h.within) refl

  abbrev lower_end : SqlValue O → SqlValue O → SqlValue O
  lower_end x end = if not (order.below end x) then x else end

  abbrev upper_end : SqlValue O → SqlValue O → SqlValue O
  upper_end x end = if not (order.below x end) then x else end

  lower_end-In : (c : ℕ) (x end : SqlValue O) → In c x → In c end → In c (lower_end x end)
  lower_end-In c x end i j = elim (Bool-cases (order.below end x)) [
    | inl b ↦ rw b j
    | inr b ↦ rw b i
  ]

  upper_end-In : (c : ℕ) (x end : SqlValue O) → In c x → In c end → In c (upper_end x end)
  upper_end-In c x end i j = elim (Bool-cases (order.below x end)) [
    | inl b ↦ rw b j
    | inr b ↦ rw b i
  ]

  end_there :
      (b : Bool) (x end : SqlValue O)
      → Values.is_null x ≡ false
      → Values.is_null end ≡ false
      → Values.is_null (if b then x else end) ≡ false
  end_there true x end p q = p
  end_there false x end p q = q

  lower_end-below : (c : ℕ) (x end : SqlValue O) → In c x → order.below (lower_end x end) x ≡ true
  lower_end-below c x end i = elim (Bool-cases (order.below end x)) [
    | inl b ↦ rw b b
    | inr b ↦ rw b (order.reflexive c x i)
  ]

  upper_end-above : (c : ℕ) (x end : SqlValue O) → In c x → order.below x (upper_end x end) ≡ true
  upper_end-above c x end i = elim (Bool-cases (order.below x end)) [
    | inl b ↦ rw b b
    | inr b ↦ rw b (order.reflexive c x i)
  ]

  lower_end_keeps :
      (c : ℕ) (x end y : SqlValue O)
      → In c x
      → In c end
      → In c y
      → order.below end y ≡ true
      → order.below (lower_end x end) y ≡ true
  lower_end_keeps c x end y i j k h = elim (Bool-cases (order.below end x)) [
    | inl b ↦ rw b h
    | inr b ↦ rw b (order.transitive c x end y i j k (order.total c end x j i b) h)
  ]

  upper_end_keeps :
      (c : ℕ) (x end y : SqlValue O)
      → In c x
      → In c end
      → In c y
      → order.below y end ≡ true
      → order.below y (upper_end x end) ≡ true
  upper_end_keeps c x end y i j k h = elim (Bool-cases (order.below x end)) [
    | inl b ↦ rw b h
    | inr b ↦ rw b (order.transitive c y end x k j i h (order.total c x end i j b))
  ]

  -- An addition to a sound range succeeds; the new range covers the value and all that the old one
  -- covered.
  pub add_to_range-Covers :
      (c : ℕ) (x : SqlValue O) (range : MinMaxFilter O)
      → In c x
      → Values.is_null x ≡ false
      → IsSound c range
      → (range' : MinMaxFilter O) × (add_to_range py x range ≡ ok range')
        × IsSound c range'
        × Covers c range' x
        × ((y : SqlValue O) → Covers c range y → Covers c range' y)
  unfolding add_to_range
  add_to_range-Covers c x range i there (inl (no_min, no_max)) =
      let opened : IsOpen c (record { minimum = x; maximum = x }) = record {
        from = i;
        from_there = there;
        to = i;
        to_there = there;
      } in
      (
        record { minimum = x; maximum = x },
        rw (there, no_min, no_max) refl,
        inr opened,
        record {
          opened = opened;
          there = there;
          inside = i;
          above = order.reflexive c x i;
          within = order.reflexive c x i;
        },
        λ y h. absurd (let e = h.opened.from_there in ground arith),
      )
  add_to_range-Covers c x range i there (inr old) =
      let low = lower_end x range.minimum in
      let high = upper_end x range.maximum in
      let opened : IsOpen c (record { minimum = low; maximum = high }) = record {
        from = lower_end-In c x range.minimum i old.from;
        from_there = end_there _ x range.minimum there old.from_there;
        to = upper_end-In c x range.maximum i old.to;
        to_there = end_there _ x range.maximum there old.to_there;
      } in
      (
        record { minimum = low; maximum = high },
        rw
            (
              there,
              old.from_there,
              old.to_there,
              order.less c x range.minimum i old.from,
              order.less c range.maximum x old.to i,
            )
            refl,
        inr opened,
        record {
          opened = opened;
          there = there;
          inside = i;
          above = lower_end-below c x range.minimum i;
          within = upper_end-above c x range.maximum i;
        },
        λ y h. record {
          opened = opened;
          there = h.there;
          inside = h.inside;
          above = lower_end_keeps c x range.minimum y i old.from h.inside h.above;
          within = upper_end_keeps c x range.maximum y i old.to h.inside h.within;
        },
      )

  abbrev pub AllIn : ℕ → List (SqlValue O) → Type 0
  AllIn c [] = Unit
  AllIn c (x ∷ xs) = In c x × AllIn (suc c) xs

  abbrev pub AllSoundFrom : ℕ → List (MinMaxFilter O) → Type 0
  AllSoundFrom c [] = Unit
  AllSoundFrom c (r ∷ rs) = IsSound c r × AllSoundFrom (suc c) rs

  abbrev pub AllCover : ℕ → List (MinMaxFilter O) → List (SqlValue O) → Type 0
  AllCover c [] [] = Unit
  AllCover c (r ∷ rs) (x ∷ xs) = Covers c r x × AllCover (suc c) rs xs
  AllCover c _ _ = ⊥

  pub fresh-AllSoundFrom :
      (c n : ℕ) → AllSoundFrom c (replicate n (record { minimum = null; maximum = null }))
  fresh-AllSoundFrom c zero = tt
  fresh-AllSoundFrom c (suc n) = (inl (refl, refl), fresh-AllSoundFrom (suc c) n)

  pub AllCover-might_contain :
      (c : ℕ) (rs : List (MinMaxFilter O)) (xs : List (SqlValue O))
      → AllCover c rs xs
      → ranges_might_contain py rs xs ≡ ok true
  unfolding ranges_might_contain
  AllCover-might_contain c [] [] h = refl
  AllCover-might_contain c (r ∷ rs) (x ∷ xs) h =
      rw (Covers-might_contain c r x h.0) (AllCover-might_contain (suc c) rs xs h.1)
  AllCover-might_contain c [] (x ∷ xs) h = absurd h
  AllCover-might_contain c (r ∷ rs) [] h = absurd h

  pub AllCover-width :
      (c : ℕ) (rs : List (MinMaxFilter O)) (xs : List (SqlValue O))
      → AllCover c rs xs
      → (length xs ≡ length rs) × (any_missing xs ≡ false)
  AllCover-width c [] [] h = (refl, refl)
  AllCover-width c (r ∷ rs) (x ∷ xs) h =
      let (e, m) = AllCover-width (suc c) rs xs h.1 in
      let there = h.0.there in (ap suc e, rw there m)
  AllCover-width c [] (x ∷ xs) h = absurd h
  AllCover-width c (r ∷ rs) [] h = absurd h

  first_there :
      (x : SqlValue O) (xs : List (SqlValue O))
      → any_missing (x ∷ xs) ≡ false
      → (Values.is_null x ≡ false) × (any_missing xs ≡ false)
  first_there x xs h = elim (Bool-cases (Values.is_null x)) [
    | inl gone ↦ ground arith
    | inr there ↦ (there, ground arith)
  ]

  pub add_to_ranges-Cover :
      (c : ℕ) (xs : List (SqlValue O)) (rs : List (MinMaxFilter O))
      → length xs ≡ length rs
      → AllIn c xs
      → any_missing xs ≡ false
      → AllSoundFrom c rs
      → (rs' : List (MinMaxFilter O)) × (add_to_ranges py xs rs ≡ ok rs')
        × (length rs' ≡ length rs)
        × AllSoundFrom c rs'
        × AllCover c rs' xs
        × ((ys : List (SqlValue O)) → AllCover c rs ys → AllCover c rs' ys)
  unfolding add_to_ranges
  add_to_ranges-Cover c [] [] e i m s = ([], refl, refl, tt, tt, λ ys h. h)
  add_to_ranges-Cover c [] (r ∷ rs) e i m s = absurd (omega (arith, e))
  add_to_ranges-Cover c (x ∷ xs) [] e i m s = absurd (omega (arith, e))
  add_to_ranges-Cover c (x ∷ xs) (r ∷ rs) e i m s =
      let (there, m') = first_there x xs m in
      let (r', done, sound, covers, keeps) = add_to_range-Covers c x r i.0 there s.0 in
      let (rs', done', len, sounds, covered, kept) =
        add_to_ranges-Cover (suc c) xs rs (omega (arith, e)) i.1 m' s.1 in
      (
        r' ∷ rs',
        rw (done, done') refl,
        ap suc len,
        (sound, sounds),
        (covers, covered),
        λ ys. elim ys as (λ k. AllCover c (r ∷ rs) k → AllCover c (r' ∷ rs') k) [
          | [] ↦ λ h. absurd h
          | y ∷ ys ↦ λ h. (keeps y h.0, kept ys h.1)
        ],
      )
