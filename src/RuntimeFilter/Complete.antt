-- ===== src/RuntimeFilter/Complete.antt =====
-- A runtime filter has no false negatives.
use distributed_sql.Prelude.{
  ℕ, zero, suc, ◌≤◌, ◌≡◌, refl, sym, ap, ◌∙◌, subst, true, false, ◌==◌, ==_iff, List, [], ◌∷◌, Elem,
  length, replicate, length-replicate, max, Result, ok, ok-injective, arith, inl, inr, ◌⊎◌, ltb,
}
use distributed_sql.Planner.Types.{Raised}
use distributed_sql.Planner.Values.{SqlValue, null, Python}
use distributed_sql.Planner.Expressions.{Expression}
use distributed_sql.Planner.Evaluate.{Row}
use distributed_sql.RuntimeFilter.{
  RuntimeFilter, BloomFilter, Digest, Sizing, any_missing, add_to_filter, might_contain, key_of,
  add_rows, from_rows, create_filter, create_bloom, byte_count,
}
use distributed_sql.RuntimeFilter.Bloom.{
  IsWellFormed, Knows, Knows-might_contain, add_to_bloom-Knows,
}
use distributed_sql.RuntimeFilter.Ranges.{
  IsOrdered, AllIn, AllSoundFrom, AllCover, AllCover-might_contain, AllCover-width,
  add_to_ranges-Cover, fresh-AllSoundFrom,
}

same_width : (m n : ℕ) → m ≡ n → (m == n) ≡ true
same_width m n e = (==_iff m n).1 e

wide : (n : ℕ) → 1 ≤ n → ltb n 1 ≡ false
wide n h = ground arith

create_bloom-IsWellFormed :
    (sizing : Sizing) (n : ℕ)
    → sizing.rate_is_valid ≡ true
    → 1 ≤ n
    → (bloom : BloomFilter) × (create_bloom sizing n ≡ ok bloom) × IsWellFormed bloom
unfolding create_bloom
create_bloom-IsWellFormed sizing zero valid h = absurd (omega arith)
create_bloom-IsWellFormed sizing (suc n) valid h =
    let bit_count = max 64 (sizing.needed_bits (suc n)) in
    (
      record {
        bit_count = bit_count;
        hash_count = max 1 (sizing.needed_hashes bit_count (suc n));
        bits = replicate (byte_count bit_count) 0;
        item_count = 0;
      },
      rw (wide (suc n) h, valid) refl,
      record { has_bits = omega arith; sized = length-replicate (byte_count bit_count) 0 },
    )

module _ {O : Type 0} (py : Python O) (digest : Digest O) (In : ℕ → SqlValue O → Type 0)
    (order : IsOrdered py In) where
  pub record IsSoundFilter (f : RuntimeFilter O) : Type 0 where
    pub bloom_formed : IsWellFormed f.bloom
    pub ranges_sound : AllSoundFrom py In order 0 f.ranges

  -- What a filter has to know of a key to let it pass.
  abbrev pub Holds : RuntimeFilter O → List (SqlValue O) → Type 0
  Holds f values = Knows digest f.bloom values × AllCover py In order 0 f.ranges values

  pub Holds-might_contain :
      (f : RuntimeFilter O) (values : List (SqlValue O))
      → Holds f values
      → might_contain py digest f values ≡ ok true
  unfolding might_contain
  Holds-might_contain f values (known, covered) =
      let (width, there) = AllCover-width py In order 0 f.ranges values covered in
      rw (same_width _ _ width, there, AllCover-might_contain py In order 0 f.ranges values covered)
        (Knows-might_contain digest f.bloom values known)

  -- The key has the filter's width, and its values stand in ordered columns where none is NULL.
  abbrev pub IsKey : ℕ → List (SqlValue O) → Type 0
  IsKey width values =
      (length values ≡ width)
      × ((any_missing values ≡ true) ⊎ ((any_missing values ≡ false) × AllIn py In order 0 values))

  pub add_to_filter-Holds :
      (values : List (SqlValue O)) (f : RuntimeFilter O)
      → IsKey (length f.ranges) values
      → IsSoundFilter f
      → (f' : RuntimeFilter O) × (add_to_filter py digest values f ≡ ok f')
        × IsSoundFilter f'
        × (length f'.ranges ≡ length f.ranges)
        × (any_missing values ≡ false → Holds f' values)
        × ((others : List (SqlValue O)) → Holds f others → Holds f' others)
  unfolding add_to_filter
  add_to_filter-Holds values f (width, inl gone) sound = (
    f,
    rw (same_width _ _ width, gone) refl,
    sound,
    refl,
    λ there. absurd (ground arith),
    λ others h. h,
  )
  add_to_filter-Holds values f (width, inr (there, ordered)) sound =
      let (bloom, done, formed, known, kept) =
        add_to_bloom-Knows digest values f.bloom sound.bloom_formed in
      let (ranges, done', len, sounds, covered, keeps) =
        add_to_ranges-Cover py In order 0 values f.ranges width ordered there sound.ranges_sound in
      (
        record { bloom = bloom; ranges = ranges },
        rw (same_width _ _ width, there, done, done') refl,
        record { bloom_formed = formed; ranges_sound = sounds },
        len,
        λ there'. (known, covered),
        λ others h. (kept others h.0, keeps others h.1),
      )

  -- Each row has a key of the filter's width.
  abbrev pub AllKeyed : List (Expression O) → List (Row O) → Type 0
  AllKeyed expressions [] = Unit
  AllKeyed expressions (row ∷ rows) =
      ((values : List (SqlValue O)) × (key_of py expressions row ≡ ok values)
        × IsKey (length expressions) values)
      × AllKeyed expressions rows

  add_rows-Holds :
      (expressions : List (Expression O)) (rows : List (Row O)) (f : RuntimeFilter O)
      → length f.ranges ≡ length expressions
      → AllKeyed expressions rows
      → IsSoundFilter f
      → (f' : RuntimeFilter O) × (add_rows py digest rows expressions f ≡ ok f')
        × ((others : List (SqlValue O)) → Holds f others → Holds f' others)
        × ((row : Row O) (values : List (SqlValue O))
            → Elem row rows
            → key_of py expressions row ≡ ok values
            → any_missing values ≡ false
            → Holds f' values)
  unfolding add_rows
  add_rows-Holds expressions [] f width keyed sound =
      (f, refl, (λ others h. h), λ row values here. absurd here)
  add_rows-Holds expressions (row ∷ rows) f width ((values, at, (size, ordered)), later) sound =
      let (f', done, sound', same, added, kept) =
        add_to_filter-Holds values f (size ∙ sym width, ordered) sound in
      let (f'', done', keeps, found) =
        add_rows-Holds expressions rows f' (same ∙ width) later sound' in
      (
        f'',
        rw (at, done) done',
        (λ others h. keeps others (kept others h)),
        λ row' values' here.
            elim here
              as (λ k.
                key_of py expressions row' ≡ ok values'
                → any_missing values' ≡ false
                → Holds f'' values') [
                  | inl e ↦ λ at' there.
                      let same_key : ◌≡◌ {A = Result Raised (List (SqlValue O))} (ok values)
                          (ok values') =
                        sym at ∙ (ap (key_of py expressions) (sym e) ∙ at') in
                      subst (Holds f'') (ok-injective same_key) (
                        keeps values (
                          added (
                            subst (λ k. any_missing k ≡ false) (sym (ok-injective same_key))
                              there)))
                  | inr next ↦ λ at' there. found row' values' next at' there
                ],
      )

  -- Where a join has keys, the rate is valid, every build row has a key, and Python orders each key
  -- column's values: building the filter from the rows succeeds, and the filter lets every key of a
  -- build row pass that holds no NULL.
  pub from_rows_complete :
      (sizing : Sizing) (expected_items : ℕ) (rows : List (Row O))
      (expressions : List (Expression O))
      → sizing.rate_is_valid ≡ true
      → 1 ≤ length expressions
      → AllKeyed expressions rows
      → (f : RuntimeFilter O) × (from_rows py digest sizing expected_items rows expressions ≡ ok f)
        × ((row : Row O) (values : List (SqlValue O))
            → Elem row rows
            → key_of py expressions row ≡ ok values
            → any_missing values ≡ false
            → might_contain py digest f values ≡ ok true)
  unfolding from_rows create_filter
  from_rows_complete sizing expected_items rows expressions valid some_key keyed =
      let (bloom, made, formed) =
        create_bloom-IsWellFormed sizing (max expected_items 1) valid (omega arith) in
      let width = length expressions in
      let (f, done, keeps, found) =
        add_rows-Holds expressions rows
          (record {
            bloom = bloom;
            ranges = replicate width (record { minimum = null; maximum = null });
          })
          (length-replicate width _) keyed
          (record {
            bloom_formed = formed;
            ranges_sound = fresh-AllSoundFrom py In order 0 width;
          }) in
      (
        f,
        rw (wide width some_key, made) done,
        λ row values here at there. Holds-might_contain f values (found row values here at there),
      )
