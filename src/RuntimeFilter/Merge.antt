-- ===== src/RuntimeFilter/Merge.antt =====
-- Merged Bloom filters find what either of them finds.
use distributed_sql.Prelude.{
  ◌⊎◌, ==_iff, ℕ, zero, suc, ◌+◌, ◌/◌, ◌%◌, ◌<◌, ◌≡◌, refl, sym, ap, ◌∙◌, subst, true, ◌||◌, some,
  List, [], ◌∷◌, length, get_elem?, ok, get_elem?-of_lt, get_elem?-lt_length, Option-cases, ==_iff,
  arith, inl, inr,
}
use distributed_sql.Planner.Values.{SqlValue}
use distributed_sql.RuntimeFilter.{
  BloomFilter, Digest, byte_count, positions, merge_bytes, merge_bloom, bloom_might_contain,
}
use distributed_sql.RuntimeFilter.Bits.{bit, bit_or, bit-bit_or}
use distributed_sql.RuntimeFilter.Bloom.{
  IsWellFormed, is_set, remainder_lt, same_positions, All-set, Knows, Knows-more,
  Knows-might_contain,
}

-- Merging arrays of one length keeps the bits of both.
pub merge_bytes-ok :
    (other own : List ℕ)
    → length other ≡ length own
    → (bits : List ℕ) × (merge_bytes other own ≡ ok bits)
      × (length bits ≡ length own)
      × ((i k : ℕ)
          → k < 8
          → (byte value : ℕ) → get_elem? own i ≡ some byte
          → get_elem? other i ≡ some value
          → (b : ℕ) × (get_elem? bits i ≡ some b) × (bit k b ≡ (bit k byte || bit k value)))
unfolding merge_bytes
merge_bytes-ok [] [] e = ([], refl, refl, λ i k h byte value f g. cc)
merge_bytes-ok [] (o ∷ own) e = absurd (omega (arith, e))
merge_bytes-ok (v ∷ other) [] e = absurd (omega (arith, e))
merge_bytes-ok (v ∷ other) (o ∷ own) e =
    let (bits, done, len, each) = merge_bytes-ok other own (omega (arith, e)) in
    (bit_or 8 o v ∷ bits, rw done refl, ap suc len, at bits each)
  where
    at :
        (bits : List ℕ)
        → ((i k : ℕ)
            → k < 8
            → (byte value : ℕ) → get_elem? own i ≡ some byte
            → get_elem? other i ≡ some value
            → (b : ℕ) × (get_elem? bits i ≡ some b) × (bit k b ≡ (bit k byte || bit k value)))
        → (i k : ℕ) → k < 8
        → (byte value : ℕ) → get_elem? (o ∷ own) i ≡ some byte
        → get_elem? (v ∷ other) i ≡ some value
        → (b : ℕ) × (get_elem? (bit_or 8 o v ∷ bits) i ≡ some b)
          × (bit k b ≡ (bit k byte || bit k value))
    at bits each zero k h byte value f g =
        (bit_or 8 o v, refl, ground (arith, bit-bit_or 8 k o v h))
    at bits each (suc i) k h byte value f g = each i k h byte value f g

merged_keeps_own :
    (bits own other : List ℕ) (q : ℕ)
    → ((i k : ℕ)
        → k < 8
        → (byte value : ℕ) → get_elem? own i ≡ some byte
        → get_elem? other i ≡ some value
        → (b : ℕ) × (get_elem? bits i ≡ some b) × (bit k b ≡ (bit k byte || bit k value)))
    → length other ≡ length own
    → is_set own q ≡ true
    → is_set bits q ≡ true
merged_keeps_own bits own other q each len here = elim (Option-cases (get_elem? own (q / 8))) [
  | inl missing ↦ ground arith
  | inr (byte, f) ↦
      let (value, g) =
        get_elem?-of_lt other (q / 8)
          (subst (λ n. q / 8 < n) (sym len) (get_elem?-lt_length own (q / 8) f)) in
      let (b, found, e) = each (q / 8) (q % 8) (remainder_lt q) byte value f g in ground arith
]

merged_keeps_other :
    (bits own other : List ℕ) (q : ℕ)
    → ((i k : ℕ)
        → k < 8
        → (byte value : ℕ) → get_elem? own i ≡ some byte
        → get_elem? other i ≡ some value
        → (b : ℕ) × (get_elem? bits i ≡ some b) × (bit k b ≡ (bit k byte || bit k value)))
    → length other ≡ length own
    → is_set other q ≡ true
    → is_set bits q ≡ true
merged_keeps_other bits own other q each len here = elim (Option-cases (get_elem? other (q / 8))) [
  | inl missing ↦ ground arith
  | inr (value, g) ↦
      let (byte, f) =
        get_elem?-of_lt own (q / 8)
          (subst (λ n. q / 8 < n) len (get_elem?-lt_length other (q / 8) g)) in
      let (b, found, e) = each (q / 8) (q % 8) (remainder_lt q) byte value f g in ground arith
]

module _ {O : Type 0} (digest : Digest O) where
  positions_congr :
      (bloom other : BloomFilter) (values : List (SqlValue O))
      → bloom.bit_count ≡ other.bit_count
      → bloom.hash_count ≡ other.hash_count
      → positions digest bloom values ≡ positions digest other values
  unfolding positions
  positions_congr bloom other values same_bits same_hashes = rw (same_bits, same_hashes) refl

  -- Two well-formed filters of the same dimensions merge without an error, and the merged filter may
  -- contain every key whose positions either of them has set.
  pub merge_bloom-Knows :
      (bloom other : BloomFilter)
      → IsWellFormed bloom
      → IsWellFormed other
      → bloom.bit_count ≡ other.bit_count
      → bloom.hash_count ≡ other.hash_count
      → (merged : BloomFilter) × (merge_bloom bloom other ≡ ok merged)
        × ((values : List (SqlValue O))
            → Knows digest bloom values ⊎ Knows digest other values
            → bloom_might_contain digest merged values ≡ ok true)
  unfolding merge_bloom
  merge_bloom-Knows bloom other wf wf' same_bits same_hashes =
      let len = wf'.sized ∙ sym (wf.sized ∙ ap byte_count same_bits) in
      let (bits, done, size, each) = merge_bytes-ok other.bits bloom.bits len in
      let count = bloom.item_count + other.item_count in
      let merged : BloomFilter = record bloom { bits = bits; item_count = count } in
      (
        merged,
        rw
            (
              (==_iff bloom.bit_count other.bit_count).1 same_bits,
              (==_iff bloom.hash_count other.hash_count).1 same_hashes,
              done,
            )
            refl,
        λ values either. Knows-might_contain digest merged values (elim either [
          | inl known ↦
              Knows-more digest bloom bits count values
                (λ q. merged_keeps_own bits bloom.bits other.bits q each len) known
          | inr (ps, at, set_there) ↦ (
            ps,
            same_positions digest bloom bits count values
                ∙ positions_congr bloom other values same_bits same_hashes
                ∙ at,
            All-set digest ps other.bits bits
                (λ q. merged_keeps_other bits bloom.bits other.bits q each len) set_there,
          )
        ]),
      )
