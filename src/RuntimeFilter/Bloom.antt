-- ===== src/RuntimeFilter/Bloom.antt =====
-- A Bloom filter finds what was added to it, and an addition loses nothing.
use distributed_sql.Prelude.{
  ==_iff, ℕ, zero, suc, ◌+◌, ◌*◌, ◌/◌, ◌%◌, ◌==◌, ◌<◌, ◌≤◌, ◌≡◌, refl, sym, ◌∙◌, subst, Bool, true,
  false, none, some, List, [], ◌∷◌, length, get_elem?, set, All, ok, get_elem?-set_self,
  get_elem?-set_ne, get_elem?-of_lt, get_elem?-lt_length, length-set, Option-cases, Bool-cases,
  ==_iff, arith, inl, inr,
}
use distributed_sql.Planner.Values.{SqlValue}
use distributed_sql.RuntimeFilter.{
  BloomFilter, Digest, byte_count, positions, positions_from, step_of, mark, all_marked,
  add_to_bloom, bloom_might_contain,
}
use distributed_sql.RuntimeFilter.Bits.{bit, bit_or, one_shifted, bit-bit_or, bit-one_shifted}

pub record IsWellFormed (bloom : BloomFilter) : Type 0 where
  pub has_bits : 1 ≤ bloom.bit_count
  pub sized : length bloom.bits ≡ byte_count bloom.bit_count

-- Bit `p` of the array is there and set.
abbrev pub is_set : List ℕ → ℕ → Bool
is_set bits p = elim (get_elem? bits (p / 8)) [ none ↦ false | some byte ↦ bit (p % 8) byte ]

abbrev with_bit : List ℕ → ℕ → ℕ → List ℕ
with_bit bits p byte = set bits (p / 8) (bit_or 8 byte (one_shifted (p % 8)))

pub remainder_lt : (p : ℕ) → p % 8 < 8
remainder_lt p = omega arith

with_bit-sets :
    (bits : List ℕ) (p byte : ℕ)
    → get_elem? bits (p / 8) ≡ some byte
    → is_set (with_bit bits p byte) p ≡ true
with_bit-sets bits p byte found = ground (
  arith,
  get_elem?-set_self bits (p / 8) (bit_or 8 byte (one_shifted (p % 8)))
      (get_elem?-lt_length bits (p / 8) found),
  bit-bit_or 8 (p % 8) byte (one_shifted (p % 8)) (remainder_lt p),
  bit-one_shifted (p % 8),
)

with_bit-keeps :
    (bits : List ℕ) (p q byte : ℕ)
    → get_elem? bits (p / 8) ≡ some byte
    → is_set bits q ≡ true
    → is_set (with_bit bits p byte) q ≡ true
with_bit-keeps bits p q byte found here = elim (Bool-cases ((p / 8) == (q / 8))) [
  | inl same ↦
      let e = (==_iff (p / 8) (q / 8)).0 same in
      let placed =
        get_elem?-set_self bits (p / 8) (bit_or 8 byte (one_shifted (p % 8)))
          (get_elem?-lt_length bits (p / 8) found) in
      ground (arith, e, placed, bit-bit_or 8 (q % 8) byte (one_shifted (p % 8)) (remainder_lt q))
  | inr apart ↦ ground (
    arith,
    get_elem?-set_ne bits (p / 8) (q / 8) (bit_or 8 byte (one_shifted (p % 8))) (λ e. ground arith),
  )
]

pub mark-keeps :
    (ps bits : List ℕ) {bits' : List ℕ} (q : ℕ)
    → mark ps bits ≡ ok bits'
    → is_set bits q ≡ true
    → is_set bits' q ≡ true
unfolding mark
mark-keeps [] bits q done here = ground arith
mark-keeps (p ∷ ps) bits q done here = elim (Option-cases (get_elem? bits (p / 8))) [
  | inl missing ↦ ground arith
  | inr (byte, found) ↦
      mark-keeps ps (with_bit bits p byte) q (ground arith)
        (with_bit-keeps bits p q byte found here)
]

pub mark-sets :
    (ps bits : List ℕ) {bits' : List ℕ}
    → mark ps bits ≡ ok bits'
    → All (λ p. is_set bits' p ≡ true) ps
unfolding mark
mark-sets [] bits done = tt
mark-sets (p ∷ ps) bits done = elim (Option-cases (get_elem? bits (p / 8))) [
  | inl missing ↦ ground arith
  | inr (byte, found) ↦ (
    mark-keeps ps (with_bit bits p byte) p (ground arith) (with_bit-sets bits p byte found),
    mark-sets ps (with_bit bits p byte) (ground arith),
  )
]

pub mark-ok :
    (ps bits : List ℕ)
    → All (λ p. p / 8 < length bits) ps
    → (bits' : List ℕ) × (mark ps bits ≡ ok bits') × (length bits' ≡ length bits)
unfolding mark
mark-ok [] bits inside = (bits, refl, refl)
mark-ok (p ∷ ps) bits inside =
    let (byte, found) = get_elem?-of_lt bits (p / 8) inside.0 in
    let same = length-set bits (p / 8) (bit_or 8 byte (one_shifted (p % 8))) in
    let (bits', done, kept) =
      mark-ok ps (with_bit bits p byte)
        (subst (λ n. All (λ p. p / 8 < n) ps) (sym same) inside.1) in
    (bits', rw (mark, found) done, kept ∙ same)

pub all_marked-set :
    (ps bits : List ℕ) → All (λ p. is_set bits p ≡ true) ps → all_marked ps bits ≡ ok true
unfolding all_marked
all_marked-set [] bits here = refl
all_marked-set (p ∷ ps) bits here = ground (arith, here.0, all_marked-set ps bits here.1)

byte_lt : (p n : ℕ) → p < n → p / 8 < byte_count n
byte_lt p n h = omega arith

positions_from-inside :
    (first second n index left : ℕ)
    → 1 ≤ n
    → All (λ p. p / 8 < byte_count n) (positions_from first second n index left)
unfolding positions_from
positions_from-inside first second n index zero h = tt
positions_from-inside first second n index (suc left) h = (
  byte_lt ((first + index * second) % n) n (omega arith),
  positions_from-inside first second n (suc index) left h,
)

-- What a filter knows of a key: its positions are computed and set.
abbrev pub Knows : {O : Type 0} → Digest O → BloomFilter → List (SqlValue O) → Type 0
Knows digest bloom values =
    (ps : List ℕ) × (positions digest bloom values ≡ ok ps)
    × All (λ p. is_set bloom.bits p ≡ true) ps

module _ {O : Type 0} (digest : Digest O) where
  pub positions-ok :
      (bloom : BloomFilter) (values : List (SqlValue O))
      → 1 ≤ bloom.bit_count
      → (ps : List ℕ) × (positions digest bloom values ≡ ok ps)
        × All (λ p. p / 8 < byte_count bloom.bit_count) ps
  unfolding positions
  positions-ok bloom values h = (
    positions_from (digest values).0 (step_of (digest values).1) bloom.bit_count 0 bloom.hash_count,
    ground arith,
    positions_from-inside (digest values).0 (step_of (digest values).1) bloom.bit_count 0
        bloom.hash_count h,
  )

  pub Knows-might_contain :
      (bloom : BloomFilter) (values : List (SqlValue O))
      → Knows digest bloom values
      → bloom_might_contain digest bloom values ≡ ok true
  unfolding bloom_might_contain
  Knows-might_contain bloom values (ps, at, here) = rw at (all_marked-set ps bloom.bits here)

  pub same_positions :
      (bloom : BloomFilter) (bits : List ℕ) (count : ℕ) (values : List (SqlValue O))
      → positions digest (record bloom { bits = bits; item_count = count }) values
        ≡ positions digest bloom values
  unfolding positions
  same_positions bloom bits count values = refl

  pub All-set :
      (ps bits bits' : List ℕ)
      → ((q : ℕ) → is_set bits q ≡ true → is_set bits' q ≡ true)
      → All (λ p. is_set bits p ≡ true) ps
      → All (λ p. is_set bits' p ≡ true) ps
  All-set [] bits bits' keeps here = tt
  All-set (p ∷ ps) bits bits' keeps here = (keeps p here.0, All-set ps bits bits' keeps here.1)

  pub Knows-more :
      (bloom : BloomFilter) (bits : List ℕ) (count : ℕ) (values : List (SqlValue O))
      → ((q : ℕ) → is_set bloom.bits q ≡ true → is_set bits q ≡ true)
      → Knows digest bloom values
      → Knows digest (record bloom { bits = bits; item_count = count }) values
  Knows-more bloom bits count values keeps (ps, at, here) =
      (ps, same_positions bloom bits count values ∙ at, All-set ps bloom.bits bits keeps here)

  -- An addition to a well-formed filter succeeds, and the new filter knows the key and all that
  -- the old one knew.
  pub add_to_bloom-Knows :
      (values : List (SqlValue O)) (bloom : BloomFilter)
      → IsWellFormed bloom
      → (bloom' : BloomFilter) × (add_to_bloom digest values bloom ≡ ok bloom')
        × IsWellFormed bloom'
        × Knows digest bloom' values
        × ((others : List (SqlValue O)) → Knows digest bloom others → Knows digest bloom' others)
  unfolding add_to_bloom
  add_to_bloom-Knows values bloom wf =
      let (ps, at, inside) = positions-ok bloom values wf.has_bits in
      let (bits, done, len) =
        mark-ok ps bloom.bits (subst (λ n. All (λ p. p / 8 < n) ps) (sym wf.sized) inside) in
      let count = suc bloom.item_count in
      (
        record bloom { bits = bits; item_count = count },
        rw (at, done) refl,
        record { has_bits = wf.has_bits; sized = len ∙ wf.sized },
        (ps, same_positions bloom bits count values ∙ at, mark-sets ps bloom.bits done),
        λ others known.
            Knows-more bloom bits count others (λ q. mark-keeps ps bloom.bits q done) known,
      )
