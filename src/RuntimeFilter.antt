-- ===== src/RuntimeFilter.antt =====
-- execution/runtime_filter.py: the filters that a hash join's build side hands to the probe side.
-- The SHA-256 digest of a key and the sizes that logarithms give are arguments. A method that
-- raises returns the error only: what it had changed until then is not modelled.
pub mod Bits
pub mod Bloom
pub mod Merge
pub mod Ranges
pub mod Complete
pub mod Tests
use distributed_sql.Prelude.{
  ℕ, zero, suc, ◌+◌, ◌*◌, ◌/◌, ◌%◌, ◌==◌, String, str_eq, Bool, true, false, not, ◌&&◌, ◌||◌,
  Option, none, some, List, [], ◌∷◌, any, length, get_elem?, set, replicate, ltb, max, Result, ok,
  err, ◌>>=◌, if◌then◌else◌,
}
use distributed_sql.Planner.Types.{
  Raised, type_error, value_error, arithmetic_error, key_error, index_error, domain_error,
}
use distributed_sql.Planner.Values
use distributed_sql.Planner.Values.{SqlValue, null, Python, py_less, py_less_or_equal}
use distributed_sql.Planner.Expressions.{Expression}
use distributed_sql.Planner.Evaluate.{Row, evaluate}
use distributed_sql.RuntimeFilter.Bits.{bit, one_shifted, bit_or}

pub record BloomFilter : Type 0 where
  pub bit_count : ℕ
  pub hash_count : ℕ
  pub bits : List ℕ
  pub item_count : ℕ

-- What `create` computes with floating-point numbers: whether the rate lies strictly between 0 and
-- 1, `ceil(-n * log(rate) / log(2) ** 2)`, and `round(bit_count / n * log(2))`.
pub record Sizing : Type 0 where
  pub rate_is_valid : Bool
  pub needed_bits : ℕ → ℕ
  pub needed_hashes : ℕ → ℕ → ℕ

-- `ceil(bit_count / 8)`
abbrev pub byte_count : ℕ → ℕ
byte_count bit_count = (bit_count + 7) / 8

unfoldable pub create_bloom : Sizing → ℕ → Result Raised BloomFilter
create_bloom sizing expected_items =
    if ltb expected_items 1
    then err value_error
    else if not sizing.rate_is_valid
    then err value_error
    else (let bit_count = max 64 (sizing.needed_bits expected_items) in
        ok (record {
          bit_count = bit_count;
          hash_count = max 1 (sizing.needed_hashes bit_count expected_items);
          bits = replicate (byte_count bit_count) 0;
          item_count = 0;
        }))

-- The 32 bytes of a digest as two numbers.
abbrev pub Digest : Type 0 → Type 0
Digest O = List (SqlValue O) → ℕ × ℕ

abbrev pub step_of : ℕ → ℕ
step_of second = if second == 0 then 1 else second

-- The positions from an index on, as many as are left.
unfoldable pub positions_from : ℕ → ℕ → ℕ → ℕ → ℕ → List ℕ
positions_from first second bit_count index zero = []
positions_from first second bit_count index (suc left) =
    ((first + index * second) % bit_count) ∷ positions_from first second bit_count (suc index) left

-- A remainder by zero raises.
unfoldable pub positions :
    {O : Type 0} → Digest O → BloomFilter → List (SqlValue O) → Result Raised (List ℕ)
unfolding positions_from
positions digest bloom values =
    if bloom.bit_count == 0 && not (bloom.hash_count == 0)
    then err arithmetic_error
    else (let (first, second) = digest values in
        ok (positions_from first (step_of second) bloom.bit_count 0 bloom.hash_count))

-- `for bit in ...: self.bits[bit // 8] |= 1 << (bit % 8)`
unfoldable pub mark : List ℕ → List ℕ → Result Raised (List ℕ)
mark [] bits = ok bits
mark (p ∷ rest) bits = elim (get_elem? bits (p / 8)) [
  | none ↦ err index_error
  | some byte ↦ mark rest (set bits (p / 8) (bit_or 8 byte (one_shifted (p % 8))))
]

-- `all(self.bits[bit // 8] & (1 << (bit % 8)) for bit in ...)`
unfoldable pub all_marked : List ℕ → List ℕ → Result Raised Bool
all_marked [] bits = ok true
all_marked (p ∷ rest) bits = elim (get_elem? bits (p / 8)) [
  | none ↦ err index_error
  | some byte ↦ if bit (p % 8) byte then all_marked rest bits else ok false
]

-- `for index, value in enumerate(other.bits): self.bits[index] |= value`
unfoldable pub merge_bytes : List ℕ → List ℕ → Result Raised (List ℕ)
merge_bytes [] own = ok own
merge_bytes (value ∷ values) [] = err index_error
merge_bytes (value ∷ values) (byte ∷ own) = do
  rest ← merge_bytes values own
  ok (bit_or 8 byte value ∷ rest)

unfoldable pub merge_bloom : BloomFilter → BloomFilter → Result Raised BloomFilter
unfolding merge_bytes
merge_bloom bloom other =
    if not ((bloom.bit_count == other.bit_count) && (bloom.hash_count == other.hash_count))
    then err value_error
    else do
      bits ← merge_bytes other.bits bloom.bits
      ok (record bloom { bits = bits; item_count = bloom.item_count + other.item_count })

module _ {O : Type 0} (digest : Digest O) where
  unfoldable pub add_to_bloom : List (SqlValue O) → BloomFilter → Result Raised BloomFilter
  unfolding positions mark
  add_to_bloom values bloom = do
    marked ← positions digest bloom values
    bits ← mark marked bloom.bits
    ok (record bloom { bits = bits; item_count = suc bloom.item_count })

  unfoldable pub bloom_might_contain : BloomFilter → List (SqlValue O) → Result Raised Bool
  unfolding positions all_marked
  bloom_might_contain bloom values = do
    marked ← positions digest bloom values
    all_marked marked bloom.bits

-- `except TypeError: return True`
abbrev pub unless_type_error : Result Raised Bool → Result Raised Bool
unless_type_error (err type_error) = ok true
unless_type_error r = r

-- NULL stands for Python's None in both fields.
pub record MinMaxFilter (O : Type 0) : Type 0 where
  pub minimum : SqlValue O
  pub maximum : SqlValue O

pub record RuntimeFilter (O : Type 0) : Type 0 where
  pub bloom : BloomFilter
  pub ranges : List (MinMaxFilter O)

module _ {O : Type 0} where
  abbrev pub any_missing : List (SqlValue O) → Bool
  any_missing values = any Values.is_null values

  unfoldable pub create_filter : Sizing → ℕ → ℕ → Result Raised (RuntimeFilter O)
  unfolding create_bloom
  create_filter sizing key_count expected_items = if ltb key_count 1 then err value_error else do
    bloom ← create_bloom sizing (max expected_items 1)
    ok (record {
      bloom = bloom;
      ranges = replicate key_count (record { minimum = null; maximum = null });
    })

module _ {O : Type 0} (py : Python O) where
  unfoldable pub add_to_range : SqlValue O → MinMaxFilter O → Result Raised (MinMaxFilter O)
  add_to_range value range = if Values.is_null value then ok range else do
    lower ← (if Values.is_null range.minimum then ok true else py_less py value range.minimum)
    higher ← (if Values.is_null range.maximum then ok true else py_less py range.maximum value)
    ok (record {
      minimum = if lower then value else range.minimum;
      maximum = if higher then value else range.maximum;
    })

  unfoldable pub range_might_contain : MinMaxFilter O → SqlValue O → Result Raised Bool
  range_might_contain range value =
      if Values.is_null value || (Values.is_null range.minimum || Values.is_null range.maximum)
      then ok false
      else unless_type_error (do
        above ← py_less_or_equal py range.minimum value
        if above then py_less_or_equal py value range.maximum else ok false)

  unfoldable pub merge_range : MinMaxFilter O → MinMaxFilter O → Result Raised (MinMaxFilter O)
  unfolding add_to_range
  merge_range range other = do
    range' ← add_to_range other.minimum range
    add_to_range other.maximum range'

  -- `zip(..., strict=True)`: lists of different lengths raise.
  unfoldable pub add_to_ranges :
      List (SqlValue O) → List (MinMaxFilter O) → Result Raised (List (MinMaxFilter O))
  unfolding add_to_range
  add_to_ranges [] [] = ok []
  add_to_ranges (value ∷ values) (range ∷ ranges) = do
    range' ← add_to_range value range
    ranges' ← add_to_ranges values ranges
    ok (range' ∷ ranges')
  add_to_ranges _ _ = err value_error

  unfoldable pub ranges_might_contain :
      List (MinMaxFilter O) → List (SqlValue O) → Result Raised Bool
  unfolding range_might_contain
  ranges_might_contain [] [] = ok true
  ranges_might_contain (range ∷ ranges) (value ∷ values) = do
    found ← range_might_contain range value
    if found then ranges_might_contain ranges values else ok false
  ranges_might_contain _ _ = err value_error

  unfoldable pub merge_ranges :
      List (MinMaxFilter O) → List (MinMaxFilter O) → Result Raised (List (MinMaxFilter O))
  unfolding merge_range
  merge_ranges [] [] = ok []
  merge_ranges (range ∷ ranges) (other ∷ others) = do
    range' ← merge_range range other
    ranges' ← merge_ranges ranges others
    ok (range' ∷ ranges')
  merge_ranges _ _ = err value_error

  -- `tuple(expression.evaluate(row) for expression in expressions)`
  unfoldable pub key_of : List (Expression O) → Row O → Result Raised (List (SqlValue O))
  key_of [] row = ok []
  key_of (e ∷ rest) row = do
    value ← evaluate py e row
    values ← key_of rest row
    ok (value ∷ values)

  module _ (digest : Digest O) where
    unfoldable pub add_to_filter :
        List (SqlValue O) → RuntimeFilter O → Result Raised (RuntimeFilter O)
    unfolding add_to_bloom add_to_ranges
    add_to_filter values f =
        if not (length values == length f.ranges)
        then err value_error
        else if any_missing values
        then ok f
        else do
          bloom ← add_to_bloom digest values f.bloom
          ranges ← add_to_ranges values f.ranges
          ok (record { bloom = bloom; ranges = ranges })

    unfoldable pub might_contain : RuntimeFilter O → List (SqlValue O) → Result Raised Bool
    unfolding ranges_might_contain bloom_might_contain
    might_contain f values =
        if not (length values == length f.ranges) || any_missing values then ok false else do
          found ← ranges_might_contain f.ranges values
          if found then bloom_might_contain digest f.bloom values else ok false

    unfoldable pub merge_filter :
        RuntimeFilter O → RuntimeFilter O → Result Raised (RuntimeFilter O)
    unfolding merge_bloom merge_ranges
    merge_filter f other =
        if not (length f.ranges == length other.ranges) then err value_error else do
          bloom ← merge_bloom f.bloom other.bloom
          ranges ← merge_ranges f.ranges other.ranges
          ok (record { bloom = bloom; ranges = ranges })

    -- `for row in rows: result.add(...)`
    unfoldable pub add_rows :
        List (Row O) → List (Expression O) → RuntimeFilter O → Result Raised (RuntimeFilter O)
    unfolding key_of add_to_filter
    add_rows [] expressions f = ok f
    add_rows (row ∷ rows) expressions f = do
      values ← key_of expressions row
      f' ← add_to_filter values f
      add_rows rows expressions f'

    unfoldable pub from_rows :
        Sizing → ℕ → List (Row O) → List (Expression O) → Result Raised (RuntimeFilter O)
    unfolding create_filter add_rows
    from_rows sizing expected_items rows expressions = do
      f ← create_filter sizing (length expressions) expected_items
      add_rows rows expressions f

-- `publish` sets the channel's value; a binding without one yet is skipped.
pub data Source (O : Type 0) : Type 0 where
  channel : Option (RuntimeFilter O) → Source O
  direct : RuntimeFilter O → Source O

pub record RuntimeFilterBinding (O : Type 0) : Type 0 where
  pub expressions : List (Expression O)
  pub runtime_filter : Source O

module _ {O : Type 0} where
  abbrev pub source_filter : Source O → Option (RuntimeFilter O)
  source_filter (channel value) = value
  source_filter (direct f) = some f

  unfoldable pub resolved :
      List (RuntimeFilterBinding O) → List (List (Expression O) × RuntimeFilter O)
  resolved [] = []
  resolved (b ∷ rest) =
      let later = resolved rest in
      elim (source_filter b.runtime_filter) [ none ↦ later | some f ↦ (b.expressions, f) ∷ later ]

module _ {O : Type 0} (py : Python O) (digest : Digest O) where
  unfoldable pub passes : List (List (Expression O) × RuntimeFilter O) → Row O → Result Raised Bool
  unfolding key_of might_contain
  passes [] row = ok true
  passes ((expressions, f) ∷ rest) row = do
    values ← key_of py expressions row
    found ← might_contain py digest f values
    if found then passes rest row else ok false

  unfoldable pub passing :
      List (List (Expression O) × RuntimeFilter O) → List (Row O) → Result Raised (List (Row O))
  unfolding passes
  passing filters [] = ok []
  passing filters (row ∷ rows) = do
    kept ← passes filters row
    later ← passing filters rows
    ok (if kept then row ∷ later else later)

  -- The rows of a batch stand for the pyarrow batch.
  unfoldable pub apply_runtime_filters :
      List (Row O) → List (RuntimeFilterBinding O) → Result Raised (List (Row O) × ℕ)
  unfolding resolved passing
  apply_runtime_filters batch bindings =
      let filters = resolved bindings in
      if length filters == 0
      then ok (batch, 0)
      else do rows ← passing filters batch; ok (rows, length filters)

unfoldable pub runtime_filter_is_safe : String → String → Bool
runtime_filter_is_safe join_type build_side =
    if str_eq join_type "inner"
    then true
    else (let probe_is_right = str_eq build_side "left" in
        if str_eq join_type "left"
        then probe_is_right
        else if str_eq join_type "right"
        then not probe_is_right
        else not (str_eq join_type "full"))
