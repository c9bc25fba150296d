-- ===== src/Operators/Windows/Frames.antt =====
-- Which rows of a partition a frame holds.
use Prim.Native.String.{String}
use mathlib.Core.Option.{some-injective}
use distributed_sql.Prelude.{
  ℕ, zero, suc, ◌+◌, ◌≤◌, ◌<◌, ◌≡◌, refl, ap, subst, eq_iff, ◌↔◌, Bool, true, false, Option, none,
  some, List, [], ◌∷◌, length, get_elem?, str_eq, Bool-cases, if◌then◌else◌, arith, inl, inr,
}
use distributed_sql.Prelude.Int.{ℤ, pos, negsuc, ◌+ℤ◌, ◌-ℤ◌}
use distributed_sql.Planner.Expressions.{WindowFrame}
use distributed_sql.Operators.Windows.{
  split_boundary, position_or_error, one_if, clamped, frame_position, frame_boundary, after,
  peers_after, both, default_bounds, window_bounds,
}

clamped_le : (position : ℤ) (size : ℕ) → clamped position size ≤ size
clamped_le (pos n) size = ground arith
clamped_le (negsuc n) size = omega arith

frame_position_le :
    (boundary : ℕ × String) (index size : ℕ) (is_end : Bool)
    → frame_position boundary index size is_end ≤ size
unfolding frame_position
frame_position_le (amount, direction) index size is_end = clamped_le _ size

position_le :
    (boundary : Option (ℕ × String)) (index size : ℕ) (is_end : Bool) {position : ℕ}
    → position_or_error boundary index size is_end ≡ some position
    → position ≤ size
position_le none index size is_end e = cc
position_le (some boundary) index size is_end e =
    subst (λ p. p ≤ size) (some-injective _ _ e) (frame_position_le boundary index size is_end)

-- A boundary of a frame of a row that is there is between 0 and the number of rows.
frame_boundary_le :
    (boundary : String) (index size : ℕ) (is_end : Bool) {position : ℕ}
    → index < size
    → frame_boundary boundary index size is_end ≡ some position
    → position ≤ size
unfolding frame_boundary
frame_boundary_le boundary index size is_end h e =
    choose (str_eq boundary "UNBOUNDED PRECEDING") (str_eq boundary "UNBOUNDED FOLLOWING")
      (str_eq boundary "CURRENT ROW") e
  where
    choose :
        (a b c : Bool) {position : ℕ}
        → (if a
            then some 0
            else if b
            then some size
            else if c
            then some (index + one_if is_end)
            else position_or_error (split_boundary boundary) index size is_end)
          ≡ some position
        → position ≤ size
    choose true b c e = subst (λ p. p ≤ size) (some-injective _ _ e) (omega arith)
    choose false true c e = subst (λ p. p ≤ size) (some-injective _ _ e) (omega arith)
    choose false false true e = subst (λ p. p ≤ size) (some-injective _ _ e) (ground arith)
    choose false false false e = position_le (split_boundary boundary) index size is_end e

-- The rows from n before to m after.
frame_rows :
    (n m index size k : ℕ)
    → k < size
    → (frame_position (n, "PRECEDING") index size false ≤ k)
        × (k < frame_position (m, "FOLLOWING") index size true)
      ↔ (index ≤ k + n) × (k ≤ index + m)
unfolding frame_position ◌+ℤ◌ ◌-ℤ◌
frame_rows n m index size k h = ground arith

differs :
    (boundary word : String) {parts : ℕ × String}
    → split_boundary boundary ≡ some parts
    → split_boundary word ≡ none
    → str_eq boundary word ≡ false
differs boundary word h none_of = elim (Bool-cases (str_eq boundary word)) [
  | inl same ↦ let e = ap split_boundary ((eq_iff boundary word).0 same) in cc
  | inr differ ↦ differ
]

-- A text that splits is none of the three words.
frame_boundary-split :
    (boundary : String) (index size : ℕ) (is_end : Bool) {parts : ℕ × String}
    → split_boundary boundary ≡ some parts
    → frame_boundary boundary index size is_end ≡ some (frame_position parts index size is_end)
unfolding frame_boundary
frame_boundary-split boundary index size is_end h =
    rw
      (
        differs boundary "UNBOUNDED PRECEDING" h refl,
        differs boundary "UNBOUNDED FOLLOWING" h refl,
        differs boundary "CURRENT ROW" h refl,
        h,
      )
      refl

peers_after_le :
    {P : Type 0} (same : P → P → Bool) (peer : P) (later : List P)
    → peers_after same peer later ≤ length later
unfolding peers_after
peers_after_le same peer [] = omega arith
peers_after_le same peer (next ∷ later) = let rest = peers_after_le same peer later in ground arith

length-after :
    {P : Type 0} (same : P → P → Bool) (index : ℕ) (peers : List P)
    → index < length peers
    → suc index + length (after same index peers) ≡ length peers
length-after same index [] h = absurd (omega arith)
length-after same zero (p ∷ later) h = omega arith
length-after same (suc index) (p ∷ later) h =
    let rest = length-after same index later (omega arith) in omega arith

default_bounds_le :
    {P : Type 0} (same : P → P → Bool) (index : ℕ) (peers : List P) (peer : Option P)
    → index < length peers
    → ((default_bounds same index peers peer).0 ≤ index)
      × (index < (default_bounds same index peers peer).1)
      × ((default_bounds same index peers peer).1 ≤ length peers)
unfolding default_bounds
default_bounds_le same index peers none h = (omega arith, omega arith, omega arith)
default_bounds_le same index peers (some peer) h =
    let whole = length-after same index peers h in
    let most = peers_after_le same peer (after same index peers) in
    (omega arith, omega arith, omega arith)

both-some :
    (a b : Option ℕ) {start end : ℕ}
    → both a b ≡ some (start, end)
    → (a ≡ some start) × (b ≡ some end)
both-some none b e = cc
both-some (some a) none e = cc
both-some (some a) (some b) e = (cc, cc)

-- For a row that is there, the bounds of any frame lie within the partition, where the frame's
-- boundaries can be read; without a frame the row itself is within them.
pub window_bounds_le :
    {P : Type 0} (same : P → P → Bool) (frame : Option WindowFrame) (is_ordered : Bool) (index : ℕ)
    (peers : List P) {start end : ℕ}
    → index < length peers
    → window_bounds same frame is_ordered index (length peers) peers ≡ some (start, end)
    → (start ≤ length peers)
      × (end ≤ length peers)
      × (frame ≡ none → (start ≤ index) × (index < end))
unfolding window_bounds
window_bounds_le same none true index peers h e =
    let (low, above, high) = default_bounds_le same index peers (get_elem? peers index) h in
    let same_bounds = some-injective _ _ e in
    let starts = ap (λ b. b.0) same_bounds in
    let ends = ap (λ b. b.1) same_bounds in
    (omega arith, omega arith, λ _. (omega arith, omega arith))
window_bounds_le same none false index peers h e =
    let same_bounds = some-injective _ _ e in
    let starts = ap (λ b. b.0) same_bounds in
    let ends = ap (λ b. b.1) same_bounds in
    (omega arith, omega arith, λ _. (omega arith, omega arith))
window_bounds_le same (some frame) is_ordered index peers h e =
    let (starts, ends) = both-some _ _ e in
    (
      frame_boundary_le frame.start index (length peers) false h starts,
      frame_boundary_le frame.end index (length peers) true h ends,
      λ e'. cc,
    )

-- In a frame from n rows before to m rows after, there are the rows whose distance is at most that,
-- and no others.
pub window_bounds-rows :
    {P : Type 0} (same : P → P → Bool) (frame : WindowFrame) (is_ordered : Bool) (index : ℕ)
    (peers : List P) (n m k : ℕ)
    → split_boundary frame.start ≡ some (n, "PRECEDING")
    → split_boundary frame.end ≡ some (m, "FOLLOWING")
    → k < length peers
    → (start : ℕ) × (end : ℕ) × (window_bounds same
          (some frame)
          is_ordered
          index
          (length peers)
          peers
        ≡ some (start, end))
      × ((start ≤ k) × (k < end) ↔ (index ≤ k + n) × (k ≤ index + m))
unfolding window_bounds
window_bounds-rows same frame is_ordered index peers n m k s e h = (
  frame_position (n, "PRECEDING") index (length peers) false,
  frame_position (m, "FOLLOWING") index (length peers) true,
  rw
      (
        frame_boundary-split frame.start index (length peers) false s,
        frame_boundary-split frame.end index (length peers) true e,
      )
      refl,
  frame_rows n m index (length peers) k h,
)
