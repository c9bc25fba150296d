-- ===== src/Operators/Windows.antt =====
-- `WindowOperator`: frames and ranks within one partition of rows that are already ordered. A peer
-- key is what the ORDER BY expressions give for a row.
pub mod Frames
pub mod Ranks
use Prim.Native.Char.{code}
use Prim.Native.String.{String}
use distributed_sql.Prelude.{
  ℕ, zero, suc, ◌+◌, ◌-◌, ◌*◌, ◌≡◌, refl, ◌==◌, ltb, leb, Bool, true, false, not, ◌&&◌, ◌||◌,
  Option, none, some, List, [], ◌∷◌, get_elem?, str_eq, if◌then◌else◌,
}
use distributed_sql.Prelude.Int.{ℤ, pos, negsuc, ◌+ℤ◌, ◌-ℤ◌}
use distributed_sql.Planner.Expressions.{WindowFrame}

abbrev without_blank : String → Bool
without_blank String.[] = true
without_blank (String.◌∷◌ c text) = let later = without_blank text in not (code c == b' ') && later

abbrev is_word : String → Bool
is_word String.[] = false
is_word (String.◌∷◌ c text) = without_blank (String.◌∷◌ c text)

-- The digits, at least one of them, up to the blank.
abbrev read_amount : Bool → String → ℕ → Option (ℕ × String)
read_amount has_digit String.[] amount = none
read_amount has_digit (String.◌∷◌ c text) amount =
    let later = read_amount true text (amount * 10 + (code c - b'0')) in
    if code c == b' '
    then if has_digit && is_word text then some (amount, text) else none
    else if leb b'0' (code c) && leb (code c) b'9'
    then later
    else none

-- `amount_text, direction = boundary.split()` and `int(amount_text)`, for digits, one blank and a
-- word, as the binder writes them; `none` stands for a ValueError. A sign, an underscore or more
-- blanks, which Python takes too, are refused here.
abbrev pub split_boundary : String → Option (ℕ × String)
split_boundary boundary = read_amount false boundary 0

-- `min(max(position, 0), size)`
abbrev pub clamped : ℤ → ℕ → ℕ
clamped (pos n) size = if ltb size n then size else n
clamped (negsuc n) size = 0

abbrev pub one_if : Bool → ℕ
one_if true = 1
one_if false = 0

unfoldable pub frame_position : ℕ × String → ℕ → ℕ → Bool → ℕ
frame_position (amount, direction) index size is_end =
    clamped
      ((if str_eq direction "PRECEDING" then pos index -ℤ pos amount else pos index +ℤ pos amount)
        +ℤ pos (one_if is_end))
      size

abbrev pub position_or_error : Option (ℕ × String) → ℕ → ℕ → Bool → Option ℕ
position_or_error none index size is_end = none
position_or_error (some boundary) index size is_end =
    some (frame_position boundary index size is_end)

unfoldable pub frame_boundary : String → ℕ → ℕ → Bool → Option ℕ
unfolding frame_position
frame_boundary boundary index size is_end =
    if str_eq boundary "UNBOUNDED PRECEDING"
    then some 0
    else if str_eq boundary "UNBOUNDED FOLLOWING"
    then some size
    else if str_eq boundary "CURRENT ROW"
    then some (index + one_if is_end)
    else position_or_error (split_boundary boundary) index size is_end

module _ {P : Type 0} (same : P → P → Bool) where
  -- How many peers follow: the loop over `end`, from the peer keys after the row's.
  unfoldable pub peers_after : P → List P → ℕ
  peers_after peer [] = 0
  peers_after peer (next ∷ later) = if same next peer then suc (peers_after peer later) else 0

  -- The peer keys that follow the row at an index.
  abbrev pub after : ℕ → List P → List P
  after index [] = []
  after zero (peer ∷ later) = later
  after (suc index) (peer ∷ later) = after index later

  -- Without a frame, and with an ORDER BY. From an index past the rows the loop does not go on.
  unfoldable pub default_bounds : ℕ → List P → Option P → ℕ × ℕ
  unfolding peers_after
  default_bounds index peer_keys none = (0, suc index)
  default_bounds index peer_keys (some peer) =
      (0, suc index + peers_after peer (after index peer_keys))

abbrev pub both : Option ℕ → Option ℕ → Option (ℕ × ℕ)
both (some start) (some end) = some (start, end)
both (some start) none = none
both none end = none

-- `_window_bounds`; `is_ordered` is whether the peer keys hold any value, so whether the window has an ORDER BY.
unfoldable pub window_bounds :
    {P : Type 0} → (P → P → Bool) → Option WindowFrame → Bool → ℕ → ℕ → List P → Option (ℕ × ℕ)
unfolding default_bounds frame_boundary
window_bounds same none is_ordered index size peer_keys =
    if is_ordered
    then some (default_bounds same index peer_keys (get_elem? peer_keys index))
    else some (0, size)
window_bounds same (some frame) is_ordered index size peer_keys =
    both (frame_boundary frame.start index size false) (frame_boundary frame.end index size true)

module _ {P : Type 0} (same : P → P → Bool) where
  -- `peer != previous_peer`, which holds at the first row.
  abbrev pub is_fresh : P → Option (P × ℕ) → Bool
  is_fresh peer none = true
  is_fresh peer (some (previous_peer, value)) = not (same peer previous_peer)

  abbrev pub value_before : Option (P × ℕ) → ℕ
  value_before none = 0
  value_before (some (previous_peer, value)) = value

  -- The loop over the ordered rows for row_number, rank and dense_rank. `previous` holds the peer
  -- key and the value of the row before.
  unfoldable pub rank_rows : String → ℕ → ℕ → Option (P × ℕ) → List P → List ℕ
  rank_rows name index dense_rank previous [] = []
  rank_rows name index dense_rank previous (peer ∷ later) =
      let fresh = is_fresh peer previous in
      let dense = if fresh then suc dense_rank else dense_rank in
      let value =
        if str_eq name "row_number"
        then suc index
        else if str_eq name "dense_rank"
        then dense
        else if fresh
        then suc index
        else value_before previous in
      value ∷ rank_rows name (suc index) dense (some (peer, value)) later
