-- ===== src/Memory.antt =====
-- execution/memory.py: memory accounts nested under a query account. Accounts are shared mutable
-- objects, so they live in a heap and refer to their parent by its address there.
pub mod Chain
pub mod Update
pub mod Limits
pub mod Releases
pub mod Charged
pub mod Tests
use distributed_sql.Prelude.{
  ℕ, zero, suc, String, Bool, true, false, Option, none, some, List, [], ◌∷◌, ◌++◌, Result, ok, err,
  length, get_elem?, set, if◌then◌else◌,
}
use distributed_sql.Prelude.Int.{ℤ, pos, negsuc, ◌+ℤ◌, ◌-ℤ◌, ltb_ℤ, leb_ℤ}

pub record Account : Type 0 where
  pub name : String
  pub limit_bytes : ℤ
  pub parent : Option ℕ
  pub current_bytes : ℤ
  pub peak_bytes : ℤ

abbrev pub Heap : Type 0
Heap = List Account

pub data MemoryError : Type 0 where
  memory_limit_exceeded : (name : String) (limit_bytes : ℤ) → MemoryError
  value_error : MemoryError

abbrev pub default_memory_limit_bytes : ℤ
default_memory_limit_bytes = pos 67108864

-- `MemoryAccount(name, limit_bytes, parent=parent)`: the address of the new account, and the heap.
unfoldable pub create : String → ℤ → Option ℕ → Heap → Result MemoryError ℕ × Heap
create name limit_bytes parent h = if leb_ℤ limit_bytes (pos 0) then (err value_error, h) else (
  ok (length h),
  h
      ++ record {
        name = name;
        limit_bytes = limit_bytes;
        parent = parent;
        current_bytes = pos 0;
        peak_bytes = pos 0;
      }
        ∷ [],
)

abbrev limit_of : Heap → ℕ → ℤ
limit_of h self = elim (get_elem? h self) [ none ↦ pos 0 | some account ↦ account.limit_bytes ]

unfoldable pub child : ℕ → String → Option ℤ → Heap → Result MemoryError ℕ × Heap
unfolding create
child self name none h = create name (limit_of h self) (some self) h
child self name (some limit_bytes) h = create name limit_bytes (some self) h

abbrev pub parent_of : Heap → ℕ → Option ℕ
parent_of h a = elim (get_elem? h a) [ none ↦ none | some account ↦ account.parent ]

-- The `while account is not None` loop of `_chain`. A parent is older than its child, so the
-- number of accounts is enough fuel.
unfoldable pub ancestors : ℕ → Heap → Option ℕ → List ℕ
ancestors zero h account = []
ancestors (suc fuel) h none = []
ancestors (suc fuel) h (some p) = p ∷ ancestors fuel h (parent_of h p)

unfoldable pub chain : Heap → ℕ → List ℕ
unfolding ancestors
chain h self = self ∷ ancestors (length h) h (parent_of h self)

abbrev pub exceeds : ℤ → Account → Bool
exceeds size account = ltb_ℤ account.limit_bytes (account.current_bytes +ℤ size)

-- The generator handed to `next`: the first account of the chain without room.
unfoldable pub first_exceeded : ℤ → Heap → List ℕ → Option Account
first_exceeded size h [] = none
first_exceeded size h (a ∷ rest) = elim (get_elem? h a) [
  | none ↦ first_exceeded size h rest
  | some account ↦ if exceeds size account then some account else first_exceeded size h rest
]

-- An assignment to fields of the account at an address.
unfoldable pub modify : (Account → Account) → ℕ → Heap → Heap
modify f a h = elim (get_elem? h a) [ none ↦ h | some account ↦ set h a (f account) ]

-- `for account in chain: ...`
unfoldable pub modify_all : (Account → Account) → List ℕ → Heap → Heap
unfolding modify
modify_all f [] h = h
modify_all f (a ∷ rest) h = modify_all f rest (modify f a h)

abbrev pub max_ℤ : ℤ → ℤ → ℤ
max_ℤ a b = if ltb_ℤ a b then b else a

abbrev pub charge : ℤ → Account → Account
charge size account =
    let current = account.current_bytes +ℤ size in
    record account { current_bytes = current; peak_bytes = max_ℤ account.peak_bytes current }

abbrev pub discharge : ℤ → Account → Account
discharge size account = record account { current_bytes = account.current_bytes -ℤ size }

abbrev reserve_on : ℤ → List ℕ → Heap → Result MemoryError Unit × Heap
reserve_on size rest h = elim (first_exceeded size h rest) [
  | some account ↦ (err (memory_limit_exceeded account.name account.limit_bytes), h)
  | none ↦ (ok tt, modify_all (charge size) rest h)
]

unfoldable pub reserve : ℤ → ℕ → Heap → Result MemoryError Unit × Heap
reserve (negsuc n) self h = (err value_error, h)
reserve (pos zero) self h = (ok tt, h)
reserve (pos (suc n)) self h = reserve_on (pos (suc n)) (chain h self) h

abbrev as_bool : Result MemoryError Unit × Heap → Result MemoryError Bool × Heap
as_bool (ok tt, h) = (ok true, h)
as_bool (err (memory_limit_exceeded name limit_bytes), h) = (ok false, h)
as_bool (err value_error, h) = (err value_error, h)

-- Only MemoryLimitExceeded is caught.
unfoldable pub try_reserve : ℤ → ℕ → Heap → Result MemoryError Bool × Heap
unfolding reserve
try_reserve size self h = as_bool (reserve size self h)

abbrev holds : Heap → ℕ → ℤ → Bool
holds h self size = elim (get_elem? h self) [
  | none ↦ false
  | some account ↦ leb_ℤ size account.current_bytes
]

unfoldable pub release : ℤ → ℕ → Heap → Result MemoryError Unit × Heap
release (negsuc n) self h = (err value_error, h)
release (pos zero) self h = (ok tt, h)
release (pos (suc n)) self h =
    if holds h self (pos (suc n))
    then (ok tt, modify_all (discharge (pos (suc n))) (chain h self) h)
    else (err value_error, h)
