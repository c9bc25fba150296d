-- ===== src/Common/Errors/Public.antt =====
-- What a client can learn from the public form of an error.
use distributed_sql.Prelude.{
  Bool-cases, inl, inr, String, ◌≡◌, refl, Option, none, some, [], ◌∷◌, Dict, lookup, insert,
  lookup-insert, arith, eq_iff, if◌then◌else◌,
}
use distributed_sql.Common.Errors.{
  ContextValue, Exception, is_public, public_items, update, public_task_error, source_context,
}

lookup-public_items :
    (k : String) (m : Dict ContextValue)
    → lookup k (public_items m) ≡ (if is_public k then lookup k m else none)
unfolding public_items
lookup-public_items k [] = ground arith
lookup-public_items k ((j, v) ∷ m) = ground (arith, lookup-public_items k m, eq_iff j k)

abbrev pub or_else : Option ContextValue → Option ContextValue → Option ContextValue
or_else none d = d
or_else (some v) d = some v

-- The keys of a dictionary are distinct, as they are in Python.
abbrev pub HasDistinctKeys : Dict ContextValue → Type 0
HasDistinctKeys [] = Unit
HasDistinctKeys ((k, v) ∷ m) = (lookup k m ≡ none) × HasDistinctKeys m

lookup-update :
    (k : String) (t m : Dict ContextValue)
    → HasDistinctKeys m
    → lookup k (update t m) ≡ or_else (lookup k m) (lookup k t)
unfolding update
lookup-update k t [] d = refl
lookup-update k t ((j, v) ∷ m) d =
    ground (arith, lookup-update k (insert j v t) m d.1, lookup-insert j k v t, eq_iff j k)

public_items-HasDistinctKeys :
    (m : Dict ContextValue) → HasDistinctKeys m → HasDistinctKeys (public_items m)
unfolding public_items
public_items-HasDistinctKeys [] d = tt
public_items-HasDistinctKeys ((k, v) ∷ m) d = elim (Bool-cases (is_public k)) [
  | inl p ↦ rw p (rw (lookup-public_items k m, p) d.0, public_items-HasDistinctKeys m d.1)
  | inr p ↦ rw p (public_items-HasDistinctKeys m d.1)
]

-- The context of a public error holds, at a public key, the value that the caller gives, or else
-- the error's own, and at any other key nothing, whatever the exception is. The caller's context
-- is a dictionary: no key stands in it twice.
pub lookup-public_task_error :
    (exc : Exception) (context : Dict ContextValue) (k : String)
    → HasDistinctKeys context
    → lookup k (public_task_error exc context).context
      ≡ (if is_public k then or_else (lookup k context) (lookup k (source_context exc)) else none)
unfolding public_task_error
lookup-public_task_error exc context k d = ground (
  arith,
  lookup-update k (public_items (source_context exc)) (public_items context)
      (public_items-HasDistinctKeys context d),
  lookup-public_items k context,
  lookup-public_items k (source_context exc),
)
