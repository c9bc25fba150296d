-- ===== src/Prelude/Dicts.antt =====
-- A dictionary with text keys, as an association list in insertion order. A write to a key that is
-- there keeps its place.
use Prim.Native.String.{String}
use Prim.Native.String.{◌++◌}
use mathlib.Core.Path.{◌≡◌, refl}
use mathlib.Core.Bool.{Bool, false, ◌||◌}
use mathlib.Core.Option.{Option, none, some}
use mathlib.Core.Option
use mathlib.Core.List.{List, [], ◌∷◌}
use native.Mathlib.Omega.{arith}
use text.Mathlib.Text.{◌==◌}
use text.Mathlib.TextEquality.{eq_iff}
use text.Mathlib.TextPositions.{eq_refl}
use distributed_sql.Prelude.Tests.{if◌then◌else◌}

abbrev pub Dict {ℓ} : Type ℓ → Type ℓ
Dict V = List (String × V)

module _ {ℓ} {V : Type ℓ} where
  abbrev pub lookup : String → Dict V → Option V
  lookup k [] = none
  lookup k ((j, v) ∷ m) = if j == k then some v else lookup k m

  abbrev pub insert : String → V → Dict V → Dict V
  insert key value [] = (key, value) ∷ []
  insert key value ((at, old) ∷ rest) =
      if at == key then (key, value) ∷ rest else (at, old) ∷ insert key value rest

  pub lookup-insert :
      (key asked : String) (value : V) (dict : Dict V)
      → lookup asked (insert key value dict)
        ≡ (if key == asked then some value else lookup asked dict)
  lookup-insert key asked value [] = refl
  lookup-insert key asked value ((at, old) ∷ rest) =
      ground (
        arith,
        eq_iff key asked,
        eq_iff at key,
        eq_iff at asked,
        lookup-insert key asked value rest,
      )

  pub lookup-insert_self : (k : String) (v : V) (m : Dict V) → lookup k (insert k v m) ≡ some v
  lookup-insert_self k v m = simp (lookup-insert, eq_refl)

abbrev pub str_elem : String → List String → Bool
str_elem k [] = false
str_elem k (j ∷ js) = j == k || str_elem k js

module _ {ℓ} {V : Type ℓ} where
  abbrev pub values : Dict V → List V
  values [] = []
  values ((k, v) ∷ m) = v ∷ values m

  -- A loop over `values()` that assigns to the objects in the dictionary.
  abbrev pub map_values : (V → V) → Dict V → Dict V
  map_values f [] = []
  map_values f ((k, v) ∷ m) = (k, f v) ∷ map_values f m

  pub lookup-map_values :
      (f : V → V) (k : String) (m : Dict V) → lookup k (map_values f m) ≡ Option.map f (lookup k m)
  lookup-map_values f k [] = refl
  lookup-map_values f k ((j, v) ∷ m) = ground (arith, lookup-map_values f k m, eq_iff j k)

-- The parts of an f-string, joined.
abbrev pub str_concat : List String → String
str_concat [] = ""
str_concat (s ∷ rest) = s ++ str_concat rest

-- `{s!r}`, for a text without quotes, backslashes and control characters.
abbrev pub quoted : String → String
quoted s = str_concat ("'" ∷ s ∷ "'" ∷ [])
