-- ===== src/Operators/Joins/Reference.antt =====
-- The nested-loop join, which says what a join of two lists of rows is.
use distributed_sql.Prelude.{
  ◌≡◌, Bool, true, false, not, Option, none, some, List, [], ◌∷◌, ◌++◌, map, flatten, any, keep,
  if◌then◌else◌,
}
use distributed_sql.Operators.Joins.{Join}

-- Equal keys can stand for each other.
pub record IsKeyEquality {K : Type 0} (same : K → K → Bool) : Type 0 where
  pub reflexive : (a : K) → same a a ≡ true
  pub symmetric : (a b : K) → same a b ≡ same b a
  pub transitive : (a b c : K) → same a b ≡ true → same a c ≡ same b c

module _ {K : Type 0} (same : K → K → Bool) where
  abbrev pub has_key : Option K → K → Bool
  has_key none asked = false
  has_key (some key) asked = same key asked

  -- A key that holds a null matches nothing.
  abbrev pub keys_match : Option K → Option K → Bool
  keys_match key none = false
  keys_match key (some asked) = has_key key asked

module _ {R K : Type 0} (j : Join R K) where
  abbrev pub pairs_with : R → R → Bool
  pairs_with probe build = keys_match j.same (j.build_key build) (j.probe_key probe)

  -- The joined rows of one probe row with all of its partners.
  abbrev pub extended : R → List R → List R
  extended probe [] = if j.probe_preserved then j.merge j.null_build probe ∷ [] else []
  extended probe (build ∷ partners) = map (λ row. j.merge row probe) (build ∷ partners)

  abbrev pub joined_with : List R → R → List R
  joined_with build_rows probe = extended probe (keep (pairs_with probe) build_rows)

  abbrev pub is_lonely : List R → R → Bool
  is_lonely probe_rows build = not (any (λ probe. pairs_with probe build) probe_rows)

  abbrev pub lonely_rows : List R → List R → List R
  lonely_rows build_rows probe_rows =
      if j.build_preserved
      then map (λ row. j.merge row j.null_probe) (keep (is_lonely probe_rows) build_rows)
      else []

  -- Each probe row with its partners, in the order of the probe rows, then the build rows without a
  -- partner.
  abbrev pub nested_loop_join : List R → List R → List R
  nested_loop_join build_rows probe_rows =
      flatten (map (joined_with build_rows) probe_rows) ++ lonely_rows build_rows probe_rows
