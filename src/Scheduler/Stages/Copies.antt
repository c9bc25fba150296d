-- ===== src/Scheduler/Stages/Copies.antt =====
-- The dictionary of the stages that the loop runs over.
use distributed_sql.Prelude.{
  ◌≡◌, refl, sym, ap, ◌∙◌, String, inl, inr, List, [], ◌∷◌, All, Dict, lookup, str_eq, eq_iff,
  Bool-cases, arith, values, insert, lookup-insert, none, ◌++◌, append-nil, append_assoc, ◌≢◌,
}
use distributed_sql.Physical.Stages.{Stage}
use distributed_sql.Physical.Stages.Precede.{AllDiffer, ids}
use distributed_sql.Scheduler.Stages.{stage_dict}

values-insert_new :
    {V : Type 0} (k : String) (v : V) (m : Dict V)
    → lookup k m ≡ none
    → values (insert k v m) ≡ values m ++ v ∷ []
values-insert_new k v [] absent = refl
values-insert_new k v ((j, w) ∷ m) absent = elim (Bool-cases (str_eq j k)) [
  | inl same ↦ let e = rw same at absent in cc
  | inr differs ↦ rw differs (ap (λ l. w ∷ l) (values-insert_new k v m (rw differs at absent)))
]

still_absent :
    (stage : Stage) (stages : List Stage) (m : Dict Stage)
    → All (λ id. stage.stage_id ≢ id) (ids stages)
    → All (λ other. lookup other.stage_id m ≡ none) stages
    → All (λ other. lookup other.stage_id (insert stage.stage_id stage m) ≡ none) stages
still_absent stage [] m apart absent = tt
still_absent stage (other ∷ stages) m (differs, apart) (here, absent) = (
  ground (
    arith,
    lookup-insert stage.stage_id other.stage_id stage m,
    eq_iff stage.stage_id other.stage_id,
    here,
    differs,
  ),
  still_absent stage stages m apart absent,
)

values-stage_dict :
    (stages : List Stage) (m : Dict Stage)
    → AllDiffer (ids stages)
    → All (λ stage. lookup stage.stage_id m ≡ none) stages
    → values (stage_dict stages m) ≡ values m ++ stages
unfolding stage_dict
values-stage_dict [] m differ absent = sym (append-nil (values m))
values-stage_dict (stage ∷ stages) m (apart, differ) (here, absent) =
    values-stage_dict stages (insert stage.stage_id stage m) differ
      (still_absent stage stages m apart absent)
    ∙ ap (λ l. l ++ stages) (values-insert_new stage.stage_id stage m here)
    ∙ append_assoc (values m) (stage ∷ []) stages

nothing_there :
    (stages : List Stage) → All (λ stage. lookup {V = Stage} stage.stage_id [] ≡ none) stages
nothing_there [] = tt
nothing_there (stage ∷ stages) = (refl, nothing_there stages)

-- Where the identities differ, the dictionary holds every stage, in its place.
pub copies_same :
    (stages : List Stage) → AllDiffer (ids stages) → values (stage_dict stages []) ≡ stages
copies_same stages differ = values-stage_dict stages [] differ (nothing_there stages)
