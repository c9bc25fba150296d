-- ===== src/Common/Tests.antt =====
-- The theorems about public errors, at an error that carries a path.
use distributed_sql.Prelude.{◌≡◌, refl, none, [], ◌∷◌, lookup, Dict, if◌then◌else◌}
use distributed_sql.Common.Errors.{
  Exception, domain, ContextValue, text, public_task_error, is_public, source_context,
  resource_exhausted, public_items, update,
}
use distributed_sql.Common.Errors.Public.{lookup-public_task_error, or_else}

abbrev full : Exception
full = domain (record {
  code = resource_exhausted;
  message = "Temporary spill storage is full.";
  status_code = 507;
  context = ("query_id", text "q") ∷ ("temp_root", text "/secret") ∷ [];
})

abbrev context : Dict ContextValue
context = ("query_id", text "q1") ∷ ("task_id", text "t1") ∷ []

lookup-public_task_error_example : lookup "temp_root" (public_task_error full context).context ≡ (
    if is_public "temp_root"
    then or_else (lookup "temp_root" context) (lookup "temp_root" (source_context full))
    else none)
lookup-public_task_error_example =
    lookup-public_task_error full context "temp_root" (refl, (refl, tt))

hidden : lookup "temp_root" (public_task_error full context).context ≡ none
unfolding public_task_error is_public public_items update
hidden = refl
