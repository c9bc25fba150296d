-- ===== src/Common/Errors.antt =====
-- common/exceptions.py: the domain error and what of an error a Worker makes public.
pub mod Public
use mathlib.Core.Bool.{cond}
use distributed_sql.Prelude.{
  ℕ, String, Bool, Option, none, some, List, [], ◌∷◌, Dict, lookup, insert, str_elem, if◌then◌else◌,
}
use distributed_sql.Prelude.Int.{ℤ}

pub data ErrorCode : Type 0 where
  syntax_error binding_error not_found conflict invalid_request lease_rejected : ErrorCode
  resource_exhausted task_failed service_unavailable internal_error : ErrorCode

-- The values that the services put into an error's context.
pub data ContextValue : Type 0 where
  text : String → ContextValue
  number : ℤ → ContextValue
  texts : List String → ContextValue
  nothing : ContextValue

pub record DistributedSqlError : Type 0 where
  pub code : ErrorCode
  pub message : String
  pub status_code : ℕ
  pub context : Dict ContextValue

pub record ErrorDetail : Type 0 where
  pub code : ErrorCode
  pub message : String
  pub context : Dict ContextValue

-- An exception as `public_task_error` tells them apart: a domain error, or any other class with
-- its name and text.
pub data Exception : Type 0 where
  domain : DistributedSqlError → Exception
  other : (class message : String) → Exception

abbrev pub public_context_keys : List String
public_context_keys =
    "alias" ∷ "attempt_count" ∷ "attempt_id" ∷ "candidates" ∷ "column" ∷ "column_name"
    ∷ "column_names" ∷ "column_count" ∷ "end" ∷ "expression_type" ∷ "failure_kind" ∷ "format"
    ∷ "function" ∷ "limit_bytes" ∷ "line" ∷ "namespace" ∷ "partition" ∷ "partition_count"
    ∷ "query_id" ∷ "requested_bytes" ∷ "stage_id" ∷ "start" ∷ "statement_count" ∷ "table"
    ∷ "task_id" ∷ "worker_id" ∷ []

unfoldable pub is_public : String → Bool
is_public key = str_elem key public_context_keys

unfoldable pub public_task_message : ErrorCode → String
public_task_message syntax_error = "Worker SQL syntax validation failed."
public_task_message binding_error = "Worker SQL binding failed."
public_task_message not_found = "Worker Task input was not found."
public_task_message conflict = "Worker Task state conflicts with the request."
public_task_message invalid_request = "Worker Task input is invalid."
public_task_message lease_rejected = "Worker lease was rejected."
public_task_message resource_exhausted = "Worker resources were exhausted."
public_task_message task_failed = "Worker Task execution failed."
public_task_message service_unavailable = "Worker service is unavailable."
public_task_message internal_error = "Worker encountered an internal error."

-- `{key: value for key, value in context.items() if key in _PUBLIC_CONTEXT_KEYS}`
unfoldable pub public_items : Dict ContextValue → Dict ContextValue
public_items [] = []
public_items ((key, value) ∷ rest) =
    if is_public key then (key, value) ∷ public_items rest else public_items rest

-- `target.update(items)`
unfoldable pub update : Dict ContextValue → Dict ContextValue → Dict ContextValue
update target [] = target
update target ((key, value) ∷ rest) = update (insert key value target) rest

abbrev pub source_code : Exception → ErrorCode
source_code (domain e) = e.code
source_code (other class message) = task_failed

abbrev pub source_context : Exception → Dict ContextValue
source_context (domain e) = e.context
source_context (other class message) = []

unfoldable pub public_task_error : Exception → Dict ContextValue → ErrorDetail
unfolding public_task_message
public_task_error exc context = record {
  code = source_code exc;
  message = public_task_message (source_code exc);
  context = update (public_items (source_context exc)) (public_items context);
}

unfoldable pub status_code_for_error : ErrorCode → ℕ
status_code_for_error not_found = 404
status_code_for_error conflict = 409
status_code_for_error invalid_request = 422
status_code_for_error lease_rejected = 403
status_code_for_error resource_exhausted = 507
status_code_for_error task_failed = 500
status_code_for_error service_unavailable = 503
status_code_for_error internal_error = 500
status_code_for_error _ = 400
