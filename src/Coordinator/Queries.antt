-- ===== src/Coordinator/Queries.antt =====
-- coordinator/queries.py: the life of a query. `_run` is cut where it awaits: what the awaited call
-- gives is an argument of the part that follows. Plans, rows, diagnostics and advice are
-- parameters.
pub mod Life
pub mod Final
pub mod Paging
pub mod Tests
use distributed_sql.Prelude.{
  ℕ, zero, suc, ◌+◌, ◌==◌, String, str_eq, Bool, true, false, Option, none, some, List, [], ◌∷◌,
  length, take, drop, ltb, Result, ok, err, if◌then◌else◌, Dict, lookup, insert, str_concat, quoted,
}
use distributed_sql.Common.Errors.{
  DistributedSqlError, ErrorDetail, ErrorCode, text, not_found, conflict, task_failed,
  internal_error, service_unavailable,
}
use distributed_sql.Common.Protocol.{
  Query, QueryState, queued, planning, running, succeeded, failed, canceled,
}

module _ (Plan Row Diagnostics Advice : Type 0) where
  -- `_QueryRecord`; its plan is there when `optimization` and `physical_plan` are.
  pub record QueryRecord : Type 0 where
    pub query : Query
    pub plan : Option Plan
    pub rows : Option (List Row)
    pub columns : Option (List String)
    pub diagnostics : Option Diagnostics
    pub advisor : Option Advice
    pub has_executor : Bool
    pub cancel_requested : Bool

  pub record QueryResultPage : Type 0 where
    pub query_id : String
    pub columns : List String
    pub rows : List Row
    pub offset : ℕ
    pub limit : ℕ
    pub returned : ℕ
    pub total_rows : ℕ
    pub next_offset : Option ℕ

  -- What an execution returns, with the diagnostics and the advice that are built from it.
  pub record Execution : Type 0 where
    pub column_names : List String
    pub table : List Row
    pub diagnostics : Diagnostics
    pub advice : Advice

-- The exceptions as the handlers of `_run` tell them apart.
pub data Failure : Type 0 where
  cancelled : Failure
  confirmation : Failure
  domain : DistributedSqlError → Failure
  other : (class : String) → Failure

-- The await that `_run` is at.
pub data Phase : Type 0 where
  waiting listing making executing done : Phase

abbrev no_active_worker : DistributedSqlError
no_active_worker = record {
  code = service_unavailable;
  message = "No active Worker is available.";
  status_code = 503;
  context = [];
}

abbrev pub is_terminal : QueryState → Bool
is_terminal succeeded = true
is_terminal failed = true
is_terminal canceled = true
is_terminal _ = false

abbrev pub is_failed : QueryState → Bool
is_failed failed = true
is_failed _ = false

abbrev pub is_succeeded : QueryState → Bool
is_succeeded succeeded = true
is_succeeded _ = false

abbrev state_text : QueryState → String
state_text queued = "queued"
state_text planning = "planning"
state_text running = "running"
state_text succeeded = "succeeded"
state_text failed = "failed"
state_text canceled = "canceled"

abbrev unconfirmed_error : String → String → String → ErrorDetail
unconfirmed_error query_id message kind = record {
  code = task_failed;
  message = message;
  context = ("query_id", text query_id) ∷ ("failure_kind", text kind) ∷ [];
}

abbrev missing : String → DistributedSqlError
missing query_id = record {
  code = not_found;
  message = str_concat ("Query " ∷ quoted query_id ∷ " does not exist." ∷ []);
  status_code = 404;
  context = ("query_id", text query_id) ∷ [];
}

abbrev or_no_columns : Option (List String) → List String
or_no_columns none = []
or_no_columns (some columns) = columns

abbrev next_of : ℕ → ℕ → ℕ → Option ℕ
next_of offset returned total =
    if ltb (offset + returned) total then some (offset + returned) else none

module _ {Plan Row Diagnostics Advice : Type 0} where
  unfoldable pub set_state :
      QueryState
      → ℕ
      → QueryRecord Plan Row Diagnostics Advice
      → QueryRecord Plan Row Diagnostics Advice
  set_state state now r = record r { query = record r.query { state = state; updated_at = now } }

  unfoldable pub set_error :
      ErrorDetail
      → QueryRecord Plan Row Diagnostics Advice
      → QueryRecord Plan Row Diagnostics Advice
  set_error error r = record r { query = record r.query { error = some error } }

  -- The handlers of `_run`, and its `finally`.
  unfoldable pub handle :
      ℕ
      → Failure
      → QueryRecord Plan Row Diagnostics Advice
      → QueryRecord Plan Row Diagnostics Advice
  unfolding set_state set_error
  handle now failure r = record (handled failure) { has_executor = false }
    where
      handled : Failure → QueryRecord Plan Row Diagnostics Advice
      handled cancelled = if is_failed r.query.state then r else set_state canceled now r
      handled confirmation = set_state failed now (
          set_error
            (unconfirmed_error r.query.query_id
              "Query cancellation could not be confirmed for every remote attempt."
              "cancellation_confirmation")
            r)
      handled (domain e) =
          if r.cancel_requested
          then set_state canceled now r
          else set_state failed now
              (set_error (record { code = e.code; message = e.message; context = e.context }) r)
      handled (other class) =
          if r.cancel_requested
          then set_state canceled now r
          else set_state failed now (
              set_error
                (record {
                  code = internal_error;
                  message = "Query execution failed.";
                  context = ("type", text class) ∷ [];
                })
                r)

  unfoldable pub start :
      ℕ → QueryRecord Plan Row Diagnostics Advice → Phase × QueryRecord Plan Row Diagnostics Advice
  unfolding set_state
  start now r = (listing, set_state planning now r)

  -- With the number of active Workers.
  unfoldable pub after_listing :
      ℕ
      → Result Failure ℕ
      → QueryRecord Plan Row Diagnostics Advice
      → Phase × QueryRecord Plan Row Diagnostics Advice
  unfolding handle
  after_listing now (err failure) r = (done, handle now failure r)
  after_listing now (ok active) r =
      if active == 0 then (done, handle now (domain no_active_worker) r) else (making, r)

  unfoldable pub after_planning :
      ℕ
      → Result Failure Plan
      → QueryRecord Plan Row Diagnostics Advice
      → Phase × QueryRecord Plan Row Diagnostics Advice
  unfolding handle set_state
  after_planning now (err failure) r = (done, handle now failure r)
  after_planning now (ok plan) r =
      let planned = record r { plan = some plan } in
      if r.cancel_requested
      then (done, handle now cancelled planned)
      else (executing, set_state running now (record planned { has_executor = true }))

  unfoldable pub after_execution :
      ℕ
      → Result Failure (Execution Plan Row Diagnostics Advice)
      → QueryRecord Plan Row Diagnostics Advice
      → Phase × QueryRecord Plan Row Diagnostics Advice
  unfolding handle set_state
  after_execution now (err failure) r = (done, handle now failure r)
  after_execution now (ok result) r =
      if r.cancel_requested then (done, handle now cancelled r) else (
        done,
        record (set_state succeeded now (record r {
          columns = some result.column_names;
          rows = some result.table;
          diagnostics = some result.diagnostics;
          advisor = some result.advice;
        })) { has_executor = false },
      )

  -- `cancel` up to its await.
  unfoldable pub request_cancel :
      QueryRecord Plan Row Diagnostics Advice → QueryRecord Plan Row Diagnostics Advice
  request_cancel r = if is_terminal r.query.state then r else record r { cancel_requested = true }

  -- Its handler of `TimeoutError`.
  unfoldable pub cancel_timeout :
      ℕ → QueryRecord Plan Row Diagnostics Advice → QueryRecord Plan Row Diagnostics Advice
  unfolding set_state set_error
  cancel_timeout now r = set_state failed now (
      set_error
        (unconfirmed_error r.query.query_id
          "Query cancellation could not be confirmed before the timeout." "cancellation_timeout")
        r)

  abbrev not_ready : QueryRecord Plan Row Diagnostics Advice → String → DistributedSqlError
  not_ready r resource = record {
    code = conflict;
    message = str_concat (
        "Query "
        ∷ resource
        ∷ " are not available while state is "
        ∷ quoted (state_text r.query.state)
        ∷ "."
        ∷ []);
    status_code = 409;
    context = ("query_id", text r.query.query_id) ∷ ("state", text (state_text r.query.state)) ∷ [];
  }

  -- `get_results` of a record: `all_rows[offset : offset + limit]`.
  unfoldable pub results_of :
      QueryRecord Plan Row Diagnostics Advice
      → ℕ
      → ℕ
      → Result DistributedSqlError (QueryResultPage Plan Row Diagnostics Advice)
  results_of r offset limit = elim r.rows [
    | none ↦ err (not_ready r "results")
    | some all_rows ↦
        if is_succeeded r.query.state
        then (let rows = take limit (drop offset all_rows) in
            ok (record {
              query_id = r.query.query_id;
              columns = or_no_columns r.columns;
              rows = rows;
              offset = offset;
              limit = limit;
              returned = length rows;
              total_rows = length all_rows;
              next_offset = next_of offset (length rows) (length all_rows);
            }))
        else err (not_ready r "results")
  ]

  unfoldable pub get_results :
      Dict (QueryRecord Plan Row Diagnostics Advice)
      → String
      → ℕ
      → ℕ
      → Result DistributedSqlError (QueryResultPage Plan Row Diagnostics Advice)
  unfolding results_of
  get_results records query_id offset limit = elim (lookup query_id records) [
    | none ↦ err (missing query_id)
    | some r ↦ results_of r offset limit
  ]

  -- `submit`: Python's `strip`, the fresh id and the time are arguments.
  unfoldable pub submit :
      (String → String)
      → String
      → ℕ
      → String
      → Dict (QueryRecord Plan Row Diagnostics Advice)
      → Query × Dict (QueryRecord Plan Row Diagnostics Advice)
  submit strip query_id now sql records =
      let query : Query = record {
        query_id = query_id;
        sql = strip sql;
        state = queued;
        created_at = now;
        updated_at = now;
        error = none;
      } in
      (
        query,
        insert query_id
            (record {
              query = query;
              plan = none;
              rows = none;
              columns = none;
              diagnostics = none;
              advisor = none;
              has_executor = false;
              cancel_requested = false;
            })
            records,
      )
