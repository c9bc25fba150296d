-- ===== src/WorkerTasks.antt =====
-- worker/tasks.py: WorkerTaskManager, the task attempts of one Worker process. Methods under the
-- lock are one step; `_execute` is cut where it awaits `_execute_sync`, whose outcome is an argument.
-- Results, the content of a submission and its equality are parameters; deletions of stored files
-- are not modelled.
pub mod Submissions
pub mod Tests
use distributed_sql.Prelude.{
  ℕ, String, str_leb, Bool, true, false, not, Option, none, some, List, [], ◌∷◌, Dict, lookup,
  insert, values, map, sorted_by, Result, ok, err, if◌then◌else◌,
}
use distributed_sql.Common.Errors.{
  ContextValue, text, DistributedSqlError, ErrorDetail, Exception, task_failed, public_task_error,
}
use distributed_sql.Common.Protocol.{
  AttemptState, created, running, succeeded, failed, canceled, lost,
}

module _ (C : Type 0) where
  pub record Submission : Type 0 where
    pub query_id : String
    pub stage_id : String
    pub task_id : String
    pub attempt_id : String
    pub content : C

module _ (R : Type 0) where
  pub record TaskStatus : Type 0 where
    pub task_id : String
    pub attempt_id : String
    pub state : AttemptState
    pub started_at : Option ℕ
    pub result : Option R
    pub error : Option ErrorDetail

module _ (C R : Type 0) where
  pub record TaskRecord : Type 0 where
    pub submission : Submission C
    pub status : TaskStatus R
    pub cancelled : Bool

  -- How `_execute_sync` ends.
  pub data Outcome : Type 0 where
    value : R → Outcome
    task_cancelled : Outcome
    raised : Exception → Outcome

abbrev pub is_open : AttemptState → Bool
is_open created = true
is_open running = true
is_open _ = false

abbrev submission_context : {C : Type 0} → String → Submission C → Dict ContextValue
submission_context worker_id submission =
    ("query_id", text submission.query_id)
    ∷ ("stage_id", text submission.stage_id)
    ∷ ("task_id", text submission.task_id)
    ∷ ("attempt_id", text submission.attempt_id)
    ∷ ("worker_id", text worker_id)
    ∷ []

-- The handler of `TimeoutError` in `cancel`.
unfoldable pub not_confirmed : {C : Type 0} → String → Submission C → DistributedSqlError
not_confirmed worker_id submission = record {
  code = task_failed;
  message = "Worker Task cancellation was not confirmed before the timeout.";
  status_code = 504;
  context = submission_context worker_id submission;
}

module _ {C R : Type 0} where
  abbrev pub new_record : Submission C → TaskRecord C R
  new_record submission = record {
    submission = submission;
    status = record {
      task_id = submission.task_id;
      attempt_id = submission.attempt_id;
      state = created;
      started_at = none;
      result = none;
      error = none;
    };
    cancelled = false;
  }

  -- A submission of different content under a known attempt raises ValueError.
  unfoldable pub submit :
      (Submission C → Submission C → Bool)
      → Submission C
      → Dict (TaskRecord C R)
      → Result String (TaskStatus R) × Dict (TaskRecord C R)
  submit same submission records = elim (lookup submission.attempt_id records) [
    | some existing ↦
        if same existing.submission submission
        then (ok existing.status, records)
        else (err submission.attempt_id, records)
    | none ↦ (
      ok (new_record submission).status,
      insert submission.attempt_id (new_record submission) records,
    )
  ]

  unfoldable pub status : String → Dict (TaskRecord C R) → Option (TaskStatus R)
  status attempt_id records = elim (lookup attempt_id records) [
    | none ↦ none
    | some r ↦ some r.status
  ]

  abbrev by_attempt : TaskRecord C R → TaskRecord C R → Bool
  by_attempt a b = str_leb a.submission.attempt_id b.submission.attempt_id

  unfoldable pub list_statuses : Dict (TaskRecord C R) → List (TaskStatus R)
  list_statuses records =
      map (λ (r : TaskRecord C R). r.status) (sorted_by by_attempt (values records))

  -- `cancel` up to its await: the records, and whether it goes on to wait.
  unfoldable pub request_cancel :
      String → Dict (TaskRecord C R) → Option Bool × Dict (TaskRecord C R)
  request_cancel attempt_id records = elim (lookup attempt_id records) [
    | none ↦ (none, records)
    | some r ↦
        if is_open r.status.state
        then (some true, insert attempt_id (record r { cancelled = true }) records)
        else (some false, records)
  ]

  abbrev in_state : AttemptState → TaskRecord C R → TaskRecord C R
  in_state state r = record r { status = record r.status { state = state } }

  -- `_execute` up to its await.
  unfoldable pub begin : ℕ → TaskRecord C R → TaskRecord C R
  begin now r = record r { status = record r.status { state = running; started_at = some now } }

  -- `_execute` from its await on.
  unfoldable pub conclude : String → Outcome C R → TaskRecord C R → TaskRecord C R
  conclude worker_id (value result) r =
      if r.cancelled
      then in_state canceled r
      else (record r { status = record r.status { result = some result; state = succeeded } })
  conclude worker_id task_cancelled r = in_state canceled r
  conclude worker_id (raised exc) r = record r {
    status = record r.status {
      error = some (public_task_error exc (submission_context worker_id r.submission));
      state = if r.cancelled then canceled else failed;
    };
  }
