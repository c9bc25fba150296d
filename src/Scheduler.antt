-- ===== src/Scheduler.antt =====
-- execution/scheduler.py: the choice of a Worker and the attempts of one Task. What a Task meets on
-- an attempt, from the backend, the registry, the clock and the other Tasks, is a `Moment`.
pub mod Choice
pub mod Attempts
pub mod Retries
pub mod Stages
pub mod Tests
use distributed_sql.Prelude.{
  ℕ, zero, suc, ◌+◌, ◌%◌, ◌==◌, String, str_eq, Bool, true, false, not, ◌&&◌, Option, none, some,
  List, [], ◌∷◌, ◌++◌, keep, length, get_elem?, ltb, Dict, lookup, insert, str_elem, str_concat,
  if◌then◌else◌,
}
use distributed_sql.Prelude.Int.{pos}
use distributed_sql.Common.Errors
use distributed_sql.Common.Errors.{
  ContextValue, text, number, nothing, DistributedSqlError, Exception, domain, public_task_error,
}
use distributed_sql.Common.Protocol.{
  Task, Attempt, AttemptState, WorkerState, worker_state_is, detail, described,
}
use distributed_sql.Common.Protocol
use distributed_sql.Planner.Values.{text_of_int}

-- `__post_init__` of `RetryPolicy`, on the field that counts.
unfoldable pub retry_policy_is_valid : ℕ → Bool
retry_policy_is_valid max_attempts = not (ltb max_attempts 1)

-- How the call of `_execute_attempt` ends.
pub data Ending (V : Type 0) : Type 0 where
  value : V → Ending V
  execution_cancelled : Ending V
  task_cancelled : Ending V
  confirmation_failed : Ending V
  failed : Exception → Ending V

pub record Moment (V : Type 0) : Type 0 where
  -- The token is cancelled before the attempt, after its value, and after the backoff.
  pub cancelled_before : Bool
  pub cancelled_after : Bool
  pub cancelled_in_backoff : Bool
  -- An `asyncio.CancelledError` comes in `_choose_worker`, in `worker.discard`, which `suppress` lets
  -- through, or in the sleep of `_retry_backoff`.
  pub interrupted_in_choice : Bool
  pub interrupted_in_discard : Bool
  pub interrupted_in_backoff : Bool
  -- After `expire_leases`: the states that the registry lists, where there is a registry.
  pub registered : Option (Dict WorkerState)
  pub active : String → Bool
  -- `_next_worker`, which other Tasks advance too.
  pub next_worker : ℕ
  pub ending : Ending V
  pub started_at : Option ℕ
  pub finished_at : ℕ

abbrev is_active_state : Option WorkerState → Bool
is_active_state none = false
is_active_state (some state) = worker_state_is state Protocol.active

abbrev is_registered : Option (Dict WorkerState) → String → Bool
is_registered none worker_id = true
is_registered (some states) worker_id = is_active_state (lookup worker_id states)

-- `_healthy_workers`, over the sorted Worker ids.
unfoldable pub healthy_workers : {V : Type 0} → List String → Moment V → List String
healthy_workers workers m = keep (λ w. m.active w && is_registered m.registered w) workers

abbrev pub or_else : List String → List String → List String
or_else [] healthy = healthy
or_else (w ∷ ws) healthy = w ∷ ws

abbrev pub fresh : List String → List String → List String
fresh previous healthy = keep (λ w. not (str_elem w previous)) healthy

-- `_choose_worker` on the healthy Workers: none stands for `WorkerLostError`.
unfoldable pub choose_worker : List String → List String → ℕ → Option String
choose_worker [] previous next = none
choose_worker (w ∷ ws) previous next =
    let candidates = or_else (fresh previous (w ∷ ws)) (w ∷ ws) in
    get_elem? candidates (next % length candidates)

pub record TaskOutcome (V : Type 0) : Type 0 where
  pub task_id : String
  pub attempt_id : String
  pub worker_id : String
  pub result : V

-- How `_run_task` ends.
pub data TaskEnd (V : Type 0) : Type 0 where
  returned : TaskOutcome V → TaskEnd V
  raised : DistributedSqlError → TaskEnd V
  stopped : TaskEnd V
  interrupted : TaskEnd V
  unconfirmed : TaskEnd V
  assertion_error : TaskEnd V

-- The variables of `_run_task`.
pub record Progress : Type 0 where
  pub task : Task
  pub attempts : Dict Attempt
  pub previous_workers : List String
  pub last_attempt : Option Attempt
  pub last_error : Option Exception

pub data Verdict (V : Type 0) : Type 0 where
  retry : Progress → Verdict V
  break : Progress → Verdict V
  finish : TaskEnd V → Progress → Verdict V

abbrev three_digits : ℕ → String
three_digits n =
    str_concat
      ((if ltb n 10 then "00" else if ltb n 100 then "0" else "") ∷ text_of_int (pos n) ∷ [])

-- The id of a Task's next attempt.
unfoldable pub next_attempt_id : Task → String
next_attempt_id task =
    str_concat (task.task_id ∷ "-attempt-" ∷ three_digits (length task.attempt_ids) ∷ [])

unfoldable pub failure_kind : Exception → String
failure_kind (domain e) = "domain"
failure_kind (Errors.other class message) =
    if str_eq class "WorkerLostError"
    then "network"
    else if str_eq class "TimeoutError"
    then "timeout"
    else "worker_execution"

abbrev pub is_worker_lost : Exception → Bool
is_worker_lost (domain e) = false
is_worker_lost (Errors.other class message) = str_eq class "WorkerLostError"

abbrev no_healthy_worker : Exception
no_healthy_worker = Errors.other "WorkerLostError" "No healthy Worker is available."

abbrev add_attempt : Attempt → Progress → Progress
add_attempt attempt p = record p {
  task = record p.task { attempt_ids = p.task.attempt_ids ++ attempt.attempt_id ∷ [] };
  attempts = insert attempt.attempt_id attempt p.attempts;
  last_attempt = some attempt;
}

-- The handler of `WorkerLostError` from `_choose_worker`.
unfoldable pub without_worker : ℕ → Progress → Progress
unfolding next_attempt_id
without_worker now p =
    let p' = record p { last_error = some no_healthy_worker } in
    elim p.last_attempt [
      | some attempt ↦ p'
      | none ↦
          add_attempt
            (record {
              attempt_id = next_attempt_id p.task;
              task_id = p.task.task_id;
              attempt_number = length p.task.attempt_ids;
              worker_id = none;
              state = Protocol.failed;
              started_at = some now;
              finished_at = some now;
              error = some (described "WorkerLostError" "No healthy Worker is available.");
            })
            p'
    ]

abbrev task_error_context : Task → String → String → Exception → Dict ContextValue
task_error_context task attempt_id worker_id exc =
    ("query_id", text task.query_id)
    ∷ ("stage_id", text task.stage_id)
    ∷ ("task_id", text task.task_id)
    ∷ ("attempt_id", text attempt_id)
    ∷ ("worker_id", text worker_id)
    ∷ ("failure_kind", text (failure_kind exc))
    ∷ []

abbrev final_context : Task → Attempt → Exception → Dict ContextValue
final_context task last exc =
    ("query_id", text task.query_id)
    ∷ ("stage_id", text task.stage_id)
    ∷ ("task_id", text task.task_id)
    ∷ ("attempt_id", text last.attempt_id)
    ∷ ("worker_id", elim last.worker_id [ none ↦ nothing | some w ↦ text w ])
    ∷ ("attempt_count", number (pos (length task.attempt_ids)))
    ∷ ("failure_kind", text (failure_kind exc))
    ∷ []

abbrev status_of : Exception → ℕ
status_of (domain e) = e.status_code
status_of (Errors.other class message) = 500

-- The state of an attempt that neither ended nor failed: `_mark_attempt_started` may have been called.
abbrev pub unfinished : Option ℕ → AttemptState
unfinished none = Protocol.created
unfinished (some started_at) = Protocol.running

abbrev pub in_state : Protocol.TaskState → Progress → Progress
in_state state p = record p { task = record p.task { state = state } }

module _ {V : Type 0} where
  -- The attempt that a Worker is given, in the state that it ends in.
  unfoldable pub attempt_on :
      String → Moment V → Progress → AttemptState → Option Protocol.ErrorValue → Attempt
  unfolding next_attempt_id
  attempt_on worker m p state error = record {
    attempt_id = next_attempt_id p.task;
    task_id = p.task.task_id;
    attempt_number = length p.task.attempt_ids;
    worker_id = some worker;
    state = state;
    started_at = m.started_at;
    finished_at = some m.finished_at;
    error = error;
  }

  unfoldable pub after_attempt :
      String → Moment V → Progress → AttemptState → Option Protocol.ErrorValue → Progress
  unfolding attempt_on
  after_attempt worker m p state error =
      add_attempt (attempt_on worker m p state error)
        (record p { previous_workers = worker ∷ p.previous_workers })

  -- `except Exception`: the attempt is lost or failed, and the Task goes on after a backoff if
  -- attempts are left. A cancellation in the backoff leaves the Task running, and so does an
  -- interruption there or while the Worker discards the attempt, which then stays as it was.
  unfoldable pub after_failure : Bool → String → Moment V → Progress → Exception → Verdict V
  unfolding after_attempt failure_kind
  after_failure may_retry worker m p exc =
      let p' =
        after_attempt worker m (record p { last_error = some exc })
          (if is_worker_lost exc then Protocol.lost else Protocol.failed)
          (some (
            detail (
              public_task_error exc
                (task_error_context p.task (next_attempt_id p.task) worker exc)))) in
      if m.interrupted_in_discard
      then finish interrupted (
          after_attempt worker m (record p { last_error = some exc }) (unfinished m.started_at)
            none)
      else if not may_retry
      then break p'
      else if m.interrupted_in_backoff
      then finish interrupted p'
      else if m.cancelled_in_backoff
      then finish stopped p'
      else retry p'

  unfoldable pub after_ending : Bool → String → Moment V → Progress → Ending V → Verdict V
  unfolding after_attempt after_failure
  after_ending may_retry worker m p (value v) =
      if m.cancelled_after
      then finish stopped
          (in_state Protocol.canceled (after_attempt worker m p Protocol.canceled none))
      else finish
          (returned (record {
            task_id = p.task.task_id;
            attempt_id = next_attempt_id p.task;
            worker_id = worker;
            result = v;
          }))
          (in_state Protocol.succeeded (after_attempt worker m p Protocol.succeeded none))
  after_ending may_retry worker m p execution_cancelled =
      finish stopped (in_state Protocol.canceled (after_attempt worker m p Protocol.canceled none))
  after_ending may_retry worker m p task_cancelled =
      finish interrupted
        (in_state Protocol.canceled (after_attempt worker m p Protocol.canceled none))
  after_ending may_retry worker m p confirmation_failed =
      finish unconfirmed (in_state Protocol.failed (after_attempt worker m p Protocol.failed none))
  after_ending may_retry worker m p (failed exc) = after_failure may_retry worker m p exc

  -- The body of the loop of `_run_task`.
  unfoldable pub one_attempt : List String → Bool → Moment V → Progress → Verdict V
  unfolding choose_worker healthy_workers after_ending without_worker
  one_attempt workers may_retry m p =
      if m.cancelled_before
      then finish stopped p
      else if m.interrupted_in_choice
      then finish interrupted p
      else (elim (choose_worker (healthy_workers workers m) p.previous_workers m.next_worker) [
        | none ↦ break (without_worker m.finished_at p)
        | some worker ↦ after_ending may_retry worker m p m.ending
      ])

  -- What follows the loop.
  unfoldable pub give_up : Progress → TaskEnd V × Progress
  give_up p = elim p.last_attempt [
    | none ↦ (assertion_error, p)
    | some attempt ↦ elim p.last_error [
      | none ↦ (assertion_error, p)
      | some exc ↦
          let detail = public_task_error exc (final_context p.task attempt exc) in
          (
            raised (record {
              code = detail.code;
              message = detail.message;
              status_code = status_of exc;
              context = detail.context;
            }),
            in_state Protocol.failed p,
          )
    ]
  ]

  -- `for attempt_number in range(max_attempts)`, with so many attempts left.
  unfoldable pub attempt_loop :
      List String → (ℕ → Moment V) → ℕ → ℕ → Progress → TaskEnd V × Progress
  unfolding one_attempt give_up
  attempt_loop workers at attempt_number zero p = give_up p
  attempt_loop workers at attempt_number (suc left) p =
      elim (one_attempt workers (not (left == 0)) (at attempt_number) p) [
        | retry p' ↦ attempt_loop workers at (suc attempt_number) left p'
        | break p' ↦ give_up p'
        | finish end p' ↦ (end, p')
      ]

  unfoldable pub run_task :
      List String → ℕ → (ℕ → Moment V) → Task → Dict Attempt → TaskEnd V × Progress
  unfolding attempt_loop
  run_task workers max_attempts at task attempts = attempt_loop workers at 0 max_attempts (record {
    task = record task { state = Protocol.running };
    attempts = attempts;
    previous_workers = [];
    last_attempt = none;
    last_error = none;
  })
