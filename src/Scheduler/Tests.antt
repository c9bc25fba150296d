-- ===== src/Scheduler/Tests.antt =====
-- A Task that is lost on its first Worker and succeeds on its second.
use distributed_sql.Prelude.{
  ℕ, zero, suc, ◌≡◌, refl, String, true, false, none, some, List, [], ◌∷◌, length, Elem, str_elem,
  arith,
}
use distributed_sql.Common.Errors
use distributed_sql.Common.Protocol
use distributed_sql.Common.Protocol.{Task}
use distributed_sql.Scheduler.{
  Moment, value, failed, healthy_workers, choose_worker, TaskOutcome, returned, run_task,
}
use distributed_sql.Scheduler.Choice.{choose_worker-Elem}
use distributed_sql.Scheduler.Retries.{WinsAfter, now, later, run_task-Wins}

abbrev task : Task
task = record {
  task_id = "t";
  query_id = "q";
  stage_id = "s";
  partition = record { partition_id = "p"; ordinal = 0; location = ""; strategy = Protocol.single };
  state = Protocol.pending;
  attempt_ids = [];
}

abbrev lucky : Moment ℕ
lucky = record {
  cancelled_before = false;
  cancelled_after = false;
  cancelled_in_backoff = false;
  interrupted_in_choice = false;
  interrupted_in_discard = false;
  interrupted_in_backoff = false;
  registered = none;
  active = λ w. true;
  next_worker = 0;
  ending = value 7;
  started_at = some 1;
  finished_at = 2;
}

abbrev moments : ℕ → Moment ℕ
moments zero = record lucky { ending = failed (Errors.other "WorkerLostError" "gone") }
moments (suc n) = lucky

abbrev workers : List String
workers = "a" ∷ "b" ∷ []

second_wins : WinsAfter workers moments 7 0 1
unfolding healthy_workers
second_wins =
    later
      (record {
        not_before = refl;
        not_in_choice = refl;
        healthy = λ e. cc;
        error = Errors.other "WorkerLostError" "gone";
        fails = refl;
        not_in_discard = refl;
        not_in_sleep = refl;
        not_in_backoff = refl;
      })
      (now (record {
        not_before = refl;
        not_in_choice = refl;
        healthy = λ e. cc;
        succeeds = refl;
        not_after = refl;
      }))

run_task-Wins_example :
    ((o : TaskOutcome ℕ) × ((run_task workers 3 moments task []).0 ≡ returned o) × (o.result ≡ 7))
    × (length (run_task workers 3 moments task []).1.task.attempt_ids ≡ 2)
run_task-Wins_example = run_task-Wins workers moments 7 1 3 task [] (omega arith) second_wins

second_choice : choose_worker workers ("a" ∷ []) 4 ≡ some "b"
unfolding choose_worker
second_choice = refl

choose_worker-Elem_example :
    Elem "b" workers
    × ((other : String)
        → Elem other workers
        → str_elem other ("a" ∷ []) ≡ false
        → str_elem "b" ("a" ∷ []) ≡ false)
choose_worker-Elem_example = choose_worker-Elem workers ("a" ∷ []) 4 "b" second_choice
