-- ===== src/WorkerTasks/Tests.antt =====
-- An attempt that is submitted twice, and one that ends with a value.
use distributed_sql.Prelude.{ℕ, ◌==◌, ◌≡◌, refl, Bool, false, [], Dict, ok, ◌↔◌}
use distributed_sql.Common.Protocol.{succeeded}
use distributed_sql.WorkerTasks.{
  Submission, TaskRecord, Outcome, value, submit, conclude, new_record,
}
use distributed_sql.WorkerTasks.Submissions.{submit_again, conclude-succeeded_iff}

abbrev submission : Submission ℕ
submission = record { query_id = "q"; stage_id = "s"; task_id = "t"; attempt_id = "a"; content = 3 }

abbrev same : Submission ℕ → Submission ℕ → Bool
same a b = a.content == b.content

abbrev none_yet : Dict (TaskRecord ℕ ℕ)
none_yet = []

abbrev first : TaskRecord ℕ ℕ
first = new_record submission

accepted : (submit same submission none_yet).0 ≡ ok first.status
unfolding submit
accepted = refl

submit_again_example :
    (submit same submission (submit same submission none_yet).1)
    ≡ (ok first.status, (submit same submission none_yet).1)
submit_again_example = submit_again same submission none_yet refl accepted

conclude-succeeded_iff_example :
    ((conclude "w" (value 5) first).status.state ≡ succeeded)
    ↔ (((v : ℕ) × (◌≡◌ {A = Outcome ℕ ℕ} (value 5) (value v))) × (first.cancelled ≡ false))
conclude-succeeded_iff_example = conclude-succeeded_iff "w" (value 5) first
