-- ===== src/WorkerTasks/Submissions.antt =====
-- Submissions are idempotent, and what a finished attempt shows.
use distributed_sql.Prelude.{
  ◌≡◌, refl, String, Bool, true, false, Dict, lookup, lookup-insert_self, ok, Option-cases,
  Bool-cases, arith, inl, inr, ◌↔◌,
}
use distributed_sql.Common.Protocol.{succeeded}
use distributed_sql.WorkerTasks.{
  Submission, TaskStatus, TaskRecord, Outcome, value, task_cancelled, raised, submit, conclude,
  new_record,
}

module _ {C R : Type 0} (same : Submission C → Submission C → Bool) where
  -- Where a submission equals itself: once it is accepted, submitting it again answers with the
  -- status that the attempt shows then, and changes nothing.
  pub submit_again :
      (submission : Submission C) (records : Dict (TaskRecord C R)) {s : TaskStatus R}
      → same submission submission ≡ true
      → (submit same submission records).0 ≡ ok s
      → (submit same submission (submit same submission records).1)
        ≡ (ok s, (submit same submission records).1)
  unfolding submit
  submit_again submission records self accepted =
      elim (Option-cases (lookup submission.attempt_id records)) [
        | inl fresh ↦
            ground (arith, lookup-insert_self submission.attempt_id (new_record submission) records)
        | inr (existing, known) ↦ ground arith
      ]

module _ {C R : Type 0} where
  -- However the execution of an attempt ends, the attempt has succeeded afterwards exactly when the
  -- execution gave a value and no cancellation had been requested.
  pub conclude-succeeded_iff :
      (worker_id : String) (outcome : Outcome C R) (r : TaskRecord C R)
      → ((conclude worker_id outcome r).status.state ≡ succeeded)
        ↔ (((v : R) × (outcome ≡ value v)) × (r.cancelled ≡ false))
  unfolding conclude
  conclude-succeeded_iff worker_id (value v) r = elim (Bool-cases r.cancelled) [
    | inl asked ↦ (λ e. absurd (ground arith), λ (found, unasked). absurd (ground arith))
    | inr unasked ↦ (λ e. ((v, refl), unasked), λ h. ground arith)
  ]
  conclude-succeeded_iff worker_id task_cancelled r =
      (λ e. absurd (cc), λ ((v, found), unasked). absurd (cc))
  conclude-succeeded_iff worker_id (raised exc) r =
      (λ e. absurd (ground arith), λ ((v, found), unasked). absurd (cc))
