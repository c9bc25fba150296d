-- ===== src/Scheduler/Retries.antt =====
-- A Task that fails is tried again, and a later attempt can succeed.
use distributed_sql.Prelude.{
  ℕ, zero, suc, ◌+◌, ◌<◌, ◌≡◌, ◌≢◌, refl, sym, ap, ◌∙◌, subst, String, Bool, true, false, not, ◌==◌,
  none, List, [], ◌∷◌, ◌++◌, length, length-append, Dict, arith,
}
use distributed_sql.Common.Errors.{Exception}
use distributed_sql.Common.Protocol
use distributed_sql.Common.Protocol.{Task, Attempt}
use distributed_sql.Scheduler.{
  Moment, value, failed, healthy_workers, TaskOutcome, TaskEnd, returned, Progress, Verdict, retry,
  finish, next_attempt_id, after_attempt, after_failure, one_attempt, attempt_loop, run_task,
  in_state, break,
}
use distributed_sql.Scheduler.Choice.{choose_worker-ok}
use distributed_sql.Scheduler.Attempts.{continue_with, loop_step}

one_longer : (xs : List String) (x : String) → length (xs ++ x ∷ []) ≡ length xs + 1
one_longer xs x = omega (arith, length-append xs (x ∷ []))

more_left : (k left : ℕ) → suc k < suc left → not (left == 0) ≡ true
more_left k left h = ground arith

abbrev progress_of : {V : Type 0} → Progress → Verdict V → Progress
progress_of p (retry p') = p'
progress_of p (break p') = p
progress_of p (finish end p') = p

module _ {V : Type 0} (workers : List String) where
  -- A Worker is healthy, the attempt raises an ordinary exception, and no one cancels.
  pub record IsFailure (m : Moment V) : Type 0 where
    pub not_before : m.cancelled_before ≡ false
    pub not_in_choice : m.interrupted_in_choice ≡ false
    pub healthy : healthy_workers workers m ≢ []
    pub error : Exception
    pub fails : m.ending ≡ failed error
    pub not_in_discard : m.interrupted_in_discard ≡ false
    pub not_in_sleep : m.interrupted_in_backoff ≡ false
    pub not_in_backoff : m.cancelled_in_backoff ≡ false

  pub record IsSuccess (v : V) (m : Moment V) : Type 0 where
    pub not_before : m.cancelled_before ≡ false
    pub not_in_choice : m.interrupted_in_choice ≡ false
    pub healthy : healthy_workers workers m ≢ []
    pub succeeds : m.ending ≡ value v
    pub not_after : m.cancelled_after ≡ false

  -- From attempt `n` on, so many attempts fail and then one succeeds with `v`.
  pub data WinsAfter (at : ℕ → Moment V) (v : V) : ℕ → ℕ → Type 0 where
    now : {n : ℕ} → IsSuccess v (at n) → WinsAfter at v n 0
    later : {n k : ℕ} → IsFailure (at n) → WinsAfter at v (suc n) k → WinsAfter at v n (suc k)

  abbrev Wins : V → ℕ → Progress → TaskEnd V × Progress → Type 0
  Wins v more p (end, p') =
      ((o : TaskOutcome V) × (end ≡ returned o) × (o.result ≡ v))
      × (length p'.task.attempt_ids ≡ length p.task.attempt_ids + more)

  succeeds-once :
      (may_retry : Bool) (m : Moment V) (v : V) (p : Progress)
      → IsSuccess v m
      → (o : TaskOutcome V) × (p' : Progress) × (one_attempt workers may_retry m p
          ≡ finish (returned o) p')
        × (o.result ≡ v)
        × (length p'.task.attempt_ids ≡ length p.task.attempt_ids + 1)
  unfolding one_attempt
  succeeds-once may_retry m v p h =
      let (w, chosen) =
        choose_worker-ok (healthy_workers workers m) p.previous_workers m.next_worker h.healthy in
      (
        record {
          task_id = p.task.task_id;
          attempt_id = next_attempt_id p.task;
          worker_id = w;
          result = v;
        },
        in_state Protocol.succeeded (after_attempt w m p Protocol.succeeded none),
        rw (h.not_before, h.not_in_choice, chosen, h.succeeds, h.not_after) refl,
        refl,
        one_longer p.task.attempt_ids (next_attempt_id p.task),
      )

  abbrev undisturbed : Moment V → Moment V
  undisturbed m = record m {
    cancelled_in_backoff = false;
    interrupted_in_discard = false;
    interrupted_in_backoff = false;
  }

  unfoldable failed_progress : String → Moment V → Progress → Exception → Progress
  failed_progress w m p exc = progress_of p (after_failure true w (undisturbed m) p exc)

  fails-once :
      (m : Moment V) (p : Progress)
      → IsFailure m
      → (p' : Progress) × (one_attempt workers true m p ≡ retry p')
        × (length p'.task.attempt_ids ≡ length p.task.attempt_ids + 1)
  unfolding one_attempt failed_progress
  fails-once m p h =
      let (w, chosen) =
        choose_worker-ok (healthy_workers workers m) p.previous_workers m.next_worker h.healthy in
      (
        failed_progress w m p h.error,
        rw
            (
              h.not_before, h.not_in_choice, chosen, h.fails, h.not_in_discard, h.not_in_sleep,
              h.not_in_backoff,
            )
            refl,
        one_longer p.task.attempt_ids (next_attempt_id p.task),
      )

  step-Wins :
      (at : ℕ → Moment V) (v : V) (n k left : ℕ) (p p' : Progress)
      → one_attempt workers (not (left == 0)) (at n) p ≡ retry p'
      → length p'.task.attempt_ids ≡ length p.task.attempt_ids + 1
      → Wins v (suc k) p' (attempt_loop workers at (suc n) left p')
      → Wins v (suc (suc k)) p (attempt_loop workers at n (suc left) p)
  unfolding continue_with
  step-Wins at v n k left p p' retried longer (won, count) =
      subst (Wins v (suc (suc k)) p)
        (sym (loop_step workers at n left p ∙ ap (continue_with workers at n left) retried))
        (won, omega arith)

  loop-Wins :
      (at : ℕ → Moment V) (v : V) (n k left : ℕ) (p : Progress)
      → k < left
      → WinsAfter at v n k
      → Wins v (suc k) p (attempt_loop workers at n left p)
  loop-Wins at v n k zero p few wins = absurd (omega arith)
  loop-Wins at v n zero (suc left) p few (now h) =
      let (o, p', e, won, longer) = succeeds-once (not (left == 0)) (at n) v p h in
      subst (Wins v 1 p)
        (sym (loop_step workers at n left p ∙ ap (continue_with workers at n left) e))
        (unfold continue_with in ((o, refl, won), longer))
  loop-Wins at v n (suc k) (suc left) p few (later h rest) =
      let (p', e, longer) = fails-once (at n) p h in
      let retried : one_attempt workers (not (left == 0)) (at n) p ≡ retry p' =
        ap (λ b. one_attempt workers b (at n) p) (more_left k left few) ∙ e in
      step-Wins at v n k left p p' retried longer
        (loop-Wins at v (suc n) k left p' (omega arith) rest)

  -- Where fewer attempts fail than the policy allows, and then one succeeds, with a healthy Worker
  -- for each and no cancellation, the Task returns the value of that one, after exactly so many
  -- attempts.
  pub run_task-Wins :
      (at : ℕ → Moment V) (v : V) (k max_attempts : ℕ) (task : Task) (attempts : Dict Attempt)
      → k < max_attempts
      → WinsAfter at v 0 k
      → ((o : TaskOutcome V) × ((run_task workers max_attempts at task attempts).0 ≡ returned o)
          × (o.result ≡ v))
        × (length (run_task workers max_attempts at task attempts).1.task.attempt_ids
            ≡ length task.attempt_ids + suc k)
  unfolding run_task
  run_task-Wins at v k max_attempts task attempts few wins =
      loop-Wins at v 0 k max_attempts _ few wins
