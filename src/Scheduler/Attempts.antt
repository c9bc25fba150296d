-- ===== src/Scheduler/Attempts.antt =====
-- How the attempts of a Task end.
use distributed_sql.Prelude.{
  ℕ, suc, ◌+◌, ◌≤◌, ◌≡◌, refl, String, Bool, true, not, ◌==◌, none, some, List, length, lookup, ◌⊎◌,
}
use distributed_sql.Common.Errors.{Exception}
use distributed_sql.Common.Protocol
use distributed_sql.Common.Protocol.{Attempt}
use distributed_sql.Scheduler.{
  Moment, failed, TaskEnd, returned, raised, stopped, interrupted, unconfirmed, assertion_error,
  Progress, Verdict, retry, break, finish, one_attempt, give_up, attempt_loop,
}

-- The attempt of the outcome, as the attempts list it.
pub record IsWon (worker_id : String) (attempt : Attempt) : Type 0 where
  pub won : attempt.state ≡ Protocol.succeeded
  pub on_worker : attempt.worker_id ≡ some worker_id
  pub without_error : attempt.error ≡ none

-- An attempt has been made, and its failure is known.
abbrev Tried : Progress → Type 0
Tried p = ((a : Attempt) × (p.last_attempt ≡ some a)) × ((e : Exception) × (p.last_error ≡ some e))

-- At most one attempt more.
abbrev OneMore : Progress → Progress → Type 0
OneMore p p' = length p'.task.attempt_ids ≤ suc (length p.task.attempt_ids)

abbrev Continues : Progress → Progress → Type 0
Continues p p' = (p'.task.state ≡ Protocol.running) × Tried p' × OneMore p p'

-- The state of the last attempt.
abbrev pub LastIs : Protocol.AttemptState → Progress → Type 0
LastIs state p = (a : Attempt) × (p.last_attempt ≡ some a) × (a.state ≡ state)

module _ {V : Type 0} where
  -- The state of the Task at each end of `_run_task`; the last `assert`s never fail. A cancellation
  -- that is met outside the execution of an attempt leaves the Task running.
  abbrev pub EndsWell : TaskEnd V → Progress → Type 0
  EndsWell (returned o) p =
      (p.task.state ≡ Protocol.succeeded)
      × ((a : Attempt) × (lookup o.attempt_id p.attempts ≡ some a) × IsWon o.worker_id a)
  EndsWell (raised e) p = p.task.state ≡ Protocol.failed
  EndsWell stopped p =
      (p.task.state ≡ Protocol.running)
      ⊎ ((p.task.state ≡ Protocol.canceled) × LastIs Protocol.AttemptState.canceled p)
  EndsWell interrupted p =
      (p.task.state ≡ Protocol.running)
      ⊎ ((p.task.state ≡ Protocol.canceled) × LastIs Protocol.AttemptState.canceled p)
  EndsWell unconfirmed p = (p.task.state ≡ Protocol.failed) × LastIs Protocol.AttemptState.failed p
  EndsWell assertion_error p = ⊥

  abbrev VerdictHolds : Bool → Progress → Verdict V → Type 0
  VerdictHolds may_retry p (retry p') = Continues p p' × (may_retry ≡ true)
  VerdictHolds may_retry p (break p') = Continues p p'
  VerdictHolds may_retry p (finish end p') = EndsWell end p' × OneMore p p'

module _ {V : Type 0} where
  abbrev EndsWithin : Progress → ℕ → TaskEnd V × Progress → Type 0
  EndsWithin p left (end, p') =
      EndsWell end p' × (length p'.task.attempt_ids ≤ length p.task.attempt_ids + left)

  unfoldable pub continue_with :
      List String → (ℕ → Moment V) → ℕ → ℕ → Verdict V → TaskEnd V × Progress
  continue_with workers at n left (retry p') = attempt_loop workers at (suc n) left p'
  continue_with workers at n left (break p') = give_up p'
  continue_with workers at n left (finish end p') = (end, p')

  pub loop_step :
      (workers : List String) (at : ℕ → Moment V) (n left : ℕ) (p : Progress)
      → attempt_loop workers at n (suc left) p
        ≡ continue_with workers at n left (one_attempt workers (not (left == 0)) (at n) p)
  unfolding attempt_loop continue_with
  loop_step workers at n left p =
      elim (one_attempt workers (not (left == 0)) (at n) p)
        as (λ v.
          (elim v [
            | retry p' ↦ attempt_loop workers at (suc n) left p'
            | break p' ↦ give_up p'
            | finish end p' ↦ (end, p')
          ])
          ≡ continue_with workers at n left v) [
            | retry p' ↦ refl
            | break p' ↦ refl
            | finish end p' ↦ refl
          ]
