-- ===== src/Coordinator/Queries/Life.antt =====
-- Every interleaving of a query's `_run` with requests to cancel it and their timeouts.
use distributed_sql.Prelude.{
  ℕ, ◌==◌, ◌≡◌, ◌≢◌, refl, sym, ◌∙◌, subst, Bool, true, false, some, List, Result, ok, err,
  Bool-cases, if◌then◌else◌, arith, inl, inr, ◌⊎◌,
}
use distributed_sql.Common.Protocol.{QueryState, queued, planning, running, succeeded, failed}
use distributed_sql.Coordinator.Queries.{
  QueryRecord, Execution, Failure, cancelled, confirmation, domain, other, Phase, waiting, listing,
  making, executing, done, handle, start, after_listing, after_planning, after_execution,
  request_cancel, cancel_timeout, is_terminal, is_failed, no_active_worker,
}

module _ {Plan Row Diagnostics Advice : Type 0} where
  -- A timeout follows a request, and comes once `_run` has started; `_run` may be done by then.
  pub data Step
      : Phase × QueryRecord Plan Row Diagnostics Advice
        → Phase × QueryRecord Plan Row Diagnostics Advice
        → Type 0 where
    starts :
        (now : ℕ) (r : QueryRecord Plan Row Diagnostics Advice) → Step (waiting, r) (start now r)
    lists :
        (now : ℕ) (r : QueryRecord Plan Row Diagnostics Advice) (answer : Result Failure ℕ)
        → Step (listing, r) (after_listing now answer r)
    plans :
        (now : ℕ) (r : QueryRecord Plan Row Diagnostics Advice) (answer : Result Failure Plan)
        → Step (making, r) (after_planning now answer r)
    executes :
        (now : ℕ) (r : QueryRecord Plan Row Diagnostics Advice)
        (answer : Result Failure (Execution Plan Row Diagnostics Advice))
        → Step (executing, r) (after_execution now answer r)
    requests :
        (phase : Phase) (r : QueryRecord Plan Row Diagnostics Advice)
        → Step (phase, r) (phase, request_cancel r)
    times_out :
        (now : ℕ) (phase : Phase) (r : QueryRecord Plan Row Diagnostics Advice)
        → phase ≢ waiting
        → r.cancel_requested ≡ true
        → Step (phase, r) (phase, cancel_timeout now r)

  pub data Reach (first : QueryRecord Plan Row Diagnostics Advice)
      : Phase × QueryRecord Plan Row Diagnostics Advice → Type 0 where
    here : Reach first (waiting, first)
    next :
        {s t : Phase × QueryRecord Plan Row Diagnostics Advice}
        → Reach first s
        → Step s t
        → Reach first t

  -- The state that a phase shows, unless a cancellation has timed out.
  abbrev pub Shows : QueryState → QueryRecord Plan Row Diagnostics Advice → Type 0
  Shows state r = (r.query.state ≡ state) ⊎ ((r.query.state ≡ failed) × (r.cancel_requested ≡ true))

  -- A query that is done is in a final state and has no executor; one that succeeded has its rows
  -- and their report, and no request to cancel it had come.
  pub record IsDone (r : QueryRecord Plan Row Diagnostics Advice) : Type 0 where
    pub final : is_terminal r.query.state ≡ true
    pub released : r.has_executor ≡ false
    pub has_rows :
        r.query.state ≡ succeeded
        → ((rows : List Row) × (r.rows ≡ some rows))
          × ((d : Diagnostics) × (r.diagnostics ≡ some d))
    pub not_canceled : r.query.state ≡ succeeded → r.cancel_requested ≡ false

  abbrev pub IsSound : Phase × QueryRecord Plan Row Diagnostics Advice → Type 0
  IsSound (waiting, r) = r.query.state ≡ queued
  IsSound (listing, r) = Shows planning r
  IsSound (making, r) = Shows planning r
  IsSound (executing, r) = Shows running r
  IsSound (done, r) = IsDone r

  unsuccessful :
      (r : QueryRecord Plan Row Diagnostics Advice)
      → is_terminal r.query.state ≡ true
      → r.query.state ≢ succeeded
      → r.has_executor ≡ false
      → IsDone r
  unsuccessful r final apart released = record {
    final = final;
    released = released;
    has_rows = λ e. absurd (apart e);
    not_canceled = λ e. absurd (apart e);
  }

  handle-IsDone :
      (now : ℕ) (failure : Failure) (r : QueryRecord Plan Row Diagnostics Advice)
      → (r.query.state ≢ succeeded)
      → IsDone (handle now failure r)
  unfolding handle
  handle-IsDone now cancelled r live = elim (Bool-cases (is_failed r.query.state)) [
    | inl over ↦ rw over (unsuccessful _ (ground arith) live refl)
    | inr open_still ↦ rw open_still (unsuccessful _ refl (λ e. cc) refl)
  ]
  handle-IsDone now confirmation r live = unsuccessful _ refl (λ e. cc) refl
  handle-IsDone now (domain e) r live = elim (Bool-cases r.cancel_requested) [
    | inl asked ↦ rw asked (unsuccessful _ refl (λ e. cc) refl)
    | inr unasked ↦ rw unasked (unsuccessful _ refl (λ e. cc) refl)
  ]
  handle-IsDone now (other class) r live = elim (Bool-cases r.cancel_requested) [
    | inl asked ↦ rw asked (unsuccessful _ refl (λ e. cc) refl)
    | inr unasked ↦ rw unasked (unsuccessful _ refl (λ e. cc) refl)
  ]

  live :
      (state : QueryState) (r : QueryRecord Plan Row Diagnostics Advice)
      → state ≢ succeeded
      → Shows state r
      → r.query.state ≢ succeeded
  live state r apart (inl e) = λ q. apart (sym e ∙ q)
  live state r apart (inr (e, asked)) = λ q. cc

  either-IsSound :
      (b : Bool) (x y : Phase × QueryRecord Plan Row Diagnostics Advice)
      → (b ≡ true → IsSound x)
      → (b ≡ false → IsSound y)
      → IsSound (if b then x else y)
  either-IsSound true x y on_true on_false = on_true refl
  either-IsSound false x y on_true on_false = on_false refl

  listing-IsSound :
      (now : ℕ) (r : QueryRecord Plan Row Diagnostics Advice) (answer : Result Failure ℕ)
      → Shows planning r
      → IsSound (after_listing now answer r)
  unfolding after_listing
  listing-IsSound now r (err failure) h = handle-IsDone now failure r (live planning r (λ e. cc) h)
  listing-IsSound now r (ok active) h = elim (Bool-cases (active == 0)) [
    | inl nobody ↦
        rw nobody (handle-IsDone now (domain no_active_worker) r (live planning r (λ e. cc) h))
    | inr some_worker ↦ rw some_worker h
  ]

  planning-IsSound :
      (now : ℕ) (r : QueryRecord Plan Row Diagnostics Advice) (answer : Result Failure Plan)
      → Shows planning r
      → IsSound (after_planning now answer r)
  unfolding after_planning
  planning-IsSound now r (err failure) h = handle-IsDone now failure r (live planning r (λ e. cc) h)
  planning-IsSound now r (ok plan) h =
      either-IsSound r.cancel_requested _ _
        (λ asked.
          handle-IsDone now cancelled (record r { plan = some plan }) (live planning r (λ e. cc) h))
        (λ unasked. inl refl)

  execution-IsSound :
      (now : ℕ) (r : QueryRecord Plan Row Diagnostics Advice)
      (answer : Result Failure (Execution Plan Row Diagnostics Advice))
      → Shows running r
      → IsSound (after_execution now answer r)
  unfolding after_execution
  execution-IsSound now r (err failure) h = handle-IsDone now failure r (live running r (λ e. cc) h)
  execution-IsSound now r (ok result) h =
      either-IsSound r.cancel_requested _ _
        (λ asked. handle-IsDone now cancelled r (live running r (λ e. cc) h))
        (λ unasked. record {
          final = refl;
          released = refl;
          has_rows = λ e. ((result.table, refl), (result.diagnostics, refl));
          not_canceled = λ e. unasked;
        })

  Shows-request :
      (state : QueryState) (r : QueryRecord Plan Row Diagnostics Advice)
      → Shows state r
      → Shows state (request_cancel r)
  unfolding request_cancel
  Shows-request state r h = elim (Bool-cases (is_terminal r.query.state)) [
    | inl over ↦ rw over h
    | inr live ↦ rw live (elim h [ inl e ↦ inl e | inr (e, asked) ↦ inr (e, refl) ])
  ]

  queued-request :
      (r : QueryRecord Plan Row Diagnostics Advice)
      → r.query.state ≡ queued
      → (request_cancel r).query.state ≡ queued
  unfolding request_cancel
  queued-request r h = elim (Bool-cases (is_terminal r.query.state)) [
    | inl over ↦ rw over h
    | inr live ↦ rw live h
  ]

  -- A request to cancel a query that is done changes nothing.
  pub done-request : (r : QueryRecord Plan Row Diagnostics Advice) → IsDone r → request_cancel r ≡ r
  unfolding request_cancel
  done-request r h = rw (h.final) refl

  request-IsSound :
      (phase : Phase) (r : QueryRecord Plan Row Diagnostics Advice)
      → IsSound (phase, r)
      → IsSound (phase, request_cancel r)
  request-IsSound waiting r h = queued-request r h
  request-IsSound listing r h = Shows-request planning r h
  request-IsSound making r h = Shows-request planning r h
  request-IsSound executing r h = Shows-request running r h
  request-IsSound done r h = subst IsDone (sym (done-request r h)) h

  timeout-IsDone :
      (now : ℕ) (r : QueryRecord Plan Row Diagnostics Advice)
      → IsDone r
      → IsDone (cancel_timeout now r)
  unfolding cancel_timeout
  timeout-IsDone now r h = unsuccessful _ refl (λ e. cc) h.released

  timeout-IsSound :
      (now : ℕ) (phase : Phase) (r : QueryRecord Plan Row Diagnostics Advice)
      → phase ≢ waiting
      → r.cancel_requested ≡ true
      → IsSound (phase, r)
      → IsSound (phase, cancel_timeout now r)
  unfolding cancel_timeout
  timeout-IsSound now waiting r started asked h = absurd (started refl)
  timeout-IsSound now listing r started asked h = inr (refl, asked)
  timeout-IsSound now making r started asked h = inr (refl, asked)
  timeout-IsSound now executing r started asked h = inr (refl, asked)
  timeout-IsSound now done r started asked h = timeout-IsDone now r h

  Step-IsSound :
      {s t : Phase × QueryRecord Plan Row Diagnostics Advice} → Step s t → IsSound s → IsSound t
  unfolding start
  Step-IsSound (starts now r) h = inl refl
  Step-IsSound (lists now r answer) h = listing-IsSound now r answer h
  Step-IsSound (plans now r answer) h = planning-IsSound now r answer h
  Step-IsSound (executes now r answer) h = execution-IsSound now r answer h
  Step-IsSound (requests phase r) h = request-IsSound phase r h
  Step-IsSound (times_out now phase r started asked) h = timeout-IsSound now phase r started asked h

  pub Reach-IsSound :
      {first : QueryRecord Plan Row Diagnostics Advice}
      {s : Phase × QueryRecord Plan Row Diagnostics Advice}
      → first.query.state ≡ queued
      → Reach first s
      → IsSound s
  Reach-IsSound h here = h
  Reach-IsSound h (next r st) = Step-IsSound st (Reach-IsSound h r)
