-- ===== src/Coordinator/Queries/Final.antt =====
-- What can still become of a query whose `_run` is done.
use distributed_sql.Prelude.{ℕ, ◌≡◌, ◌≢◌, refl, sym, ap, ◌∙◌, subst, true, inl, inr, ◌⊎◌}
use distributed_sql.Common.Protocol.{queued, succeeded, failed}
use distributed_sql.Coordinator.Queries.{QueryRecord, Phase, done, cancel_timeout}
use distributed_sql.Coordinator.Queries.Life.{
  Step, starts, lists, plans, executes, requests, times_out, Reach, next, IsDone, IsSound,
  Reach-IsSound, done-request,
}

module _ {Plan Row Diagnostics Advice : Type 0} where
  pub data Later (s : Phase × QueryRecord Plan Row Diagnostics Advice)
      : Phase × QueryRecord Plan Row Diagnostics Advice → Type 0 where
    at_once : Later s s
    after :
        {t u : Phase × QueryRecord Plan Row Diagnostics Advice} → Later s t → Step t u → Later s u

  Later-Reach :
      {first : QueryRecord Plan Row Diagnostics Advice}
      {s t : Phase × QueryRecord Plan Row Diagnostics Advice}
      → Reach first s
      → Later s t
      → Reach first t
  Later-Reach r at_once = r
  Later-Reach r (after l st) = next (Later-Reach r l) st

  -- What can become of a query that is done: it stays as it is, or, where a request to cancel it had
  -- come and it did not succeed, a timeout makes it FAILED and leaves its result alone.
  abbrev pub Fate :
      QueryRecord Plan Row Diagnostics Advice → QueryRecord Plan Row Diagnostics Advice → Type 0
  Fate r r' =
      (r' ≡ r)
      ⊎ ((r.cancel_requested ≡ true)
          × (r.query.state ≢ succeeded)
          × (r'.query.state ≡ failed)
          × (r'.rows ≡ r.rows))

  timeout-Fate :
      (now : ℕ) (r r' : QueryRecord Plan Row Diagnostics Advice)
      → IsDone r
      → r'.cancel_requested ≡ true
      → Fate r r'
      → Fate r (cancel_timeout now r')
  unfolding cancel_timeout
  timeout-Fate now r r' d asked (inl same) =
      let asked' : r.cancel_requested ≡ true = sym (ap (λ x. x.cancel_requested) same) ∙ asked in
      inr (
        asked',
        (λ e. let unasked = d.not_canceled e in cc),
        refl,
        ap (λ (x : QueryRecord Plan Row Diagnostics Advice). x.rows) same,
      )
  timeout-Fate now r r' d asked (inr (before, apart, over, rows)) = inr (before, apart, refl, rows)

  Step-Fate :
      (r : QueryRecord Plan Row Diagnostics Advice)
      {t u : Phase × QueryRecord Plan Row Diagnostics Advice}
      → IsDone r
      → Step t u
      → IsSound t
      → (t.0 ≡ done) × Fate r t.1
      → (u.0 ≡ done) × Fate r u.1
  Step-Fate r d (starts now r') h (e, fate) = absurd (cc)
  Step-Fate r d (lists now r' answer) h (e, fate) = absurd (cc)
  Step-Fate r d (plans now r' answer) h (e, fate) = absurd (cc)
  Step-Fate r d (executes now r' answer) h (e, fate) = absurd (cc)
  Step-Fate r d (requests phase r') h (e, fate) =
      (e, subst (Fate r) (sym (done-request r' (subst (λ k. IsSound (k, r')) e h))) fate)
  Step-Fate r d (times_out now phase r' started asked) h (e, fate) =
      (e, timeout-Fate now r r' d asked fate)

  -- Once a query is done, it stays done. Over any number of later requests and timeouts its record
  -- does not change, unless a request to cancel it had come and it had not succeeded: then a timeout
  -- that is noticed late may make it FAILED, and its rows stay as they were.
  pub done_is_final :
      {first r : QueryRecord Plan Row Diagnostics Advice}
      {t : Phase × QueryRecord Plan Row Diagnostics Advice}
      → first.query.state ≡ queued
      → Reach first (done, r)
      → Later (done, r) t
      → (t.0 ≡ done) × Fate r t.1
  done_is_final h reached at_once = (refl, inl refl)
  done_is_final {r = r} h reached (after later st) =
      Step-Fate r (Reach-IsSound h reached) st (Reach-IsSound h (Later-Reach reached later))
        (done_is_final h reached later)
