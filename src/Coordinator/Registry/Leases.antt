-- ===== src/Coordinator/Registry/Leases.antt =====
-- What one heartbeat and one expiry do.
use distributed_sql.Prelude.{
  Option-cases, keep, values, map_values, Dict, inl, inr, ◌⊎◌, insert, ℕ, ◌≤◌, ◌<◌, String, ◌≡◌,
  ◌≢◌, ◌↔◌, refl, true, false, Option, none, some, [], ◌∷◌, lookup, lookup-map_values, eq_iff, ok,
  err, arith, leb, sym, subst, Bool-cases, ◌∙◌,
}
use distributed_sql.Common.Errors.{DistributedSqlError}
use distributed_sql.Common.Protocol.{Worker, WorkerHeartbeat, lost}
use distributed_sql.Coordinator.Registry.{
  Registry, heartbeat, heartbeat_of, renewed, same_lease, lease_is_over, expire_leases, expire,
  is_expired,
}

-- What a heartbeat has to meet to be accepted.
pub record IsAcceptable (now : ℕ) (beat : WorkerHeartbeat) (worker : Worker) : Type 0 where
  pub held : worker.lease_id ≡ some beat.lease_id
  pub expires : ℕ
  pub lasts : worker.lease_expires_at ≡ some expires
  pub in_time : now < expires
  pub fits : beat.available_slots ≤ worker.slots

same_lease_iff :
    (held : Option String) (lease : String) → (same_lease held lease ≡ true) ↔ (held ≡ some lease)
same_lease_iff none lease = (λ e. cc, λ e. cc)
same_lease_iff (some h) lease =
    ((λ e. ground (arith, eq_iff h lease)), (λ e. ground (arith, eq_iff h lease)))

-- A heartbeat of a registered Worker is accepted exactly when it names the lease that the Worker
-- holds, the lease has an end that lies ahead, and it claims no more slots than the Worker has.
pub heartbeat-ok_iff :
    (now : ℕ) (worker_id : String) (beat : WorkerHeartbeat) (worker : Worker) (r : Registry)
    → lookup worker_id r.workers ≡ some worker
    → ((w : Worker) × ((heartbeat now worker_id beat r).0 ≡ ok w)) ↔ IsAcceptable now beat worker
unfolding heartbeat
heartbeat-ok_iff now worker_id beat worker r found = (
  (λ (w, e). elim (Option-cases worker.lease_expires_at) [
    | inl endless ↦ absurd (ground arith)
    | inr (t, ends) ↦ record {
      held = (same_lease_iff worker.lease_id beat.lease_id).0 (ground arith);
      expires = t;
      lasts = ends;
      in_time = ground arith;
      fits = ground arith;
    }
  ]),
  (λ good.
      let held = (same_lease_iff worker.lease_id beat.lease_id).1 good.held in
      (renewed now r.lease_ttl beat worker, ground arith)),
)

-- The Worker holds the lease that a heartbeat names, and it has no end that lies ahead.
pub record IsOver (now : ℕ) (beat : WorkerHeartbeat) (worker : Worker) : Type 0 where
  pub held : worker.lease_id ≡ some beat.lease_id
  pub ended : (t : ℕ) → worker.lease_expires_at ≡ some t → t ≤ now

over_cases :
    (ends : Option ℕ) (now : ℕ)
    → ((lease_is_over ends now ≡ true) × ((t : ℕ) → ends ≡ some t → t ≤ now))
      ⊎ ((lease_is_over ends now ≡ false) × ((t : ℕ) × (ends ≡ some t) × (now < t)))
over_cases none now = inl (refl, λ t e. cc)
over_cases (some t) now = elim (Bool-cases (leb t now)) [
  | inl over ↦ inl (over, λ u e. ground arith)
  | inr ahead ↦ inr (ahead, (t, refl, ground arith))
]

same_worker : {a b : Worker} → ◌≡◌ {A = Option Worker} (some a) (some b) → a ≡ b
same_worker p = cc

abbrev marked_lost : String → Worker → Registry → Registry
marked_lost worker_id worker r = record r {
  workers = insert worker_id (record worker { state = lost }) r.workers;
}

heartbeat_of_refused :
    (now : ℕ) (worker_id : String) (beat : WorkerHeartbeat) (worker : Worker) (r : Registry)
    {e : DistributedSqlError}
    → (heartbeat_of now worker_id beat worker r).0 ≡ err e
    → (IsOver now beat worker
        × ((heartbeat_of now worker_id beat worker r).1 ≡ marked_lost worker_id worker r))
      ⊎ (((heartbeat_of now worker_id beat worker r).1 ≡ r) × ¬ IsOver now beat worker)
unfolding heartbeat_of
heartbeat_of_refused now worker_id beat worker r e =
    elim (Bool-cases (same_lease worker.lease_id beat.lease_id)) [
      | inr differs ↦ inr (
        ground arith,
        λ over. let same = (same_lease_iff worker.lease_id beat.lease_id).1 over.held in cc,
      )
      | inl held ↦ elim (over_cases worker.lease_expires_at now) [
        | inl (over, ended) ↦ inl (
          record { held = (same_lease_iff worker.lease_id beat.lease_id).0 held; ended = ended },
          ground arith,
        )
        | inr (ahead, (t, ends, later)) ↦
            inr (ground arith, λ over. let past = over.ended t ends in omega arith)
      ]
    ]

-- A refused heartbeat that names the lease which the registered Worker holds, where that lease has no
-- end that lies ahead, makes that Worker lost and changes nothing else. Every other refused heartbeat
-- changes nothing.
pub heartbeat_refused :
    (now : ℕ) (worker_id : String) (beat : WorkerHeartbeat) (r : Registry) {e : DistributedSqlError}
    → (heartbeat now worker_id beat r).0 ≡ err e
    → ((worker : Worker) × (lookup worker_id r.workers ≡ some worker)
        × IsOver now beat worker
        × ((heartbeat now worker_id beat r).1
            ≡ record r { workers = insert worker_id (record worker { state = lost }) r.workers }))
      ⊎ (((heartbeat now worker_id beat r).1 ≡ r)
          × ((worker : Worker)
              → lookup worker_id r.workers ≡ some worker
              → ¬ IsOver now beat worker))
unfolding heartbeat
heartbeat_refused now worker_id beat r e = elim (Option-cases (lookup worker_id r.workers)) [
  | inl absent ↦ inr (rw (absent, heartbeat), λ worker found. cc)
  | inr (worker, found) ↦
      elim (heartbeat_of_refused now worker_id beat worker r (rw (found, heartbeat) at e)) [
        | inl (over, change) ↦ inl (worker, found, over, rw (found, heartbeat) change)
        | inr (same, not_over) ↦ inr (
          rw (found, heartbeat) same,
          λ x found'. subst (λ w. ¬ IsOver now beat w) (same_worker (sym found ∙ found')) not_over,
        )
      ]
]

expire_twice : (now : ℕ) (w : Worker) → is_expired now (expire now w) ≡ false
unfolding expire
expire_twice now w = ground arith

-- After an expiry a Worker that is not lost has a lease without an end, or one that ends later.
pub expire_leases_live :
    (now : ℕ) (k : String) (r : Registry) (w : Worker)
    → lookup k (expire_leases now r).1.workers ≡ some w
    → w.state ≢ lost
    → (w.lease_expires_at ≡ none) ⊎ ((t : ℕ) × (w.lease_expires_at ≡ some t) × (now < t))
unfolding expire_leases
expire_leases_live now k r w found alive = elim (Option-cases w.lease_expires_at) [
  | inl endless ↦ inl endless
  | inr (t, ends) ↦ inr (t, ends, ground (arith, lookup-map_values (expire now) k r.workers))
]

keep_expired :
    (now : ℕ) (m : Dict Worker) → keep (is_expired now) (values (map_values (expire now) m)) ≡ []
keep_expired now [] = refl
keep_expired now ((k, w) ∷ m) = rw (expire_twice now w) (keep_expired now m)

-- A second expiry at the same time finds nothing to expire.
pub expire_leases_again :
    (now : ℕ) (r : Registry) → (expire_leases now (expire_leases now r).1).0 ≡ []
unfolding expire_leases
expire_leases_again now r = rw (keep_expired now r.workers)
