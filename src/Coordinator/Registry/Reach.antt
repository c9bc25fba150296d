-- ===== src/Coordinator/Registry/Reach.antt =====
-- Every registry that the Coordinator can reach, from an empty one, as time passes and Workers
-- register, send heartbeats and are expired, in any order.
use distributed_sql.Prelude.{
  ℕ, ◌+◌, ◌≤◌, String, ◌≡◌, ◌≢◌, refl, sym, true, some, [], lookup, lookup-insert,
  lookup-map_values, eq_iff, err, arith, str_eq, Bool-cases, inl, inr, ◌⊎◌, insert, Option-cases,
  subst,
}
use distributed_sql.Common.Errors.{DistributedSqlError, lease_rejected}
use distributed_sql.Common.Protocol.{
  Worker, WorkerHeartbeat, WorkerRegistration, WorkerState, registering, lost, active, draining,
}
use distributed_sql.Coordinator.Registry.{
  Registry, register, new_worker, heartbeat, heartbeat_of, renewed, same_lease, lease_is_over,
  expire_leases, expire, is_expired, has_expired, not_valid,
}

pub record System : Type 0 where
  pub now : ℕ
  pub registry : Registry

-- `state_is_heartbeat_eligible`
pub data IsEligible : WorkerState → Type 0 where
  active_beat : IsEligible active
  draining_beat : IsEligible draining

pub data Step (s : System) : System → Type 0 where
  wait : (later : ℕ) → Step s (record s { now = later })
  registers :
      (lease : String) (registration : WorkerRegistration)
      → 1 ≤ registration.slots
      → Step s (record s { registry = (register s.now lease registration s.registry).1 })
  beats :
      (worker_id : String) (beat : WorkerHeartbeat)
      → IsEligible beat.state
      → Step s (record s { registry = (heartbeat s.now worker_id beat s.registry).1 })
  expiry : Step s (record s { registry = (expire_leases s.now s.registry).1 })

pub data Reach (s : System) : System → Type 0 where
  here : Reach s s
  next : {t u : System} → Reach s t → Step t u → Reach s u

-- The readings of `datetime.now(UTC)` on the way never go back.
unfoldable pub NeverBack : {s t : System} → Reach s t → Type 0
NeverBack here = Unit
NeverBack (next {t} r (wait later)) = NeverBack r × (t.now ≤ later)
NeverBack (next r (registers lease registration slots)) = NeverBack r × Unit
NeverBack (next r (beats worker_id beat eligible)) = NeverBack r × Unit
NeverBack (next r expiry) = NeverBack r × Unit

abbrev pub empty : ℕ → ℕ → System
empty now ttl = record { now = now; registry = record { lease_ttl = ttl; workers = [] } }

-- What holds of the Worker stored under `k` at a time.
pub record IsSound (now ttl : ℕ) (k : String) (w : Worker) : Type 0 where
  pub keyed : w.worker_id ≡ k
  pub has_slots : 1 ≤ w.slots
  pub slots_fit : w.available_slots ≤ w.slots
  pub known : w.state ≢ registering
  pub expires : ℕ
  pub ends : w.lease_expires_at ≡ some expires
  pub not_far : expires ≤ now + ttl
  pub lost_is_over : w.state ≡ lost → expires ≤ now

abbrev pub AllSound : System → Type 0
AllSound s =
    (k : String) (w : Worker)
    → lookup k s.registry.workers ≡ some w
    → IsSound s.now s.registry.lease_ttl k w

wait-IsSound :
    {now later ttl : ℕ} {k : String} {w : Worker}
    → now ≤ later
    → IsSound now ttl k w
    → IsSound later ttl k w
wait-IsSound le v = record {
  keyed = v.keyed;
  has_slots = v.has_slots;
  slots_fit = v.slots_fit;
  known = v.known;
  expires = v.expires;
  ends = v.ends;
  not_far = ground arith;
  lost_is_over = λ l. ground (arith, v.lost_is_over l);
}

new_worker-IsSound :
    (r : Registry) (now : ℕ) (lease : String) (reg : WorkerRegistration)
    → 1 ≤ reg.slots
    → IsSound now r.lease_ttl reg.worker_id (new_worker r now lease reg)
unfolding new_worker
new_worker-IsSound r now lease reg h = record {
  keyed = refl;
  has_slots = h;
  slots_fit = omega arith;
  known = λ e. cc;
  expires = now + r.lease_ttl;
  ends = refl;
  not_far = omega arith;
  lost_is_over = λ l. cc;
}

renewed-IsSound :
    (now ttl : ℕ) (k : String) (beat : WorkerHeartbeat) (w : Worker)
    → IsEligible beat.state
    → beat.available_slots ≤ w.slots
    → IsSound now ttl k w
    → IsSound now ttl k (renewed now ttl beat w)
unfolding renewed
renewed-IsSound now ttl k beat w el fits v = record {
  keyed = v.keyed;
  has_slots = v.has_slots;
  slots_fit = fits;
  known = not_registering beat.state el;
  expires = now + ttl;
  ends = refl;
  not_far = omega arith;
  lost_is_over = λ l. absurd (not_lost beat.state el l);
}
  where
    not_registering : (s : WorkerState) → IsEligible s → s ≢ registering
    not_registering _ active_beat e = cc
    not_registering _ draining_beat e = cc

    not_lost : (s : WorkerState) → IsEligible s → s ≢ lost
    not_lost _ active_beat e = cc
    not_lost _ draining_beat e = cc

lose-IsSound :
    (now ttl : ℕ) (k : String) (w : Worker)
    → lease_is_over w.lease_expires_at now ≡ true
    → IsSound now ttl k w
    → IsSound now ttl k (record w { state = lost })
lose-IsSound now ttl k w over v = record {
  keyed = v.keyed;
  has_slots = v.has_slots;
  slots_fit = v.slots_fit;
  known = λ e. cc;
  expires = v.expires;
  ends = v.ends;
  not_far = v.not_far;
  lost_is_over = λ l. ground (arith, v.ends);
}

expire-IsSound :
    (now ttl : ℕ) (k : String) (w : Worker) → IsSound now ttl k w → IsSound now ttl k (expire now w)
unfolding expire
expire-IsSound now ttl k w v = elim (Bool-cases (is_expired now w)) [
  | inl e ↦ rw e (record {
    keyed = v.keyed;
    has_slots = v.has_slots;
    slots_fit = omega arith;
    known = λ e. cc;
    expires = v.expires;
    ends = v.ends;
    not_far = v.not_far;
    lost_is_over = λ l. ground (arith, v.ends);
  })
  | inr e ↦ rw e v
]

insert-AllSound :
    (s : System) (k : String) (w : Worker)
    → IsSound s.now s.registry.lease_ttl k w
    → AllSound s
    → AllSound
        (record s { registry = record s.registry { workers = insert k w s.registry.workers } })
insert-AllSound s k w v all j x found = elim (Bool-cases (str_eq k j)) [
  | inl same ↦
      subst (λ i. IsSound s.now s.registry.lease_ttl i x) ((eq_iff k j).0 same)
        (subst (IsSound s.now s.registry.lease_ttl k)
          (ground (arith, lookup-insert k j w s.registry.workers)) v)
  | inr other ↦ all j x (ground (arith, lookup-insert k j w s.registry.workers))
]

heartbeat_of_cases :
    (now : ℕ) (k : String) (beat : WorkerHeartbeat) (w : Worker) (r : Registry)
    → ((heartbeat_of now k beat w r).1 ≡ r)
      ⊎ ((lease_is_over w.lease_expires_at now ≡ true)
          × ((heartbeat_of now k beat w r).1
              ≡ record r { workers = insert k (record w { state = lost }) r.workers }))
      ⊎ ((beat.available_slots ≤ w.slots)
          × ((heartbeat_of now k beat w r).1
              ≡ record r { workers = insert k (renewed now r.lease_ttl beat w) r.workers }))
unfolding heartbeat_of
heartbeat_of_cases now k beat w r = ground arith

abbrev at_registry : System → Registry → System
at_registry s r = record s { registry = r }

heartbeat-AllSound :
    (s : System) (k : String) (beat : WorkerHeartbeat)
    → IsEligible beat.state
    → AllSound s
    → AllSound (at_registry s (heartbeat s.now k beat s.registry).1)
unfolding heartbeat
heartbeat-AllSound s k beat el all = elim (Option-cases (lookup k s.registry.workers)) [
  | inl absent ↦ rw (absent, heartbeat) all
  | inr (w, found) ↦
      rw (found, heartbeat)
        (elim (heartbeat_of_cases s.now k beat w s.registry) [
          | inl same ↦ subst (λ r. AllSound (at_registry s r)) (sym same) all
          | inr (inl (over, change)) ↦
              subst (λ r. AllSound (at_registry s r)) (sym change)
                (insert-AllSound s k _
                  (lose-IsSound s.now s.registry.lease_ttl k w over (all k w found)) all)
          | inr (inr (fits, change)) ↦
              subst (λ r. AllSound (at_registry s r)) (sym change)
                (insert-AllSound s k _
                  (renewed-IsSound s.now s.registry.lease_ttl k beat w el fits (all k w found)) all)
        ])
]

expire-AllSound :
    (s : System) → AllSound s → AllSound (at_registry s (expire_leases s.now s.registry).1)
expire-AllSound s all k w found =
    unfold expire_leases in
    elim (Option-cases (lookup k s.registry.workers)) [
      | inl absent ↦ absurd (ground (arith, lookup-map_values (expire s.now) k s.registry.workers))
      | inr (x, there) ↦
          subst (IsSound s.now s.registry.lease_ttl k)
            (ground (arith, lookup-map_values (expire s.now) k s.registry.workers))
            (expire-IsSound s.now s.registry.lease_ttl k x (all k x there))
    ]

after_register-AllSound :
    (s : System) (lease : String) (registration : WorkerRegistration)
    → 1 ≤ registration.slots
    → AllSound s
    → AllSound (at_registry s (register s.now lease registration s.registry).1)
unfolding register
after_register-AllSound s lease registration slots all =
    insert-AllSound s registration.worker_id _
      (new_worker-IsSound s.registry s.now lease registration slots) all

-- While the clock never goes back: in every reachable registry each Worker stands under its own id,
-- has at least one slot, offers no more slots than it has, is past registration, and holds a lease
-- that ends at most one term ahead; and the lease of a lost Worker is over.
pub Reach-AllSound :
    {start ttl : ℕ} {s : System} (reached : Reach (empty start ttl) s)
    → NeverBack reached
    → AllSound s
unfolding NeverBack
Reach-AllSound here steady = λ k w found. cc
Reach-AllSound (next r (wait later)) (steady, le) =
    let all = Reach-AllSound r steady in λ k w found. wait-IsSound le (all k w found)
Reach-AllSound (next {t} r (registers lease registration slots)) (steady, _) =
    after_register-AllSound t lease registration slots (Reach-AllSound r steady)
Reach-AllSound (next {t} r (beats k beat el)) (steady, _) =
    heartbeat-AllSound t k beat el (Reach-AllSound r steady)
Reach-AllSound (next {t} r expiry) (steady, _) = expire-AllSound t (Reach-AllSound r steady)

refused :
    (now : ℕ) (k : String) (w : Worker) (beat : WorkerHeartbeat) (r : Registry) (expires : ℕ)
    → lookup k r.workers ≡ some w
    → w.lease_expires_at ≡ some expires
    → expires ≤ now
    → (e : DistributedSqlError) × ((heartbeat now k beat r).0 ≡ err e) × (e.code ≡ lease_rejected)
unfolding heartbeat
refused now k w beat r ends_at found ends over =
    elim (Bool-cases (same_lease w.lease_id beat.lease_id)) [
      | inl held ↦ (has_expired k, ground arith, refl)
      | inr other ↦ (not_valid k, ground arith, refl)
    ]

-- While the clock never goes back, a lost Worker does not come back by a heartbeat: in every
-- reachable registry, a heartbeat for a lost Worker is refused, whatever lease and state it names.
pub lost_stays_lost :
    {start ttl : ℕ} {s : System} (k : String) (w : Worker) (beat : WorkerHeartbeat)
    (reached : Reach (empty start ttl) s)
    → NeverBack reached
    → lookup k s.registry.workers ≡ some w
    → w.state ≡ lost
    → (e : DistributedSqlError) × ((heartbeat s.now k beat s.registry).0 ≡ err e)
      × (e.code ≡ lease_rejected)
lost_stays_lost {s = s} k w beat r steady found gone =
    let v = Reach-AllSound r steady k w found in
    refused s.now k w beat s.registry v.expires found v.ends (v.lost_is_over gone)
