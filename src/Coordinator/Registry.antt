-- ===== src/Coordinator/Registry.antt =====
-- coordinator/registry.py: Worker membership with renewable leases. Each method holds the lock, so
-- it is one step; the clock's answer and the fresh lease id are arguments.
pub mod Leases
pub mod Reach
pub mod Tests
use distributed_sql.Prelude.{
  ℕ, ◌+◌, String, Bool, true, false, not, ◌&&◌, Option, none, some, List, [], ◌∷◌, Dict, lookup,
  insert, values, map_values, sorted_by, str_leb, str_eq, leb, ltb, keep, map, Result, ok, err,
  if◌then◌else◌, quoted, str_concat,
}
use distributed_sql.Prelude.Int.{pos}
use distributed_sql.Common.Errors.{
  DistributedSqlError, ErrorCode, not_found, lease_rejected, invalid_request, text, number,
}
use distributed_sql.Common.Protocol.{
  Worker, WorkerState, WorkerRegistration, WorkerHeartbeat, active, lost, worker_state_is,
}

pub record Registry : Type 0 where
  pub lease_ttl : ℕ
  pub workers : Dict Worker

unfoldable pub new_worker : Registry → ℕ → String → WorkerRegistration → Worker
new_worker r now lease registration = record {
  worker_id = registration.worker_id;
  endpoint = registration.endpoint;
  state = active;
  slots = registration.slots;
  available_slots = registration.slots;
  memory_limit_bytes = registration.memory_limit_bytes;
  lease_id = some lease;
  lease_expires_at = some (now + r.lease_ttl);
  registered_at = now;
  last_heartbeat_at = some now;
  labels = registration.labels;
}

unfoldable pub register : ℕ → String → WorkerRegistration → Registry → Worker × Registry
unfolding new_worker
register now lease registration r =
    let worker = new_worker r now lease registration in
    (worker, record r { workers = insert registration.worker_id worker r.workers })

abbrev pub not_registered : String → DistributedSqlError
not_registered worker_id = record {
  code = not_found;
  message = str_concat ("Worker " ∷ quoted worker_id ∷ " is not registered." ∷ []);
  status_code = 404;
  context = ("worker_id", text worker_id) ∷ [];
}

abbrev pub not_valid : String → DistributedSqlError
not_valid worker_id = record {
  code = lease_rejected;
  message = str_concat ("Lease for Worker " ∷ quoted worker_id ∷ " is not valid." ∷ []);
  status_code = 409;
  context = ("worker_id", text worker_id) ∷ [];
}

abbrev pub has_expired : String → DistributedSqlError
has_expired worker_id = record {
  code = lease_rejected;
  message = str_concat ("Lease for Worker " ∷ quoted worker_id ∷ " has expired." ∷ []);
  status_code = 409;
  context = ("worker_id", text worker_id) ∷ [];
}

abbrev pub too_many_slots : String → ℕ → DistributedSqlError
too_many_slots worker_id slots = record {
  code = invalid_request;
  message = "Available slots cannot exceed configured Worker slots.";
  status_code = 422;
  context = ("worker_id", text worker_id) ∷ ("slots", number (pos slots)) ∷ [];
}

abbrev pub same_lease : Option String → String → Bool
same_lease none lease = false
same_lease (some held) lease = str_eq held lease

-- `lease_expires_at is None or lease_expires_at <= now`
abbrev pub lease_is_over : Option ℕ → ℕ → Bool
lease_is_over none now = true
lease_is_over (some expires) now = leb expires now

unfoldable pub renewed : ℕ → ℕ → WorkerHeartbeat → Worker → Worker
renewed now ttl beat worker = record worker {
  available_slots = beat.available_slots;
  state = beat.state;
  last_heartbeat_at = some now;
  lease_expires_at = some (now + ttl);
}

-- The heartbeat of a registered Worker.
unfoldable pub heartbeat_of :
    ℕ → String → WorkerHeartbeat → Worker → Registry → Result DistributedSqlError Worker × Registry
unfolding renewed
heartbeat_of now worker_id beat worker r =
    if not (same_lease worker.lease_id beat.lease_id)
    then (err (not_valid worker_id), r)
    else if lease_is_over worker.lease_expires_at now
    then (
      err (has_expired worker_id),
      record r { workers = insert worker_id (record worker { state = lost }) r.workers },
    )
    else if ltb worker.slots beat.available_slots
    then (err (too_many_slots worker_id worker.slots), r)
    else (
      ok (renewed now r.lease_ttl beat worker),
      record r { workers = insert worker_id (renewed now r.lease_ttl beat worker) r.workers },
    )

unfoldable pub heartbeat :
    ℕ → String → WorkerHeartbeat → Registry → Result DistributedSqlError Worker × Registry
unfolding heartbeat_of
heartbeat now worker_id beat r = elim (lookup worker_id r.workers) [
  | none ↦ (err (not_registered worker_id), r)
  | some worker ↦ heartbeat_of now worker_id beat worker r
]

abbrev pub over_by : Option ℕ → ℕ → Bool
over_by none now = false
over_by (some expires) now = leb expires now

unfoldable pub is_expired : ℕ → Worker → Bool
is_expired now worker =
    not (worker_state_is worker.state lost) && over_by worker.lease_expires_at now

unfoldable pub expire : ℕ → Worker → Worker
unfolding is_expired
expire now worker =
    if is_expired now worker then record worker { state = lost; available_slots = 0 } else worker

unfoldable pub expire_leases : ℕ → Registry → List String × Registry
unfolding expire is_expired
expire_leases now r = (
  map (λ (worker : Worker). worker.worker_id) (keep (is_expired now) (values r.workers)),
  record r { workers = map_values (expire now) r.workers },
)

unfoldable pub list_workers : Registry → List Worker
list_workers r =
    sorted_by (λ (a : Worker) (b : Worker). str_leb a.worker_id b.worker_id) (values r.workers)
