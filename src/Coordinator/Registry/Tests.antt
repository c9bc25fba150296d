-- ===== src/Coordinator/Registry/Tests.antt =====
-- Runs of the registry, and its theorems at a registry with one Worker.
use distributed_sql.Prelude.{
  ℕ, ◌≡◌, refl, none, some, [], ◌∷◌, lookup, ok, err, arith, ◌⊎◌, ◌↔◌, insert, ◌<◌, ◌≢◌,
}
use distributed_sql.Common.Errors.{DistributedSqlError, lease_rejected}
use distributed_sql.Common.Protocol.{Worker, WorkerHeartbeat, WorkerRegistration, active, lost}
use distributed_sql.Coordinator.Registry.{
  Registry, register, new_worker, heartbeat, renewed, expire_leases, expire, is_expired,
  has_expired,
}
use distributed_sql.Coordinator.Registry.Leases.{
  IsAcceptable, heartbeat-ok_iff, IsOver, heartbeat_refused, expire_leases_live,
}
use distributed_sql.Coordinator.Registry.Reach.{
  System, Reach, empty, registers, wait, NeverBack, expiry, here, next, AllSound, Reach-AllSound,
  lost_stays_lost,
}

abbrev registration : WorkerRegistration
registration = record {
  worker_id = "w";
  endpoint = "http://w";
  slots = 4;
  memory_limit_bytes = 1024;
  labels = [];
}

abbrev beat : ℕ → WorkerHeartbeat
beat n = record { lease_id = "l"; available_slots = n; state = active }

abbrev worker : Worker
worker = record {
  worker_id = "w";
  endpoint = "http://w";
  state = active;
  slots = 4;
  available_slots = 4;
  memory_limit_bytes = 1024;
  lease_id = some "l";
  lease_expires_at = some 15;
  registered_at = 5;
  last_heartbeat_at = some 5;
  labels = [];
}

abbrev registry : Registry
registry = record { lease_ttl = 10; workers = ("w", worker) ∷ [] }

program : Unit {0}
unfolding register new_worker heartbeat expire_leases expire is_expired
program = tt

registered : (register 5 "l" registration (record { lease_ttl = 10; workers = [] })).1 ≡ registry
unfolding program
registered = refl

late : (heartbeat 15 "w" (beat 1) registry).0 ≡ err (has_expired "w")
unfolding program
late = refl

in_time : (heartbeat 14 "w" (beat 1) registry).0 ≡ ok (renewed 14 10 (beat 1) worker)
unfolding program
in_time = refl

expired : (expire_leases 15 registry).0 ≡ "w" ∷ []
unfolding program
expired = refl

heartbeat-ok_iff_example :
    ((w : Worker) × ((heartbeat 14 "w" (beat 1) registry).0 ≡ ok w))
    ↔ IsAcceptable 14 (beat 1) worker
heartbeat-ok_iff_example = heartbeat-ok_iff 14 "w" (beat 1) worker registry refl

heartbeat_refused_example :
    ((x : Worker) × (lookup "w" registry.workers ≡ some x)
      × IsOver 15 (beat 1) x
      × ((heartbeat 15 "w" (beat 1) registry).1
          ≡ record registry { workers = insert "w" (record x { state = lost }) registry.workers }))
    ⊎ (((heartbeat 15 "w" (beat 1) registry).1 ≡ registry)
        × ((x : Worker) → lookup "w" registry.workers ≡ some x → ¬ IsOver 15 (beat 1) x))
heartbeat_refused_example = heartbeat_refused 15 "w" (beat 1) registry late

not_lost : active ≢ lost
not_lost e = cc

expire_leases_live_example :
    (worker.lease_expires_at ≡ none) ⊎ ((t : ℕ) × (worker.lease_expires_at ≡ some t) × (14 < t))
unfolding program
expire_leases_live_example = expire_leases_live 14 "w" registry worker refl not_lost

-- Registered at 5 for 10 ticks, and expired at 15.
abbrev late_system : System
late_system = record {
  now = 15;
  registry = record {
    lease_ttl = 10;
    workers = ("w", record worker { state = lost; available_slots = 0 }) ∷ [];
  };
}

unfoldable late_system-Reach : Reach (empty 5 10) late_system
unfolding program
late_system-Reach =
    next (next (next here (registers "l" registration (omega arith))) (wait 15)) expiry

late_system-NeverBack : NeverBack late_system-Reach
unfolding late_system-Reach NeverBack
late_system-NeverBack = (((tt, tt), omega arith), tt)

Reach-AllSound_example : AllSound late_system
Reach-AllSound_example = Reach-AllSound late_system-Reach late_system-NeverBack

lost_stays_lost_example :
    (e : DistributedSqlError) × ((heartbeat 15 "w" (beat 1) late_system.registry).0 ≡ err e)
    × (e.code ≡ lease_rejected)
lost_stays_lost_example =
    lost_stays_lost "w" (record worker { state = lost; available_slots = 0 }) (beat 1)
      late_system-Reach late_system-NeverBack refl refl
