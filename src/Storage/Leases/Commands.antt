-- ===== src/Storage/Leases/Commands.antt =====
-- crates/light-stream-storage/src/lib.rs: `apply_admit_replay_lease`, `apply_renew_replay_lease` and
-- `apply_release_replay_lease`.
use light_stream.Shared.{
  ℕ, ◌-◌, Option, some, none, nat_eq, set_at, ltb, min_of, checked_add, saturating_add, lookup, put,
  ◌==◌, not, if◌then◌else◌,
}
use light_stream.Core.Identity.{
  PartitionKey, partition_key_eq, mutation_request_eq, ReplayLeaseLifecycle, lifecycle_eq,
}
use light_stream.Core.Error.{
  DomainError, cursor_expired, lease_clock_unavailable, replay_lease_range_violation,
  replay_lease_inactive, replay_lease_not_found, Result, ok, err,
}
use light_stream.Core.Replay.{
  ReplayLeaseRequest, ReplayLease, renewed, release_lease, LeaseRenewal, LeaseRelease,
}
use light_stream.Storage.Result.{ApplyResult, replay_lease, rejected}
use light_stream.Storage.State.{GroupDb, GroupState, WriteBatch, Applied, unwrap_or}
use light_stream.Storage.Mutations.{prior_mutation_result, store_mutation_result}
use light_stream.Storage.Retention.{
  ClockObservation, SafeLeaseClock, default_limits, LeaseBudget, admit, lease_is_effectively_active,
}
use light_stream.Storage.Leases.{
  advance_lease_clock, is_fenced, stored_retention, Expiry, min_with, reopen, expire_due_leases,
  replay_range_bytes,
}

-- An answer and the batch, before the answer is stored.
abbrev pub Answer : Type 0
Answer = ApplyResult × WriteBatch

-- The puts of an admitted lease.
abbrev pub put_admitted :
    LeaseBudget → SafeLeaseClock → ReplayLeaseRequest → ReplayLease → WriteBatch → WriteBatch
put_admitted budget clock request lease write = record write {
  leases = put lease.id lease write.leases;
  lease_requests = set_at write.lease_requests request.request (some lease.id);
  lease_budget = some (record {
    active_leases = saturating_add budget.active_leases 1;
    reserved_bytes = saturating_add budget.reserved_bytes lease.protected_bytes;
  });
  lease_clock = some clock;
}

-- From the expired leases on.
unfoldable pub admit_expired :
    GroupDb → GroupState → ReplayLeaseRequest → SafeLeaseClock → Expiry → WriteBatch → Answer
admit_expired db s request clock x write =
    let partition = request.range.partition in
    let retention = stored_retention s partition in
    if ltb request.range.start retention.logical_floor
    then (rejected (cursor_expired request.range.start retention.logical_floor), write)
    else elim (replay_range_bytes s request retention) [
      | err e ↦ (rejected e, write)
      | ok bytes ↦
          elim (admit (db.replay_lease_id request.request) request bytes (record {
            floor = retention.logical_floor;
            tail = unwrap_or (s.next_offset partition) 0;
            clock = clock;
            limits = default_limits;
            budget = x.budget;
          })) [
            | err e ↦ (rejected e, write)
            | ok lease ↦ (replay_lease lease, put_admitted x.budget clock request lease write)
          ]
    ]

unfoldable pub admit_clocked :
    GroupDb
    → GroupState
    → ReplayLeaseRequest
    → Result DomainError SafeLeaseClock
    → WriteBatch
    → Answer
admit_clocked db s request (err e) write = (rejected e, write)
admit_clocked db s request (ok clock) write =
    let (x, write') = expire_due_leases s clock write in admit_expired db s request clock x write'

unfoldable pub apply_admit_replay_lease :
    GroupDb → GroupState → ReplayLeaseRequest → ClockObservation → WriteBatch → Applied ApplyResult
apply_admit_replay_lease db s request observation write =
    let fingerprint = db.admission_fingerprint request in
    elim (prior_mutation_result s request.request fingerprint) [
      | some result ↦ ok (result, write)
      | none ↦
          (let (result, write') =
              admit_clocked db s request (advance_lease_clock s observation) write in
            ok (result, store_mutation_result db s request.request fingerprint result write'))
    ]

-- The lifecycle that an inactive lease is reported with.
abbrev pub inactive_lifecycle : ReplayLeaseLifecycle → ReplayLeaseLifecycle
inactive_lifecycle l = if l == ReplayLeaseLifecycle.active then ReplayLeaseLifecycle.expired else l

abbrev pub inactive : ReplayLease → ApplyResult
inactive lease = rejected (replay_lease_inactive lease.id (inactive_lifecycle lease.lifecycle))

-- The renewal of an active lease.
unfoldable pub renew_active : LeaseRenewal → SafeLeaseClock → ReplayLease → WriteBatch → Answer
renew_active request clock lease write = elim (checked_add clock.upper_bound request.duration) [
  | none ↦ (rejected lease_clock_unavailable, write)
  | some expires_at ↦ elim (renewed lease expires_at lease.hard_expires_at) [
    | err e ↦ (rejected e, write)
    | ok lease' ↦ (
      replay_lease lease',
      record write { leases = put request.lease lease' write.leases; lease_clock = some clock },
    )
  ]
]

renew_found : LeaseRenewal → SafeLeaseClock → Option ReplayLease → WriteBatch → Answer
renew_found request clock none write = (rejected (replay_lease_not_found request.lease), write)
renew_found request clock (some lease) write =
    if not (lease.request.range.partition == request.partition)
    then (rejected replay_lease_range_violation, write)
    else if lease_is_effectively_active lease clock
    then renew_active request clock lease write
    else (inactive lease, write)

unfoldable pub renew_clocked :
    GroupState → LeaseRenewal → Result DomainError SafeLeaseClock → WriteBatch → Answer
unfolding renew_found
renew_clocked s request (err e) write = (rejected e, write)
renew_clocked s request (ok clock) write =
    let (x, write') = expire_due_leases s clock write in
    renew_found request clock (lookup request.lease s.leases) write'

unfoldable pub apply_renew_replay_lease :
    GroupDb → GroupState → LeaseRenewal → ClockObservation → WriteBatch → Applied ApplyResult
apply_renew_replay_lease db s request observation write =
    let fingerprint = db.renewal_fingerprint request in
    elim (prior_mutation_result s request.request fingerprint) [
      | some result ↦ ok (result, write)
      | none ↦
          (let (result, write') =
              renew_clocked s request (advance_lease_clock s observation) write in
            ok (result, store_mutation_result db s request.request fingerprint result write'))
    ]

-- A released lease before the floor: a hint while the group is fenced, else the cursor goes back.
unfoldable pub reopen_released : GroupState → PartitionKey → ℕ → Expiry → WriteBatch → WriteBatch
reopen_released s partition start x write =
    let retention = unwrap_or (lookup partition x.retentions) (stored_retention s partition) in
    if ltb start retention.logical_floor
    then (if is_fenced s
        then (let hinted = min_of (unwrap_or (lookup partition x.reclaim_hints) start) start in
            record write {
              reclaim_hints =
                  put partition (min_with (lookup partition s.reclaim_hints) hinted)
                    write.reclaim_hints;
            })
        else record write {
          retention = set_at write.retention partition (some (reopen start retention));
        })
    else write

-- The release of an active lease.
unfoldable pub release_active :
    GroupState → LeaseRelease → SafeLeaseClock → ReplayLease → Expiry → WriteBatch → Answer
release_active s request clock lease x write =
    let range = lease.request.range in
    let write' =
      reopen_released s range.partition range.start x
        (record write { leases = put request.lease (release_lease lease) write.leases }) in
    (
      replay_lease (release_lease lease),
      record write' {
        lease_budget = some (record {
          active_leases = x.budget.active_leases - 1;
          reserved_bytes = x.budget.reserved_bytes - lease.protected_bytes;
        });
        lease_clock = some clock;
      },
    )

release_found :
    GroupState → LeaseRelease → SafeLeaseClock → Option ReplayLease → Expiry → WriteBatch → Answer
release_found s request clock none x write =
    (rejected (replay_lease_not_found request.lease), write)
release_found s request clock (some lease) x write =
    if not (lease.request.range.partition == request.partition)
    then (rejected replay_lease_range_violation, write)
    else if lease_is_effectively_active lease clock
    then release_active s request clock lease x write
    else (inactive lease, write)

unfoldable pub release_clocked :
    GroupState → LeaseRelease → Result DomainError SafeLeaseClock → WriteBatch → Answer
unfolding release_found
release_clocked s request (err e) write = (rejected e, write)
release_clocked s request (ok clock) write =
    let (x, write') = expire_due_leases s clock write in
    release_found s request clock (lookup request.lease s.leases) x write'

unfoldable pub apply_release_replay_lease :
    GroupDb → GroupState → LeaseRelease → ClockObservation → WriteBatch → Applied ApplyResult
apply_release_replay_lease db s request observation write =
    let fingerprint = db.release_fingerprint request in
    elim (prior_mutation_result s request.request fingerprint) [
      | some result ↦ ok (result, write)
      | none ↦
          (let (result, write') =
              release_clocked s request (advance_lease_clock s observation) write in
            ok (result, store_mutation_result db s request.request fingerprint result write'))
    ]
