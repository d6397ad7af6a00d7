-- ===== src/Storage/Leases.antt =====
-- crates/light-stream-storage/src/lib.rs: the lease clock of a group, `expire_due_leases` and
-- `replay_range_bytes`. The leases are a list in the order of their keys, and `retentions` and
-- `reclaim_hints`, which the code searches and hashes, are association lists.
pub mod Commands
pub mod Expired
pub mod Budget
pub mod Table
pub mod Admission
pub mod Maintained
pub mod Changes
pub mod Accounts
use light_stream.Shared.{
  ℕ, ◌-◌, Bool, true, false, Option, some, none, List, [], ◌∷◌, ◌++◌, nat_eq, set_at, ltb, min_of,
  checked_sub, lookup, put, ◌==◌, if◌then◌else◌,
}
use light_stream.Core.Identity.{
  PartitionKey, partition_key_eq, ReplayLeaseId, active, ReplayLeaseLifecycle, lifecycle_eq,
}
use light_stream.Core.Error.{DomainError, invalid_range, storage, Result, ok, err}
use light_stream.Core.Replay.{ReplayLeaseRequest, ReplayLease, expire_lease}
use light_stream.Core.Operations.Fence.{HeldExportFence}
use light_stream.Storage.State.{GroupState, WriteBatch, StoredRecord, unwrap_or, no_retention}
use light_stream.Storage.Retention.{
  ClockObservation, SafeLeaseClock, safe_lease_clock, advance, LeaseBudget, PartitionRetentionState,
  lease_is_effectively_active,
}
use light_stream.Storage.Publish.Records.{record_key}
use light_stream.Storage.Exports.{mutation_fence_state}

-- LeaseBudget::default
abbrev pub no_budget : LeaseBudget
no_budget = record { active_leases = 0; reserved_bytes = 0 }

advance_stored_clock : Option SafeLeaseClock → ClockObservation → Result DomainError SafeLeaseClock
advance_stored_clock (some clock) o = advance clock o
advance_stored_clock none o = safe_lease_clock o

unfoldable pub advance_lease_clock :
    GroupState → ClockObservation → Result DomainError SafeLeaseClock
unfolding advance_stored_clock
advance_lease_clock s o = advance_stored_clock s.lease_clock o

fence_is_held : Option HeldExportFence → Bool
fence_is_held (some h) = true
fence_is_held none = false

-- `mutation_fence_state()?.held().is_some()`
unfoldable pub is_fenced : GroupState → Bool
unfolding fence_is_held
is_fenced s = fence_is_held (mutation_fence_state s).held

abbrev pub stored_retention : GroupState → PartitionKey → PartitionRetentionState
stored_retention s p = unwrap_or (s.retention p) no_retention

-- What the loop of `expire_due_leases` has put and gathered.
pub record Expiry : Type 0 where
  pub leases : List (ReplayLeaseId × ReplayLease)
  pub budget : LeaseBudget
  pub active : List ReplayLease
  pub retentions : List (PartitionKey × PartitionRetentionState)
  pub reclaim_hints : List (PartitionKey × ℕ)
  pub expired_any : Bool

-- `min` with what is there.
abbrev pub min_with : Option ℕ → ℕ → ℕ
min_with none cursor = cursor
min_with (some existing) cursor = min_of existing cursor

-- An end of a lease before the floor lets reclamation go back to its start.
abbrev pub reopen : ℕ → PartitionRetentionState → PartitionRetentionState
reopen start r =
    if ltb start r.logical_floor
    then record r { reclaim_cursor = min_of r.reclaim_cursor start }
    else r

note_hint : GroupState → ReplayLease → List (PartitionKey × ℕ) → List (PartitionKey × ℕ)
note_hint s lease hints =
    let range = lease.request.range in
    if ltb range.start (stored_retention s range.partition).logical_floor
    then put range.partition (min_with (lookup range.partition hints) range.start) hints
    else hints

note_retention :
    GroupState
    → ReplayLease
    → List (PartitionKey × PartitionRetentionState)
    → List (PartitionKey × PartitionRetentionState)
note_retention s lease retentions =
    let range = lease.request.range in
    put range.partition
      (reopen range.start
        (unwrap_or (lookup range.partition retentions) (stored_retention s range.partition)))
      retentions

-- A lease that is due.
unfoldable pub expire_one : GroupState → ReplayLease → Expiry → Expiry
unfolding note_hint note_retention
expire_one s lease x = record x {
  leases = put lease.id (expire_lease lease) x.leases;
  budget = record {
    active_leases = x.budget.active_leases - 1;
    reserved_bytes = x.budget.reserved_bytes - lease.protected_bytes;
  };
  retentions = if is_fenced s then x.retentions else note_retention s lease x.retentions;
  reclaim_hints = if is_fenced s then note_hint s lease x.reclaim_hints else x.reclaim_hints;
  expired_any = true;
}

unfoldable pub expire_if_due : GroupState → SafeLeaseClock → ReplayLease → Expiry → Expiry
expire_if_due s clock lease x =
    if lease_is_effectively_active lease clock
    then record x { active = x.active ++ lease ∷ [] }
    else if lease.lifecycle == ReplayLeaseLifecycle.active
    then expire_one s lease x
    else x

-- The loop over the stored leases.
unfoldable pub expire_each :
    GroupState → SafeLeaseClock → List (ReplayLeaseId × ReplayLease) → Expiry → Expiry
expire_each s clock [] x = x
expire_each s clock ((id, lease) ∷ ls) x = expire_each s clock ls (expire_if_due s clock lease x)

-- The puts of the retention states and of the hints.
unfoldable pub put_retentions :
    List (PartitionKey × PartitionRetentionState)
    → (PartitionKey → Option PartitionRetentionState)
    → PartitionKey
    → Option PartitionRetentionState
put_retentions [] f = f
put_retentions ((p, r) ∷ rs) f = put_retentions rs (set_at f p (some r))

put_hints : GroupState → List (PartitionKey × ℕ) → List (PartitionKey × ℕ) → List (PartitionKey × ℕ)
put_hints s [] hints = hints
put_hints s ((p, cursor) ∷ hs) hints =
    put_hints s hs (put p (min_with (lookup p s.reclaim_hints) cursor) hints)

unfoldable pub write_expiry : GroupState → Expiry → WriteBatch → WriteBatch
unfolding put_retentions put_hints
write_expiry s x write =
    if x.expired_any
    then record write {
      leases = x.leases;
      lease_budget = some x.budget;
      retention = put_retentions x.retentions write.retention;
      reclaim_hints = put_hints s x.reclaim_hints write.reclaim_hints;
    }
    else write

unfoldable pub expire_due_leases : GroupState → SafeLeaseClock → WriteBatch → Expiry × WriteBatch
expire_due_leases s clock write =
    let x = expire_each s clock s.leases (record {
      leases = write.leases;
      budget = unwrap_or s.lease_budget no_budget;
      active = [];
      retentions = [];
      reclaim_hints = [];
      expired_any = false;
    }) in
    (x, write_expiry s x write)

end_bytes : Option StoredRecord → ℕ → Result DomainError ℕ
end_bytes none start_bytes = err (invalid_range "replay lease end boundary is unavailable")
end_bytes (some last) start_bytes = elim (checked_sub last.cumulative_end_bytes start_bytes) [
  | some bytes ↦ ok bytes
  | none ↦ err (storage "replay lease byte index is not monotonic")
]

-- From the start boundary on.
range_bytes : GroupState → ReplayLeaseRequest → ℕ → Result DomainError ℕ
range_bytes s request start_bytes =
    let range = request.range in
    elim (checked_sub range.end 1) [
      | none ↦ err (invalid_range "replay lease range is empty")
      | some last ↦ end_bytes (s.records (record_key range.partition last)) start_bytes
    ]

-- The start is not below the floor.
unfoldable pub replay_range_bytes :
    GroupState → ReplayLeaseRequest → PartitionRetentionState → Result DomainError ℕ
unfolding range_bytes end_bytes
replay_range_bytes s request retention =
    let range = request.range in
    if range.start == retention.logical_floor
    then range_bytes s request retention.floor_byte_position
    else elim (s.records (record_key range.partition (range.start - 1))) [
      | none ↦ err (invalid_range "replay lease start boundary is unavailable")
      | some boundary ↦ range_bytes s request boundary.cumulative_end_bytes
    ]
