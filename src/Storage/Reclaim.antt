-- ===== src/Storage/Reclaim.antt =====
-- crates/light-stream-storage/src/lib.rs: `apply_maintain_retention`, which deletes the records below
-- the floor of a partition that no active lease covers. `reclaim` is its `while` loop on fuel, and
-- `reclaim_turn` one turn of it, the loop's test included.
pub mod Progress
pub mod Deleted
pub mod Limits
pub mod Maintain
pub mod Payloads
pub mod Untouched
use light_stream.Shared.{
  ℕ, zero, suc, ◌+◌, ◌-◌, String, Bool, true, false, Option, some, none, List, [], ◌∷◌, nat_eq,
  set_at, ltb, min_of, saturating_add, u64_max, lookup, ◌==◌, ◌&&◌, ◌||◌, not, if◌then◌else◌,
}
use light_stream.Core.Identity.{PartitionKey, partition_key_eq, RecordOffset}
use light_stream.Core.Error.{DomainError, invalid_range, Result, ok, err, ◌>>=◌}
use light_stream.Core.Replay.{ReplayRange, contains, ReplayLease}
use light_stream.Storage.Keys.{record_key_eq, payload_key_eq}
use light_stream.Storage.Result.{ApplyResult, retention_status, rejected}
use light_stream.Storage.State.{
  GroupDb, GroupState, WriteBatch, Applied, PayloadOwners, reachable, set_applied_in, StoredRecord,
  unwrap_or,
}
use light_stream.Storage.Retention.{ClockObservation, SafeLeaseClock, PartitionRetentionState}
use light_stream.Storage.Publish.Records.{record_key}
use light_stream.Storage.Leases.{advance_lease_clock, stored_retention, Expiry, expire_due_leases}

-- u32::MAX
abbrev pub u32_max : ℕ
u32_max = 4_294_967_295

-- The arguments of the command, and the ranges that the active leases of the partition cover.
pub record Reclamation : Type 0 where
  pub partition : PartitionKey
  pub max_records : ℕ
  pub max_payload_bytes : ℕ
  pub active_ranges : List ReplayRange

-- What the loop changes.
pub record Pass : Type 0 where
  pub retention : PartitionRetentionState
  pub examined : ℕ
  pub reclaimed_bytes : ℕ
  pub write : WriteBatch

pub data Turn : Type 0 where
  stopped : Turn
  continued : Pass → Turn
  failed : String → Turn

-- The ranges of the leases of a partition.
unfoldable pub ranges_of : PartitionKey → List ReplayLease → List ReplayRange
ranges_of p [] = []
ranges_of p (lease ∷ ls) =
    if lease.request.range.partition == p
    then lease.request.range ∷ ranges_of p ls
    else ranges_of p ls

-- `active_ranges.iter().find(|range| range.contains(offset))`
unfoldable pub find_range : RecordOffset → List ReplayRange → Option ReplayRange
find_range offset [] = none
find_range offset (r ∷ rs) = if contains r offset then some r else find_range offset rs

-- The cursor goes on to an offset.
abbrev pub at_cursor : ℕ → PartitionRetentionState → PartitionRetentionState
at_cursor cursor r = record r { reclaim_cursor = cursor }

-- `examined.saturating_add(1)` on u32.
abbrev pub next_examined : ℕ → ℕ
next_examined n = min_of (n + 1) u32_max

-- Whether the record would take the pass past the limit of its bytes.
abbrev pub over_limit : Reclamation → StoredRecord → Pass → Bool
over_limit c entry p =
    ltb 0 p.examined
    && ltb c.max_payload_bytes (saturating_add p.reclaimed_bytes entry.payload_bytes)

-- The puts and deletes of a record whose payload has lost its last owner, or not.
unfoldable pub drop_record :
    Reclamation → StoredRecord → ℕ → PayloadOwners → WriteBatch → WriteBatch
drop_record c entry cursor owners write =
    if reachable owners
    then record write {
      records = set_at write.records (record_key c.partition cursor) none;
      payload_owners = set_at write.payload_owners entry.payload_key (some owners);
    }
    else record write {
      records = set_at write.records (record_key c.partition cursor) none;
      payload_owners = set_at write.payload_owners entry.payload_key none;
      payloads = set_at write.payloads entry.payload_key none;
    }

-- The counts of the partition after a record.
abbrev pub count_record :
    StoredRecord → PayloadOwners → PartitionRetentionState → PartitionRetentionState
count_record entry owners r = record r {
  raft_only_bytes =
      if reachable owners && owners.raft_log
      then saturating_add r.raft_only_bytes entry.payload_bytes
      else r.raft_only_bytes;
  logically_expired_bytes = saturating_add r.logically_expired_bytes entry.payload_bytes;
  reclaim_cursor = saturating_add r.reclaim_cursor 1;
}

-- A record whose owners are known.
unfoldable pub reclaim_owned : GroupDb → Reclamation → StoredRecord → PayloadOwners → Pass → Pass
reclaim_owned db c entry stored p =
    let owners = set_applied_in stored db.active_bank false in
    record {
      retention = count_record entry owners p.retention;
      examined = next_examined p.examined;
      reclaimed_bytes = saturating_add p.reclaimed_bytes entry.payload_bytes;
      write = drop_record c entry p.retention.reclaim_cursor owners p.write;
    }

unfoldable pub reclaim_record :
    GroupDb → GroupState → Reclamation → Option StoredRecord → Pass → Turn
reclaim_record db s c none p = continued (record p {
  retention = at_cursor (saturating_add p.retention.reclaim_cursor 1) p.retention;
  examined = next_examined p.examined;
})
reclaim_record db s c (some entry) p =
    if over_limit c entry p then stopped else elim (s.payload_owners entry.payload_key) [
      | none ↦ failed "retained record payload is missing ownership"
      | some owners ↦ continued (reclaim_owned db c entry owners p)
    ]

-- The cursor jumps over a range that a lease covers.
unfoldable pub reclaim_at : GroupDb → GroupState → Reclamation → Option ReplayRange → Pass → Turn
reclaim_at db s c (some range) p =
    continued
      (record p { retention = at_cursor (min_of range.end p.retention.logical_floor) p.retention })
reclaim_at db s c none p =
    reclaim_record db s c (s.records (record_key c.partition p.retention.reclaim_cursor)) p

unfoldable pub reclaim_turn : GroupDb → GroupState → Reclamation → Pass → Turn
reclaim_turn db s c p =
    if ltb p.retention.reclaim_cursor p.retention.logical_floor && ltb p.examined c.max_records
    then reclaim_at db s c (find_range p.retention.reclaim_cursor c.active_ranges) p
    else stopped

-- The loop goes on from a turn.
unfoldable pub go_on : (Pass → Result String Pass) → Turn → Pass → Result String Pass
go_on f stopped p = ok p
go_on f (continued q) p = f q
go_on f (failed e) p = err e

unfoldable pub reclaim : GroupDb → GroupState → Reclamation → ℕ → Pass → Result String Pass
unfolding go_on
reclaim db s c zero p = ok p
reclaim db s c (suc fuel) p = go_on (reclaim db s c fuel) (reclaim_turn db s c p) p

-- RetentionStatus::new on a partition's retention state.
abbrev pub status_of : PartitionKey → PartitionRetentionState → ApplyResult
status_of partition r = retention_status (record {
  partition = partition;
  logical_floor = r.logical_floor;
  reclaim_cursor = r.reclaim_cursor;
  logically_expired_bytes = r.logically_expired_bytes;
  raft_only_bytes = r.raft_only_bytes;
})

-- The loop as the command starts it, with fuel for each offset below the floor.
unfoldable pub reclaim_from :
    GroupDb → GroupState → Reclamation → PartitionRetentionState → WriteBatch → Result String Pass
reclaim_from db s c retention write =
    reclaim db s c (retention.logical_floor - retention.reclaim_cursor)
      (record { retention = retention; examined = 0; reclaimed_bytes = 0; write = write })

-- From the accepted clock on.
unfoldable pub maintain_clocked :
    GroupDb → GroupState → PartitionKey → ℕ → ℕ → SafeLeaseClock → WriteBatch → Applied ApplyResult
maintain_clocked db s partition max_records max_payload_bytes clock write =
    let (x, write') = expire_due_leases s clock write in
    reclaim_from db s
      (record {
        partition = partition;
        max_records = max_records;
        max_payload_bytes = max_payload_bytes;
        active_ranges = ranges_of partition x.active;
      })
      (unwrap_or (lookup partition x.retentions) (stored_retention s partition)) write'
    >>= λ p. ok (
      status_of partition p.retention,
      record p.write {
        retention = set_at p.write.retention partition (some p.retention);
        lease_clock = some clock;
      },
    )

unfoldable pub apply_maintain_retention :
    GroupDb
    → GroupState
    → PartitionKey
    → RecordOffset
    → ℕ
    → ℕ
    → ClockObservation
    → WriteBatch
    → Applied ApplyResult
apply_maintain_retention db s partition expected_cursor max_records max_payload_bytes observation
      write =
    if max_records == 0 || max_payload_bytes == 0
    then ok
        (rejected (invalid_range "retention maintenance limits must be greater than zero"), write)
    else if not ((stored_retention s partition).reclaim_cursor == expected_cursor)
    then ok (status_of partition (stored_retention s partition), write)
    else elim (advance_lease_clock s observation) [
      | err e ↦ ok (rejected e, write)
      | ok clock ↦ maintain_clocked db s partition max_records max_payload_bytes clock write
    ]
