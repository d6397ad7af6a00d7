-- ===== src/Storage/Reclaim/Maintain.antt =====
-- crates/light-stream-storage/src/lib.rs: what `apply_maintain_retention` deletes, from its start.
use light_stream.Shared.{
  ℕ, ◌-◌, ◌≤◌, ◌<◌, ◌≡◌, refl, ap, ◌∙◌, inl, inr, Bool, false, Bool-cases, none, some, List, [],
  ◌∷◌, nat_eq, ltb, leb, min_of, set_at, ◌==◌, ◌&&◌, ◌||◌, not, if◌then◌else◌, arith, u64_max,
  Option, String,
}
use light_stream.Core.Identity.{PartitionKey, partition_key_eq, ReplayLeaseId, RecordOffset}
use light_stream.Core.Error.{ok, err, Result-cases}
use light_stream.Core.Replay.{ReplayLease, contains}
use light_stream.Storage.Keys.{RecordKey}
use light_stream.Storage.Result.{ApplyResult}
use light_stream.Storage.State.{GroupDb, GroupState, WriteBatch, StoredRecord, no_retention}
use light_stream.Storage.Retention.{
  ClockObservation, SafeLeaseClock, PartitionRetentionState, lease_is_effectively_active,
}
use light_stream.Storage.Leases.{
  advance_lease_clock, is_fenced, stored_retention, expire_due_leases,
}
use light_stream.Storage.Leases.Expired.{
  active_leases, reopened_cursor, retention_in, expire_due_retention, expire_due_active,
  expire_due_records,
}
use light_stream.Storage.Reclaim.{
  Reclamation, Pass, ranges_of, status_of, reclaim_from, maintain_clocked, apply_maintain_retention,
}
use light_stream.Storage.Reclaim.Deleted.{is_covered, reclaim_records}

-- An effectively active lease of the partition covers the offset.
abbrev pub is_leased :
    SafeLeaseClock → PartitionKey → RecordOffset → List (ReplayLeaseId × ReplayLease) → Bool
is_leased clock p offset [] = false
is_leased clock p offset ((id, lease) ∷ ls) =
    lease_is_effectively_active lease clock
      && (lease.request.range.partition == p && contains lease.request.range offset)
    || is_leased clock p offset ls

covered_leased :
    (clock : SafeLeaseClock) (p : PartitionKey) (offset : ℕ)
    (ls : List (ReplayLeaseId × ReplayLease))
    → is_covered offset (ranges_of p (active_leases clock ls)) ≡ is_leased clock p offset ls
unfolding ranges_of
covered_leased clock p offset [] = refl
covered_leased clock p offset ((id, lease) ∷ ls) =
    elim (Bool-cases (lease_is_effectively_active lease clock)) [
      | inl e ↦ ground (arith, covered_leased clock p offset ls)
      | inr e ↦ ground (arith, covered_leased clock p offset ls)
    ]

reopened_le :
    (clock : SafeLeaseClock) (p : PartitionKey) (floor : ℕ)
    (ls : List (ReplayLeaseId × ReplayLease)) (cursor : ℕ)
    → reopened_cursor clock p floor ls cursor ≤ cursor
reopened_le clock p floor [] cursor = omega arith
reopened_le clock p floor ((id, lease) ∷ ls) cursor = ground (
  arith,
  reopened_le clock p floor ls cursor,
  reopened_le clock p floor ls (min_of cursor lease.request.range.start),
)

-- Where the pass over a partition begins: a lease that has run out below the floor takes the cursor
-- back to its start, unless the group is fenced.
abbrev pub first_cursor : GroupState → SafeLeaseClock → PartitionKey → ℕ
first_cursor s clock p =
    let r = stored_retention s p in
    if is_fenced s
    then r.reclaim_cursor
    else reopened_cursor clock p r.logical_floor s.leases r.reclaim_cursor

-- The records of a partition from one cursor to another go, except those that are leased.
abbrev pub maintained :
    GroupState → SafeLeaseClock → PartitionKey → ℕ → ℕ → RecordKey → Option StoredRecord
maintained s clock p start end k =
    if k.partition == p
      && (leb start k.offset && (ltb k.offset end && not (is_leased clock p k.offset s.leases)))
    then none
    else s.records k

-- How a pass over a partition may end.
abbrev pub Maintains :
    GroupState
    → SafeLeaseClock
    → PartitionKey
    → RecordKey
    → ApplyResult
    → WriteBatch
    → PartitionRetentionState
    → Type 0
Maintains s clock p k result write r =
    (result ≡ status_of p r)
    × (write.retention p ≡ some r)
    × (r.logical_floor ≡ (stored_retention s p).logical_floor)
    × (first_cursor s clock p ≤ r.reclaim_cursor)
    × (r.reclaim_cursor ≤ r.logical_floor)
    × (write.records k ≡ maintained s clock p (first_cursor s clock p) r.reclaim_cursor k)

-- The arguments and the retention state that the loop begins with.
abbrev pub reclamation : GroupState → PartitionKey → ℕ → ℕ → SafeLeaseClock → Reclamation
reclamation s p max_records max_payload_bytes clock = record {
  partition = p;
  max_records = max_records;
  max_payload_bytes = max_payload_bytes;
  active_ranges = ranges_of p (expire_due_leases s clock s).0.active;
}

abbrev pub retention_at_start : GroupState → PartitionKey → SafeLeaseClock → PartitionRetentionState
retention_at_start s p clock = retention_in s p (expire_due_leases s clock s).0

retention_at_start_lem :
    (s : GroupState) (p : PartitionKey) (clock : SafeLeaseClock)
    → ((retention_at_start s p clock).logical_floor ≡ (stored_retention s p).logical_floor)
      × ((retention_at_start s p clock).reclaim_cursor ≡ first_cursor s clock p)
retention_at_start_lem s p clock = ground (arith, expire_due_retention s clock p s)

pub maintain_clocked_lem :
    (db : GroupDb) (s : GroupState) (p : PartitionKey) (max_records max_payload_bytes : ℕ)
    (clock : SafeLeaseClock) (q : Pass)
    → reclaim_from db s
        (reclamation s p max_records max_payload_bytes clock)
        (retention_at_start s p clock)
        (expire_due_leases s clock s).1
      ≡ ok q
    → maintain_clocked db s p max_records max_payload_bytes clock s
      ≡ ok (
        status_of p q.retention,
        record q.write {
          retention = set_at q.write.retention p (some q.retention);
          lease_clock = some clock;
        },
      )
unfolding maintain_clocked
maintain_clocked_lem db s p max_records max_payload_bytes clock q h = ground arith

pub maintain_clocked_err :
    (db : GroupDb) (s : GroupState) (p : PartitionKey) (max_records max_payload_bytes : ℕ)
    (clock : SafeLeaseClock) (e : String)
    → reclaim_from db s
        (reclamation s p max_records max_payload_bytes clock)
        (retention_at_start s p clock)
        (expire_due_leases s clock s).1
      ≡ err e
    → maintain_clocked db s p max_records max_payload_bytes clock s ≡ err e
unfolding maintain_clocked
maintain_clocked_err db s p max_records max_payload_bytes clock e h = ground arith

pub pass_records :
    (db : GroupDb) (s : GroupState) (p : PartitionKey) (max_records max_payload_bytes : ℕ)
    (clock : SafeLeaseClock) (k : RecordKey) (q : Pass)
    → (stored_retention s p).logical_floor ≤ u64_max
    → (stored_retention s p).reclaim_cursor ≤ (stored_retention s p).logical_floor
    → reclaim_from db s
        (reclamation s p max_records max_payload_bytes clock)
        (retention_at_start s p clock)
        (expire_due_leases s clock s).1
      ≡ ok q
    → (q.retention.logical_floor ≡ (stored_retention s p).logical_floor)
      × (first_cursor s clock p ≤ q.retention.reclaim_cursor)
      × (q.retention.reclaim_cursor ≤ q.retention.logical_floor)
      × (q.write.records k
          ≡ maintained s clock p (first_cursor s clock p) q.retention.reclaim_cursor k)
unfolding reclaim_from
pass_records db s p max_records max_payload_bytes clock k q w le h =
    let begin = retention_at_start_lem s p clock in
    let back =
      reopened_le clock p (stored_retention s p).logical_floor s.leases
        (stored_retention s p).reclaim_cursor in
    let below : first_cursor s clock p ≤ (stored_retention s p).logical_floor = ground arith in
    let done =
      reclaim_records db s (reclamation s p max_records max_payload_bytes clock) k
        ((retention_at_start s p clock).logical_floor
          - (retention_at_start s p clock).reclaim_cursor)
        (record {
          retention = retention_at_start s p clock;
          examined = 0;
          reclaimed_bytes = 0;
          write = (expire_due_leases s clock s).1;
        })
        q (omega (arith, begin)) (omega (arith, begin))
        (ap (λ f. f k) (expire_due_records s clock s)) h in
    let leased =
      ap (λ l. is_covered k.offset (ranges_of p l)) (expire_due_active s clock s)
      ∙ covered_leased clock p k.offset s.leases in
    (
      omega (arith, begin, done),
      omega (arith, begin, done),
      omega (arith, begin, done),
      ground arith,
    )

maintain_at :
    (db : GroupDb) (s : GroupState) (p : PartitionKey) (cursor max_records max_payload_bytes : ℕ)
    (observation : ClockObservation) (clock : SafeLeaseClock)
    → 0 < max_records
    → 0 < max_payload_bytes
    → (stored_retention s p).reclaim_cursor ≡ cursor
    → advance_lease_clock s observation ≡ ok clock
    → apply_maintain_retention db s p cursor max_records max_payload_bytes observation s
      ≡ maintain_clocked db s p max_records max_payload_bytes clock s
unfolding apply_maintain_retention
maintain_at db s p cursor max_records max_payload_bytes observation clock a b c d = ground arith

-- A pass over a partition that begins at the expected cursor, with limits and a clock that are
-- accepted, and that ends without an `io::Error`, moves the cursor from where it starts (back at the
-- start of each lease that ran out below the floor, unless the group is fenced) to a place not past
-- the floor, which stays. Of all records it deletes those of the partition between the two that no
-- effectively active lease covers, and no other. It stores and answers with the new retention state.
-- The stored floor is a u64 and the stored cursor is not past it.
pub apply_maintain_deletes :
    (db : GroupDb) (s : GroupState) (p : PartitionKey) (cursor max_records max_payload_bytes : ℕ)
    (observation : ClockObservation) (clock : SafeLeaseClock) (k : RecordKey) (result : ApplyResult)
    (write : WriteBatch)
    → (stored_retention s p).logical_floor ≤ u64_max
    → (stored_retention s p).reclaim_cursor ≤ (stored_retention s p).logical_floor
    → 0 < max_records
    → 0 < max_payload_bytes
    → (stored_retention s p).reclaim_cursor ≡ cursor
    → advance_lease_clock s observation ≡ ok clock
    → apply_maintain_retention db s p cursor max_records max_payload_bytes observation s
      ≡ ok (result, write)
    → (r : PartitionRetentionState) × Maintains s clock p k result write r
apply_maintain_deletes db s p cursor max_records max_payload_bytes observation clock k result write
      w le a b c d h =
    let at = maintain_at db s p cursor max_records max_payload_bytes observation clock a b c d in
    elim (Result-cases (
      reclaim_from db s (reclamation s p max_records max_payload_bytes clock)
        (retention_at_start s p clock) (expire_due_leases s clock s).1)) [
          | inl (q, e) ↦
              let run = maintain_clocked_lem db s p max_records max_payload_bytes clock q e in
              let done = pass_records db s p max_records max_payload_bytes clock k q w le e in
              (q.retention, (ground arith))
          | inr (m, e) ↦
              let run = maintain_clocked_err db s p max_records max_payload_bytes clock m e in
              (no_retention, (ground arith))
        ]
