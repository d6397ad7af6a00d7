-- ===== src/Storage/Floor.antt =====
-- crates/light-stream-storage/src/lib.rs: `apply_advance_retention`, which moves the logical floor of a
-- partition.
pub mod Kept
pub mod Advance
pub mod Lowered
pub mod Commands
use light_stream.Shared.{
  ℕ, ◌-◌, String, Option, some, none, nat_eq, set_at, ◌==◌, not, if◌then◌else◌,
}
use light_stream.Core.Identity.{PartitionKey, partition_key_eq, RecordOffset}
use light_stream.Core.Error.{DomainError, identity_mismatch, storage, Result, ok, err}
use light_stream.Core.Replay.{RetentionRequest}
use light_stream.Storage.Keys.{RecordKey}
use light_stream.Storage.Result.{ApplyResult, retention, rejected}
use light_stream.Storage.State.{
  GroupDb, GroupState, WriteBatch, Applied, GroupKind, control, data_group, StoredRecord, unwrap_or,
}
use light_stream.Storage.Mutations.{prior_mutation_result, store_mutation_result}
use light_stream.Storage.Retention.{
  ClockObservation, SafeLeaseClock, PartitionRetentionState, advance_floor,
}
use light_stream.Storage.Publish.Records.{record_key}
use light_stream.Storage.Leases.{advance_lease_clock, stored_retention}

-- The byte position at a floor, from the record before it; `none` when that is not there and the
-- floor has moved.
floor_bytes : PartitionRetentionState → RecordOffset → Option StoredRecord → Option ℕ
floor_bytes previous floor (some entry) = some entry.cumulative_end_bytes
floor_bytes previous floor none =
    if floor == previous.logical_floor then some previous.floor_byte_position else none

unfoldable pub floor_byte_position :
    GroupState → PartitionKey → PartitionRetentionState → RecordOffset → Option ℕ
unfolding floor_bytes
floor_byte_position s partition previous floor =
    if floor == 0
    then some 0
    else floor_bytes previous floor (s.records (record_key partition (floor - 1)))

-- What the command answers with and puts, and whether it returns before it stores the answer.
pub data Advanced : Type 0 where
  answered : ApplyResult → WriteBatch → Advanced
  returned : ApplyResult → WriteBatch → Advanced

-- The floor and the clock are accepted.
unfoldable pub put_floor :
    RetentionRequest
    → SafeLeaseClock
    → PartitionRetentionState
    → RecordOffset
    → ℕ
    → WriteBatch
    → Advanced
put_floor request clock previous floor position write =
    answered
      (retention (record {
        request = request.request;
        partition = request.partition;
        previous_floor = previous.logical_floor;
        floor = floor;
      }))
      (record write {
        retention =
            set_at write.retention request.partition
              (some (record previous { logical_floor = floor; floor_byte_position = position }));
        lease_clock = some clock;
      })

unfoldable pub move_floor :
    GroupState
    → RetentionRequest
    → PartitionRetentionState
    → RecordOffset
    → Result DomainError SafeLeaseClock
    → WriteBatch
    → Advanced
move_floor s request previous floor (err e) write = answered (rejected e) write
move_floor s request previous floor (ok clock) write =
    elim (floor_byte_position s request.partition previous floor) [
      | none ↦ returned (rejected (storage "retention floor byte boundary is unavailable")) write
      | some position ↦ put_floor request clock previous floor position write
    ]

unfoldable pub advance_retention :
    GroupState → RetentionRequest → ClockObservation → WriteBatch → Advanced
advance_retention s request observation write =
    let previous = stored_retention s request.partition in
    elim (advance_floor previous.logical_floor request.target_floor
      (unwrap_or (s.next_offset request.partition) 0)) [
        | err e ↦ answered (rejected e) write
        | ok floor ↦ move_floor s request previous floor (advance_lease_clock s observation) write
      ]

store_advanced : GroupDb → GroupState → RetentionRequest → Advanced → Applied ApplyResult
store_advanced db s request (answered result write) = ok (
  result,
  store_mutation_result db s request.request (db.retention_fingerprint request) result write,
)
store_advanced db s request (returned result write) = ok (result, write)

unfoldable pub apply_advance_retention :
    GroupDb → GroupState → RetentionRequest → ClockObservation → WriteBatch → Applied ApplyResult
unfolding store_advanced
apply_advance_retention db s request observation write = elim db.identity.kind [
  | control ↦ ok (rejected (identity_mismatch "retention command reached the control group"), write)
  | data_group ↦ elim (prior_mutation_result s request.request (db.retention_fingerprint request)) [
    | some result ↦ ok (result, write)
    | none ↦ store_advanced db s request (advance_retention s request observation write)
  ]
]
