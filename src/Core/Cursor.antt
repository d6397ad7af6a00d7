-- ===== src/Core/Cursor.antt =====
-- crates/light-stream-core/src/cursor.rs
use light_stream.Shared.{ℕ, List, nat_eq, checked_add, ◌==◌, if◌then◌else◌}
use light_stream.Core.Identity.{ClusterId, PartitionKey, RecordOffset}
use light_stream.Core.Error.{DomainError, invalid_range, Result, ok, err, ◌>>=◌, ok_or}

-- RecordOffset::checked_add
unfoldable pub offset_checked_add : RecordOffset → ℕ → Result DomainError RecordOffset
offset_checked_add o count = ok_or (checked_add o count) (invalid_range "record offset overflow")

pub record CommittedCursor : Type 0 where
  pub cluster : ClusterId
  pub partition : PartitionKey
  pub next_offset : RecordOffset

pub record CommittedRecordRange : Type 0 where
  pub partition : PartitionKey
  pub first : RecordOffset
  pub count : ℕ

-- CommittedRecordRange::new
unfoldable pub committed_range :
    PartitionKey → RecordOffset → ℕ → Result DomainError CommittedRecordRange
unfolding offset_checked_add
committed_range partition first count =
    if count == 0
    then err (invalid_range "a committed range cannot be empty")
    else (offset_checked_add first count >>= λ _.
        ok (record { partition = partition; first = first; count = count }))

pub record CommittedRecord : Type 0 where
  pub offset : RecordOffset
  pub payload : List ℕ

pub record FetchPage : Type 0 where
  pub partition : PartitionKey
  pub records : List CommittedRecord
  pub next_offset : RecordOffset
