-- ===== src/Core/Publish.antt =====
-- crates/light-stream-core/src/publish.rs: publish requests, their limits, and receipts. A payload
-- byte is a number; `compact_records` only drops spare capacity and is the identity here.
pub mod Limits
use light_stream.Shared.{
  ℕ, ◌+◌, ◌*◌, Option, some, none, List, [], ◌∷◌, nat_eq, ltb, length, checked_add, ◌==◌,
  if◌then◌else◌,
}
use light_stream.Core.Identity.{ClusterId, PartitionKey, ProducerRequestId, BookmarkName}
use light_stream.Core.Error.{DomainError, invalid_payload, Result, ok, err, ◌>>=◌, ok_or}
use light_stream.Core.Cursor.{CommittedRecordRange}
use light_stream.Core.Bookmark.{CommittedBookmark}

abbrev pub max_records_per_publish : ℕ
max_records_per_publish = 128

abbrev pub max_record_bytes : ℕ
max_record_bytes = 1024 * 1024

abbrev pub max_publish_bytes : ℕ
max_publish_bytes = 8 * 1024 * 1024

abbrev pub max_requests_per_replicated_publish : ℕ
max_requests_per_replicated_publish = 128

abbrev pub max_records_per_replicated_publish : ℕ
max_records_per_replicated_publish = 1024

abbrev pub max_replicated_publish_bytes : ℕ
max_replicated_publish_bytes = 8 * 1024 * 1024

abbrev pub Payload : Type 0
Payload = List ℕ

pub record PublishBatch : Type 0 where
  pub cluster : ClusterId
  pub partition : PartitionKey
  pub request : ProducerRequestId
  pub records : List Payload
  pub bookmark : Option BookmarkName

-- The loop of `validate_records`: the running total of the payload bytes.
unfoldable pub validate_each : List Payload → ℕ → Result DomainError ℕ
validate_each [] total = ok total
validate_each (r ∷ rs) total =
    if length r == 0
    then err (invalid_payload "records cannot be empty")
    else if ltb max_record_bytes (length r)
    then err (invalid_payload "record exceeds 1048576 bytes")
    else (ok_or (checked_add total (length r)) (invalid_payload "payload byte count overflow")
        >>= λ t. validate_each rs t)

unfoldable pub validate_records : List Payload → Result DomainError (Unit {0})
validate_records records =
    if length records == 0
    then err (invalid_payload "at least one record is required")
    else if ltb max_records_per_publish (length records)
    then err (invalid_payload "record count exceeds 128")
    else (validate_each records 0 >>= λ total.
        if ltb max_publish_bytes total
        then err (invalid_payload "publish payload exceeds 8388608 bytes")
        else ok tt)

-- PublishBatch::new
unfoldable pub publish_batch :
    ClusterId → PartitionKey → ProducerRequestId → List Payload → Result DomainError PublishBatch
publish_batch cluster partition request records = validate_records records >>= λ _. ok (record {
  cluster = cluster;
  partition = partition;
  request = request;
  records = records;
  bookmark = none;
})

-- PublishBatch::with_bookmark
abbrev pub with_bookmark : PublishBatch → BookmarkName → PublishBatch
with_bookmark b name = record b { bookmark = some name }

-- PublishBatch::payload_bytes
unfoldable pub payload_bytes : List Payload → ℕ
payload_bytes [] = 0
payload_bytes (r ∷ rs) = length r + payload_bytes rs

pub record ReplicatedPublishBatch : Type 0 where
  pub requests : List PublishBatch

-- The loop of `ReplicatedPublishBatch::new`: the record count and the payload bytes.
unfoldable pub count_replicated : List PublishBatch → ℕ → ℕ → Result DomainError (ℕ × ℕ)
count_replicated [] records bytes = ok (records, bytes)
count_replicated (b ∷ bs) records bytes =
    ok_or (checked_add records (length b.records))
      (invalid_payload "replicated publish record count overflow")
    >>= λ records'.
        ok_or (checked_add bytes (payload_bytes b.records))
          (invalid_payload "replicated publish payload byte count overflow")
        >>= λ bytes'. count_replicated bs records' bytes'

-- ReplicatedPublishBatch::new
unfoldable pub replicated_publish_batch :
    List PublishBatch → Result DomainError ReplicatedPublishBatch
replicated_publish_batch requests =
    if length requests == 0
    then err (invalid_payload "at least one publish request is required")
    else if ltb max_requests_per_replicated_publish (length requests)
    then err (invalid_payload "publish request count exceeds 128")
    else (count_replicated requests 0 0 >>= λ totals.
        if ltb max_records_per_replicated_publish totals.0
        then err (invalid_payload "replicated publish record count exceeds 1024")
        else if ltb max_replicated_publish_bytes totals.1
        then err (invalid_payload "replicated publish payload exceeds 8388608 bytes")
        else ok (record { requests = requests }))

pub record PublishProbe : Type 0 where
  pub cluster : ClusterId
  pub partition : PartitionKey
  pub request : ProducerRequestId
  pub records : List Payload

-- PublishProbe::new
unfoldable pub publish_probe :
    ClusterId → PartitionKey → ProducerRequestId → List Payload → Result DomainError PublishProbe
publish_probe cluster partition request records = validate_records records >>= λ _.
    ok (record { cluster = cluster; partition = partition; request = request; records = records })

pub record PublishReceipt : Type 0 where
  pub request : ProducerRequestId
  pub range : CommittedRecordRange
  pub bookmark : Option CommittedBookmark
