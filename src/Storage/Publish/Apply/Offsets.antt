-- ===== src/Storage/Publish/Apply/Offsets.antt =====
-- What the puts after the loop over the records leave of the offsets, the byte positions and the
-- records.
use light_stream.Shared.{
  ℕ, ◌+◌, ◌≡◌, inl, inr, Option, arith, ◌==◌, Option-cases, if◌then◌else◌, nat_eq,
}
use light_stream.Core.Identity.{PartitionKey, partition_key_eq}
use light_stream.Core.Error.{DomainError, Result, ok}
use light_stream.Core.Cursor.{CommittedRecordRange}
use light_stream.Core.Bookmark.{CommittedBookmark}
use light_stream.Core.Publish.{PublishBatch, PublishReceipt}
use light_stream.Storage.Retention.{PartitionRetentionState}
use light_stream.Storage.State.{GroupDb, GroupState, StoredPublishResult, unwrap_or, no_retention}
use light_stream.Storage.Sessions.{advance_window}
use light_stream.Storage.Publish.{PublishApplyTxn, advance_session, drop_outcome, store_outcome}
use light_stream.Storage.Publish.Records.{RecordWrites}
use light_stream.Storage.Publish.Apply.{
  Prepared, finish, read_next_offset, read_retention, commit_records,
}

abbrev pub byte_position : GroupState → PublishApplyTxn → PartitionKey → ℕ
byte_position s txn q = (read_retention s txn q).next_byte_position

-- The next offset of a partition in the batch.
abbrev pub stored_offset : PublishApplyTxn → PartitionKey → ℕ
stored_offset txn q = unwrap_or (txn.write.next_offset q) 0

-- The byte position of a partition in the batch.
abbrev pub stored_position : PublishApplyTxn → PartitionKey → ℕ
stored_position txn q = (unwrap_or (txn.write.retention q) no_retention).next_byte_position

-- Where the loop over the records of a publish starts.
abbrev pub start : PublishApplyTxn → ℕ → RecordWrites
start txn position = record {
  records = txn.write.records;
  payload_owners = txn.write.payload_owners;
  next_byte_position = position;
}

-- The log of a partition is the same after as before.
abbrev pub IsUntouched : GroupState → PublishApplyTxn → PublishApplyTxn → PartitionKey → Type 0
IsUntouched s txn txn' q =
    (txn'.write.records ≡ txn.write.records)
    × (read_next_offset s txn' q ≡ read_next_offset s txn q)
    × (byte_position s txn' q ≡ byte_position s txn q)
    × (stored_offset txn' q ≡ stored_offset txn q)
    × (stored_position txn' q ≡ stored_position txn q)

pub finish-IsUntouched :
    (db : GroupDb) (s : GroupState) (txn : PublishApplyTxn) (p : Prepared) (r : StoredPublishResult)
    (q : PartitionKey)
    → IsUntouched s txn (finish db txn p r) q
unfolding finish advance_session drop_outcome store_outcome read_next_offset read_retention
finish-IsUntouched db s txn p r q =
    elim (Option-cases (advance_window db.receipt_window p.session p.batch.request.sequence).1) [
      | inl e ↦ ground arith
      | inr (x, e) ↦ ground arith
    ]

-- The writes `w` of the loop over the records are the records of the partition, and its next offset
-- and byte position have moved past them.
abbrev pub IsAdvanced :
    GroupState
    → PublishApplyTxn
    → PublishApplyTxn
    → PublishBatch
    → CommittedRecordRange
    → RecordWrites
    → PartitionKey
    → Type 0
IsAdvanced s txn txn' batch range w q =
    (txn'.write.records ≡ w.records)
    × (read_next_offset s txn' q
        ≡ (if q == batch.partition then range.first + range.count else read_next_offset s txn q))
    × (byte_position s txn' q
        ≡ (if q == batch.partition then w.next_byte_position else byte_position s txn q))
    × (stored_offset txn' q
        ≡ (if q == batch.partition then range.first + range.count else stored_offset txn q))
    × (stored_position txn' q
        ≡ (if q == batch.partition then w.next_byte_position else stored_position txn q))

pub commit_records_lem :
    (db : GroupDb) (s : GroupState) (txn : PublishApplyTxn) (p : Prepared)
    (range : CommittedRecordRange) (retention : PartitionRetentionState)
    (bookmark : Option CommittedBookmark) (w : RecordWrites) (q : PartitionKey)
    (result : Result DomainError PublishReceipt) (txn' : PublishApplyTxn)
    → commit_records db txn p range retention bookmark w ≡ ok (result, txn')
    → (result ≡ ok (record { request = p.batch.request; range = range; bookmark = bookmark }))
      × IsAdvanced s txn txn' p.batch range w q
unfolding commit_records finish advance_session drop_outcome store_outcome read_next_offset
    read_retention
commit_records_lem db s txn p range retention bookmark w q result txn' h =
    elim (Option-cases (advance_window db.receipt_window p.session p.batch.request.sequence).1) [
      | inl e ↦ ground arith
      | inr (x, e) ↦ ground arith
    ]
