-- ===== src/Storage/Publish/Apply/Appends.antt =====
-- What a publish appends to the log of its partition.
use light_stream.Shared.{
  ℕ, suc, ◌+◌, ◌<◌, ◌≡◌, inl, inr, some, none, arith, length, get_elem?, take, ◌==◌, if◌then◌else◌,
  nat_eq,
}
use light_stream.Core.Identity.{PartitionKey, partition_key_eq}
use light_stream.Core.Error.{DomainError, ok, err}
use light_stream.Core.Cursor.{CommittedRecordRange, committed_range, offset_checked_add}
use light_stream.Core.Publish.{Payload, PublishBatch, PublishReceipt, payload_bytes}
use light_stream.Storage.Keys.{RecordKey}
use light_stream.Storage.State.{GroupDb, GroupState}
use light_stream.Storage.Publish.{PublishApplyTxn, prior_outcome, receipt_key}
use light_stream.Storage.Publish.Records.{record_key}
use light_stream.Storage.Publish.Records.Written.{
  stored_record, IsOutside, write_records_bytes, write_records_others, write_records_stored,
}
use light_stream.Storage.Publish.Apply.{apply_one, read_next_offset}
use light_stream.Storage.Publish.Apply.Offsets.{
  byte_position, stored_offset, stored_position, IsUntouched,
}
use light_stream.Storage.Publish.Apply.Outcome.{apply_one_published, apply_one_refused}

committed_range_lem :
    (p : PartitionKey) (first count : ℕ) (range : CommittedRecordRange)
    → committed_range p first count ≡ ok range
    → (range ≡ record { partition = p; first = first; count = count }) × (0 < count)
unfolding committed_range offset_checked_add
committed_range_lem p first count range h = ground arith

-- The request of a publish has no outcome yet.
abbrev pub IsNew : GroupDb → GroupState → PublishApplyTxn → PublishBatch → Type 0
IsNew db s txn batch =
    prior_outcome db s txn batch (receipt_key batch.partition batch.request) (db.fingerprint batch)
    ≡ none

module _ (db : GroupDb) (s : GroupState) (txn txn' : PublishApplyTxn) (ordinal slot : ℕ)
    (batch : PublishBatch) where
  -- A new publish that is accepted gets a receipt for its request: the range of its records begins
  -- at the next offset of its partition and counts them. The next offset then lies after the range,
  -- and the byte position has grown by the bytes of the payloads, in the transaction and in the batch
  -- that the entry writes; the next offset and the byte position of any other partition are as before
  -- in both.
  pub apply_one_offsets :
      (receipt : PublishReceipt) (q : PartitionKey)
      → apply_one db s txn ordinal slot batch ≡ ok (ok receipt, txn')
      → IsNew db s txn batch
      → (receipt.request ≡ batch.request)
        × (receipt.range ≡ record {
          partition = batch.partition;
          first = read_next_offset s txn batch.partition;
          count = length batch.records;
        })
        × (0 < length batch.records)
        × (read_next_offset s txn' q ≡ (
            if q == batch.partition
            then read_next_offset s txn batch.partition + length batch.records
            else read_next_offset s txn q))
        × (byte_position s txn' q ≡ (
            if q == batch.partition
            then byte_position s txn batch.partition + payload_bytes batch.records
            else byte_position s txn q))
        × (stored_offset txn' q ≡ (
            if q == batch.partition
            then read_next_offset s txn batch.partition + length batch.records
            else stored_offset txn q))
        × (stored_position txn' q ≡ (
            if q == batch.partition
            then byte_position s txn batch.partition + payload_bytes batch.records
            else stored_position txn q))
  apply_one_offsets receipt q h n =
      let (request, c, (w, e, a)) =
        apply_one_published db s txn ordinal slot batch q receipt txn' h n in
      let (r, pos) =
        committed_range_lem batch.partition (read_next_offset s txn batch.partition)
          (length batch.records) receipt.range c in
      let bytes =
        write_records_bytes db s txn.log_id batch.partition slot receipt.range.first 0 batch.records
          _ w e in
      ground arith

  -- The record of each payload of a new publish that is accepted stands at its place in the range
  -- of the receipt: it names the payload of its slot in the entry, its length, and the byte position
  -- at which it ends, the byte position of the partition before the publish and the bytes of the
  -- payloads of the publish up to it. The byte position that the batch stores for the partition is the one
  -- at which the last payload ends.
  pub apply_one_stores :
      (receipt : PublishReceipt) (i : ℕ) (r : Payload)
      → apply_one db s txn ordinal slot batch ≡ ok (ok receipt, txn')
      → IsNew db s txn batch
      → get_elem? batch.records i ≡ some r
      → (txn'.write.records (record_key batch.partition (receipt.range.first + i))
          ≡ some (
              stored_record txn.log_id
                (slot + i)
                r
                (byte_position s txn batch.partition + payload_bytes (take (suc i) batch.records))))
        × (stored_position txn' batch.partition
            ≡ byte_position s txn batch.partition + payload_bytes batch.records)
  apply_one_stores receipt i r h n g =
      let (request, c, (w, e, a)) =
        apply_one_published db s txn ordinal slot batch batch.partition receipt txn' h n in
      let stored =
        write_records_stored db s txn.log_id batch.partition slot receipt.range.first 0
          batch.records _ w i r e g in
      let bytes =
        write_records_bytes db s txn.log_id batch.partition slot receipt.range.first 0 batch.records
          _ w e in
      (ground arith, ground arith)

  -- A new publish that is accepted leaves every record outside the range of its receipt as it was.
  pub apply_one_others :
      (receipt : PublishReceipt) (k : RecordKey)
      → apply_one db s txn ordinal slot batch ≡ ok (ok receipt, txn')
      → IsNew db s txn batch
      → IsOutside batch.partition receipt.range.first receipt.range.count k
      → txn'.write.records k ≡ txn.write.records k
  apply_one_others receipt k h n o =
      let (request, c, (w, e, a)) =
        apply_one_published db s txn ordinal slot batch batch.partition receipt txn' h n in
      let (r, pos) =
        committed_range_lem batch.partition (read_next_offset s txn batch.partition)
          (length batch.records) receipt.range c in
      let others =
        write_records_others db s txn.log_id batch.partition slot receipt.range.first 0
          batch.records _ w k e
          (elim o [
            | inl x ↦ inl x
            | inr (inl x) ↦ inr (inl (ground arith))
            | inr (inr x) ↦ inr (inr (ground arith))
          ]) in
      ground arith

  -- A publish that is refused leaves every record of the batch, the next offset of every partition,
  -- and its byte position, in the transaction and in the batch, as they were.
  pub apply_one_rejects :
      (x : DomainError) (q : PartitionKey)
      → apply_one db s txn ordinal slot batch ≡ ok (err x, txn')
      → IsUntouched s txn txn' q
  apply_one_rejects x q h = apply_one_refused db s txn ordinal slot batch q x txn' h
