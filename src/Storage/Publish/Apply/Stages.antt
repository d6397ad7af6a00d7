-- ===== src/Storage/Publish/Apply/Stages.antt =====
-- The outcome of a publish, followed through the stages of `apply_one`.
use light_stream.Shared.{
  ℕ, ◌+◌, ◌≡◌, subst, inl, inr, Option, some, none, arith, length, ◌==◌, Option-cases,
  if◌then◌else◌, nat_eq, checked_add,
}
use light_stream.Core.Identity.{PartitionKey, partition_key_eq, BookmarkName, RecordOffset}
use light_stream.Core.Error.{DomainError, Result, ok, err, Result-cases}
use light_stream.Core.Cursor.{CommittedRecordRange, committed_range}
use light_stream.Core.Bookmark.{CommittedBookmark}
use light_stream.Core.Publish.{PublishBatch, PublishReceipt}
use light_stream.Storage.Keys.{LogId}
use light_stream.Storage.Retention.{PartitionRetentionState}
use light_stream.Storage.State.{
  GroupDb, GroupState, StoredPublishRejection, stored_rejected, name_conflict, range_rejected,
}
use light_stream.Storage.Publish.{
  PublishApplyTxn, create_publish_bookmark, put_bookmark, bookmark_of_id, publication_of,
}
use light_stream.Storage.Publish.Records.{RecordWrites, write_records}
use light_stream.Storage.Publish.Apply.{
  Prepared, finish, reject, read_next_offset, read_retention, publish_records, publish_bookmark,
}
use light_stream.Storage.Publish.Apply.Offsets.{
  byte_position, stored_offset, stored_position, start, finish-IsUntouched, commit_records_lem,
}

-- What a publish to the partition `p` reads and moves, seen at a partition `q`.
pub record View : Type 0 where
  pub log_id : LogId
  pub start : RecordWrites
  pub first : ℕ
  pub next_offset : ℕ
  pub byte_position : ℕ
  pub stored_offset : ℕ
  pub stored_position : ℕ

abbrev pub view : GroupState → PublishApplyTxn → PartitionKey → PartitionKey → View
view s txn p q = record {
  log_id = txn.log_id;
  start = start txn (byte_position s txn p);
  first = read_next_offset s txn p;
  next_offset = read_next_offset s txn q;
  byte_position = byte_position s txn q;
  stored_offset = stored_offset txn q;
  stored_position = stored_position txn q;
}

-- The log after a publish whose records were written as `w`.
abbrev pub IsAppended :
    PartitionKey → PartitionKey → CommittedRecordRange → RecordWrites → View → View → Type 0
IsAppended p q range w v v' =
    (v'.start.records ≡ w.records)
    × (v'.next_offset ≡ (if q == p then range.first + range.count else v.next_offset))
    × (v'.byte_position ≡ (if q == p then w.next_byte_position else v.byte_position))
    × (v'.stored_offset ≡ (if q == p then range.first + range.count else v.stored_offset))
    × (v'.stored_position ≡ (if q == p then w.next_byte_position else v.stored_position))

abbrev pub IsOutcome :
    GroupDb
    → GroupState
    → ℕ
    → PublishBatch
    → PartitionKey
    → View
    → Result DomainError PublishReceipt
    → View
    → Type 0
IsOutcome db s slot batch q v (ok receipt) v' =
    (receipt.request ≡ batch.request)
    × (committed_range batch.partition v.first (length batch.records) ≡ ok receipt.range)
    × ((w : RecordWrites) × (write_records db s v.log_id batch.partition slot receipt.range.first 0
            batch.records v.start
          ≡ ok w)
        × IsAppended batch.partition q receipt.range w v v')
IsOutcome db s slot batch q v (err e) v' =
    (v'.start.records ≡ v.start.records)
    × (v'.next_offset ≡ v.next_offset)
    × (v'.byte_position ≡ v.byte_position)
    × (v'.stored_offset ≡ v.stored_offset)
    × (v'.stored_position ≡ v.stored_position)

module _ (db : GroupDb) (s : GroupState) (p : Prepared) (q : PartitionKey) where
  abbrev pub Holds : PublishApplyTxn → Result DomainError PublishReceipt → PublishApplyTxn → Type 0
  Holds txn result txn' =
      IsOutcome db s p.first_payload_slot p.batch q (view s txn p.batch.partition q) result
        (view s txn' p.batch.partition q)

  pub rejected_lem :
      (txn : PublishApplyTxn) (r : StoredPublishRejection)
      (result : Result DomainError PublishReceipt) (txn' : PublishApplyTxn)
      → reject db txn p r ≡ ok (result, txn')
      → Holds txn result txn'
  unfolding reject
  rejected_lem txn name_conflict (ok receipt) txn' h = cc
  rejected_lem txn (range_rejected reason) (ok receipt) txn' h = cc
  rejected_lem txn r (err e) txn' h =
      ground (arith, finish-IsUntouched db s txn p (stored_rejected r) q)

  publish_records_lem :
      (txn : PublishApplyTxn) (range : CommittedRecordRange) (retention : PartitionRetentionState)
      (bookmark : Option CommittedBookmark) (result : Result DomainError PublishReceipt)
      (txn' : PublishApplyTxn)
      → committed_range p.batch.partition
          (read_next_offset s txn p.batch.partition)
          (length p.batch.records)
        ≡ ok range
      → retention.next_byte_position ≡ byte_position s txn p.batch.partition
      → publish_records db s txn p range retention bookmark ≡ ok (result, txn')
      → Holds txn result txn'
  unfolding publish_records
  publish_records_lem txn range retention bookmark (ok receipt) txn' c b h =
      elim (Result-cases (
        write_records db s txn.log_id p.batch.partition p.first_payload_slot range.first 0
          p.batch.records (start txn retention.next_byte_position))) [
            | inl (w, e) ↦
                (let m =
                    commit_records_lem db s txn p range retention bookmark w q (ok receipt) txn'
                      (ground arith) in
                  (ground arith, ground arith, (w, ground arith, ground arith)))
            | inr (x, e) ↦ ground arith
          ]
  publish_records_lem txn range retention bookmark (err x) txn' c b h =
      elim (Result-cases (
        write_records db s txn.log_id p.batch.partition p.first_payload_slot range.first 0
          p.batch.records (start txn retention.next_byte_position))) [
            | inl (w, e) ↦
                ground
                  (arith, commit_records_lem db s txn p range retention bookmark w q (err x) txn')
            | inr (x, e) ↦ ground arith
          ]

  failed_lem :
      (txn : PublishApplyTxn) (x : DomainError) (result : Result DomainError PublishReceipt)
      (txn' : PublishApplyTxn)
      → (err x ≡ result) × (finish db txn p (stored_rejected name_conflict) ≡ txn')
      → Holds txn result txn'
  failed_lem txn x (ok receipt) txn' h = cc
  failed_lem txn x (err e) txn' h =
      ground (arith, finish-IsUntouched db s txn p (stored_rejected name_conflict) q)

  pub same_view :
      (txn txn' done : PublishApplyTxn) (result : Result DomainError PublishReceipt)
      → view s txn' p.batch.partition q ≡ view s txn p.batch.partition q
      → Holds txn' result done
      → Holds txn result done
  same_view txn txn' done result e h =
      subst
        (λ v.
          IsOutcome db s p.first_payload_slot p.batch q v result (view s done p.batch.partition q))
        e h

  create_bookmark_view :
      (txn txn' : PublishApplyTxn) (name : BookmarkName) (offset : RecordOffset)
      (created : Result DomainError CommittedBookmark)
      → create_publish_bookmark db s txn p.ordinal p.batch.partition name offset
        ≡ ok (created, txn')
      → view s txn' p.batch.partition q ≡ view s txn p.batch.partition q
  unfolding create_publish_bookmark put_bookmark read_next_offset read_retention
  create_bookmark_view txn txn' name offset created h =
      elim (Option-cases
        (bookmark_of_id s txn (db.publish_bookmark_id txn.log_id (some p.ordinal)))) [
          | inl e ↦ elim (Option-cases (checked_add (publication_of s txn p.batch.partition) 1)) [
            | inl e2 ↦ ground arith
            | inr (x, e2) ↦ ground arith
          ]
          | inr (x, e) ↦ ground arith
        ]

  pub publish_bookmark_lem :
      (txn : PublishApplyTxn) (range : CommittedRecordRange) (retention : PartitionRetentionState)
      (name : Option BookmarkName) (result : Result DomainError PublishReceipt)
      (txn' : PublishApplyTxn)
      → committed_range p.batch.partition
          (read_next_offset s txn p.batch.partition)
          (length p.batch.records)
        ≡ ok range
      → retention.next_byte_position ≡ byte_position s txn p.batch.partition
      → publish_bookmark db s txn p range retention name ≡ ok (result, txn')
      → Holds txn result txn'
  unfolding publish_bookmark
  publish_bookmark_lem txn range retention none result txn' c b h =
      publish_records_lem txn range retention none result txn' c b h
  publish_bookmark_lem txn range retention (some name) result txn' c b h =
      elim (Result-cases (
        create_publish_bookmark db s txn p.ordinal p.batch.partition name
          (range.first + range.count))) [
            | inl ((ok bookmark, t), e) ↦
                (let v =
                    create_bookmark_view txn t name (range.first + range.count) (ok bookmark) e in
                  same_view txn t txn' result v (
                    publish_records_lem t range retention (some bookmark) result txn' (ground arith)
                      (ground arith) (ground arith)))
            | inl ((err x, t), e) ↦
                (let v = create_bookmark_view txn t name (range.first + range.count) (err x) e in
                  same_view txn t txn' result v (failed_lem t x result txn' (ground arith)))
            | inr (x, e) ↦ ground arith
          ]
