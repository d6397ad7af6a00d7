-- ===== src/Storage/Publish/Apply.antt =====
-- crates/light-stream-storage/src/lib.rs: `PublishApplyTxn::apply_one` and `apply_publish_many`.
pub mod Offsets
pub mod Stages
pub mod Outcome
pub mod Appends
pub mod Again
pub mod Many
pub mod Neighbours
pub mod Summed
pub mod Contiguous
use light_stream.Shared.{
  ℕ, suc, zero, ◌+◌, String, Bool, true, false, Option, some, none, List, [], ◌∷◌, ◌++◌, nat_eq,
  set_at, length, checked_add, ◌==◌, not, if◌then◌else◌,
}
use light_stream.Core.Identity.{PartitionKey, partition_key_eq, BookmarkName}
use light_stream.Core.Error.{
  DomainError, identity_mismatch, receipt_expired, bookmark_name_conflict, invalid_range,
  not_bootstrapped, Result, ok, err, ok_or, IoError, ◌>>=◌,
}
use light_stream.Core.Cursor.{CommittedRecordRange, committed_range}
use light_stream.Core.Bookmark.{CommittedBookmark}
use light_stream.Core.Publish.{Payload, PublishBatch, PublishReceipt, ReplicatedPublishBatch}
use light_stream.Core.Catalog.{BootstrapSpec}
use light_stream.Storage.Keys.{LogId, ReceiptKey, ProducerSessionKey, producer_session_key}
use light_stream.Storage.Result.{ApplyResult, PublishItemOutcome, published_many, rejected}
use light_stream.Storage.State.{
  GroupDb, GroupState, WriteBatch, Applied, SessionState, StoredPublishResult, stored_published,
  stored_rejected, StoredPublishRejection, name_conflict, range_rejected, as_result, control,
  data_group, unwrap_or, no_retention,
}
use light_stream.Storage.Retention.{PartitionRetentionState}
use light_stream.Storage.Sessions.{is_expired}
use light_stream.Storage.Publish.{
  PublishApplyTxn, publish_txn, receipt_key, prior_outcome, session, cache_session, store_outcome,
  advance_session, name_key, bookmark_of_name, cache_name, create_publish_bookmark,
}
use light_stream.Storage.Publish.Records.{RecordWrites, write_records}

abbrev pub Published : Type 0
Published = Result IoError (Result DomainError PublishReceipt × PublishApplyTxn)

-- The stored keys and values of one publish: `stored_receipt_key`, `fingerprint`,
-- `producer_session_key` and `session`.
pub record Prepared : Type 0 where
  pub ordinal : ℕ
  pub first_payload_slot : ℕ
  pub batch : PublishBatch
  pub key : ReceiptKey
  pub fingerprint : String
  pub session_key : ProducerSessionKey
  pub session : SessionState

-- Stores the outcome and advances the session, as every answered publish does.
unfoldable pub finish : GroupDb → PublishApplyTxn → Prepared → StoredPublishResult → PublishApplyTxn
finish db txn p result =
    advance_session db (store_outcome txn p.key p.fingerprint result) p.batch p.session_key
      p.session

unfoldable pub reject : GroupDb → PublishApplyTxn → Prepared → StoredPublishRejection → Published
reject db txn p rejection =
    ok (as_result (stored_rejected rejection), finish db txn p (stored_rejected rejection))

unfoldable pub read_next_offset : GroupState → PublishApplyTxn → PartitionKey → ℕ
read_next_offset s txn partition =
    unwrap_or (txn.next_offsets partition) (unwrap_or (s.next_offset partition) 0)

unfoldable pub read_retention :
    GroupState → PublishApplyTxn → PartitionKey → PartitionRetentionState
read_retention s txn partition =
    unwrap_or (txn.retentions partition) (unwrap_or (s.retention partition) no_retention)

-- `added_payload_bytes`
unfoldable pub added_payload_bytes : List Payload → ℕ → Result IoError ℕ
added_payload_bytes [] total = ok total
added_payload_bytes (r ∷ rs) total =
    ok_or (checked_add total (length r)) "publish payload byte count overflow" >>= λ t.
    added_payload_bytes rs t

-- The puts after the loop: the next offset and the retention state.
abbrev pub put_records :
    PublishApplyTxn
    → Prepared
    → CommittedRecordRange
    → PartitionRetentionState
    → RecordWrites
    → PublishApplyTxn
put_records txn p range retention w =
    let partition = p.batch.partition in
    let next = range.first + range.count in
    let retention' : PartitionRetentionState = record retention {
      next_byte_position = w.next_byte_position;
    } in
    let write = txn.write in
    record txn {
      write = record write {
        records = w.records;
        payload_owners = w.payload_owners;
        next_offset = set_at write.next_offset partition (some next);
        retention = set_at write.retention partition (some retention');
      };
      next_offsets = set_at txn.next_offsets partition (some next);
      retentions = set_at txn.retentions partition (some retention');
    }

-- From these puts on.
unfoldable pub commit_records :
    GroupDb
    → PublishApplyTxn
    → Prepared
    → CommittedRecordRange
    → PartitionRetentionState
    → Option CommittedBookmark
    → RecordWrites
    → Published
commit_records db txn p range retention bookmark w =
    let receipt : PublishReceipt = record {
      request = p.batch.request;
      range = range;
      bookmark = bookmark;
    } in
    ok (ok receipt, finish db (put_records txn p range retention w) p (stored_published receipt))

-- From the loop over the records on.
unfoldable pub publish_records :
    GroupDb
    → GroupState
    → PublishApplyTxn
    → Prepared
    → CommittedRecordRange
    → PartitionRetentionState
    → Option CommittedBookmark
    → Published
publish_records db s txn p range retention bookmark =
    write_records db s txn.log_id p.batch.partition p.first_payload_slot range.first 0
      p.batch.records
      (record {
        records = txn.write.records;
        payload_owners = txn.write.payload_owners;
        next_byte_position = retention.next_byte_position;
      })
    >>= λ w. commit_records db txn p range retention bookmark w

-- From the bookmark on. `range.next()` cannot overflow.
unfoldable pub publish_bookmark :
    GroupDb
    → GroupState
    → PublishApplyTxn
    → Prepared
    → CommittedRecordRange
    → PartitionRetentionState
    → Option BookmarkName
    → Published
publish_bookmark db s txn p range retention none = publish_records db s txn p range retention none
publish_bookmark db s txn p range retention (some name) =
    create_publish_bookmark db s txn p.ordinal p.batch.partition name (range.first + range.count)
    >>= λ (created, txn'). elim created [
      | ok bookmark ↦ publish_records db s txn' p range retention (some bookmark)
      | err e ↦ ok (err e, finish db txn' p (stored_rejected name_conflict))
    ]

-- From the byte count on.
unfoldable pub publish_range :
    GroupDb → GroupState → PublishApplyTxn → Prepared → CommittedRecordRange → Published
publish_range db s txn p range =
    let retention = read_retention s txn p.batch.partition in
    let txn' : PublishApplyTxn = record txn {
      retentions = set_at txn.retentions p.batch.partition (some retention);
    } in
    added_payload_bytes p.batch.records 0 >>= λ added.
    elim (checked_add retention.next_byte_position added) [
      | none ↦ reject db txn' p (range_rejected "partition byte position overflow")
      | some position ↦ publish_bookmark db s txn' p range retention p.batch.bookmark
    ]

-- From the next offset on.
unfoldable pub publish_offset : GroupDb → GroupState → PublishApplyTxn → Prepared → Published
publish_offset db s txn p =
    let first = read_next_offset s txn p.batch.partition in
    let txn' : PublishApplyTxn = record txn {
      next_offsets = set_at txn.next_offsets p.batch.partition (some first);
    } in
    elim (committed_range p.batch.partition first (length p.batch.records)) [
      | ok range ↦ publish_range db s txn' p range
      | err (invalid_range reason) ↦ reject db txn' p (range_rejected reason)
      | err other ↦ err "unexpected range error"
    ]

unfoldable pub publish_named :
    GroupDb → GroupState → PublishApplyTxn → Prepared → Option BookmarkName → Published
publish_named db s txn p none = publish_offset db s txn p
publish_named db s txn p (some name) =
    let key = name_key p.batch.partition name in
    let existing = bookmark_of_name s txn key in
    let txn' = cache_name txn key existing in
    elim existing [ some id ↦ reject db txn' p name_conflict | none ↦ publish_offset db s txn' p ]

unfoldable pub publish_new : GroupDb → GroupState → PublishApplyTxn → Prepared → Published
publish_new db s txn p =
    if is_expired p.session.highest_sequence p.batch.request.sequence
    then ok (err receipt_expired, txn)
    else publish_named db s txn p p.batch.bookmark

-- PublishApplyTxn::apply_one
unfoldable pub apply_one : GroupDb → GroupState → PublishApplyTxn → ℕ → ℕ → PublishBatch → Published
apply_one db s txn ordinal first_payload_slot batch =
    if not (batch.cluster == db.identity.cluster_id)
    then ok (err (identity_mismatch "publish cluster does not match the data group"), txn)
    else (let fingerprint = db.fingerprint batch in
        let key = receipt_key batch.partition batch.request in
        elim (prior_outcome db s txn batch key fingerprint) [
          | some result ↦ ok (result, txn)
          | none ↦
              (let session_key = producer_session_key batch.partition batch.request in
                let current = session s txn session_key in
                publish_new db s (cache_session txn session_key current) (record {
                  ordinal = ordinal;
                  first_payload_slot = first_payload_slot;
                  batch = batch;
                  key = key;
                  fingerprint = fingerprint;
                  session_key = session_key;
                  session = current;
                }))
        ])

-- The loop of `apply_publish_many`: the outcomes so far, and the payload slots that they took.
unfoldable pub publish_each :
    GroupDb
    → GroupState
    → BootstrapSpec
    → PublishApplyTxn
    → ℕ
    → ℕ
    → List PublishBatch
    → Result IoError (List PublishItemOutcome × PublishApplyTxn)
publish_each db s spec txn ordinal slot [] = ok ([], txn)
publish_each db s spec txn ordinal slot (p ∷ ps) =
    (if not (p.cluster == spec.cluster)
      then ok (err (identity_mismatch "publish cluster does not match the data group"), txn)
      else apply_one db s txn ordinal slot p)
    >>= λ (result, txn').
        ok_or (checked_add slot (length p.records)) "publish payload slot overflow" >>= λ slot'.
        publish_each db s spec txn' (suc ordinal) slot' ps >>= λ (outcomes, done).
        ok (record { request = p.request; result = result } ∷ outcomes, done)

unfoldable pub apply_publish_many :
    GroupDb → GroupState → LogId → ReplicatedPublishBatch → WriteBatch → Applied ApplyResult
apply_publish_many db s log_id batch write = elim db.identity.kind [
  | control ↦ ok (rejected (identity_mismatch "publish reached the control group"), write)
  | data_group ↦ elim s.bootstrap [
    | none ↦ ok (rejected not_bootstrapped, write)
    | some spec ↦
        publish_each db s spec (publish_txn log_id write) 0 0 batch.requests >>= λ (outcomes, txn).
        ok (published_many (record { outcomes = outcomes }), txn.write)
  ]
]
