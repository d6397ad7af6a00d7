-- ===== src/Storage/Publish.antt =====
-- crates/light-stream-storage/src/lib.rs: `PublishApplyTxn`, the publishes of one entry. It reads
-- the state as it was before the entry, and what the entry has written through its own caches.
pub mod Records
pub mod Apply
pub mod Replay
use light_stream.Shared.{
  ℕ, String, Bool, true, false, Option, some, none, ◌==◌, nat_eq, string_eq, set_at, checked_add,
  if◌then◌else◌,
}
use light_stream.Core.Identity.{
  PartitionKey, partition_key_eq, BookmarkName, BookmarkId, RecordOffset, ProducerRequestId,
}
use light_stream.Core.Error.{
  DomainError, receipt_conflict, bookmark_name_conflict, Result, ok, err, IoError,
}
use light_stream.Core.Cursor.{CommittedCursor}
use light_stream.Core.Bookmark.{CommittedBookmark, published_bookmark}
use light_stream.Core.Publish.{PublishBatch, PublishReceipt}
use light_stream.Storage.Keys.{
  LogId, ReceiptKey, receipt_key_eq, ProducerSessionKey, producer_session_key_eq,
  producer_session_key, BookmarkNameKey, bookmark_name_key_eq, bookmark_order_key_eq,
}
use light_stream.Storage.State.{
  GroupDb, GroupState, WriteBatch, SessionState, no_session, StoredPublishOutcome, legacy,
  versioned, StoredReceipt, VersionedStoredPublishOutcome, StoredPublishResult, as_result,
  unwrap_or,
}
use light_stream.Storage.Retention.{PartitionRetentionState}
use light_stream.Storage.Sessions.{advance_window}

-- A cache holds what was read or written under a key.
pub record PublishApplyTxn : Type 0 where
  pub log_id : LogId
  pub write : WriteBatch
  pub next_offsets : PartitionKey → Option ℕ
  pub retentions : PartitionKey → Option PartitionRetentionState
  pub sessions : ProducerSessionKey → Option SessionState
  pub outcomes : ReceiptKey → Option VersionedStoredPublishOutcome
  pub bookmark_names : BookmarkNameKey → Option (Option BookmarkId)
  pub bookmark_ids : BookmarkId → Option (Option CommittedBookmark)
  pub bookmark_publications : PartitionKey → Option ℕ

-- PublishApplyTxn::new
abbrev pub publish_txn : LogId → WriteBatch → PublishApplyTxn
publish_txn log_id write = record {
  log_id = log_id;
  write = write;
  next_offsets = λ k. none;
  retentions = λ k. none;
  sessions = λ k. none;
  outcomes = λ k. none;
  bookmark_names = λ k. none;
  bookmark_ids = λ k. none;
  bookmark_publications = λ k. none;
}

abbrev pub receipt_key : PartitionKey → ProducerRequestId → ReceiptKey
receipt_key partition request = record { partition = partition; request = request }

same_bookmark : Option CommittedBookmark → Option BookmarkName → Bool
same_bookmark (some b) (some name) = b.name == name
same_bookmark none none = true
same_bookmark _ _ = false

unfoldable pub versioned_result :
    VersionedStoredPublishOutcome → String → Result DomainError PublishReceipt
versioned_result stored fingerprint =
    if stored.fingerprint == fingerprint then as_result stored.result else err receipt_conflict

unfoldable pub legacy_result :
    GroupDb → StoredReceipt → PublishBatch → Result DomainError PublishReceipt
unfolding same_bookmark
legacy_result db stored batch =
    if stored.fingerprint == db.legacy_fingerprint batch
    then (if same_bookmark stored.receipt.bookmark batch.bookmark
        then ok stored.receipt
        else err receipt_conflict)
    else err receipt_conflict

unfoldable pub stored_outcome :
    GroupDb
    → Option StoredPublishOutcome
    → PublishBatch
    → String
    → Option (Result DomainError PublishReceipt)
stored_outcome db none batch fingerprint = none
stored_outcome db (some (versioned v)) batch fingerprint = some (versioned_result v fingerprint)
stored_outcome db (some (legacy l)) batch fingerprint = some (legacy_result db l batch)

unfoldable pub cached_outcome :
    GroupDb
    → GroupState
    → Option VersionedStoredPublishOutcome
    → PublishBatch
    → ReceiptKey
    → String
    → Option (Result DomainError PublishReceipt)
unfolding stored_outcome
cached_outcome db s (some v) batch key fingerprint = some (versioned_result v fingerprint)
cached_outcome db s none batch key fingerprint =
    stored_outcome db (s.receipts key) batch fingerprint

unfoldable pub prior_outcome :
    GroupDb
    → GroupState
    → PublishApplyTxn
    → PublishBatch
    → ReceiptKey
    → String
    → Option (Result DomainError PublishReceipt)
unfolding cached_outcome
prior_outcome db s txn batch key fingerprint =
    cached_outcome db s (txn.outcomes key) batch key fingerprint

-- What `session` reads, and caches.
unfoldable pub session : GroupState → PublishApplyTxn → ProducerSessionKey → SessionState
session s txn key = unwrap_or (txn.sessions key) (unwrap_or (s.sessions key) no_session)

abbrev pub cache_session : PublishApplyTxn → ProducerSessionKey → SessionState → PublishApplyTxn
cache_session txn key value = record txn { sessions = set_at txn.sessions key (some value) }

unfoldable pub store_outcome :
    PublishApplyTxn → ReceiptKey → String → StoredPublishResult → PublishApplyTxn
store_outcome txn key fingerprint result =
    let stored : VersionedStoredPublishOutcome = record {
      fingerprint = fingerprint;
      result = result;
    } in
    let write = txn.write in
    record txn {
      write = record write { receipts = set_at write.receipts key (some (versioned stored)) };
      outcomes = set_at txn.outcomes key (some stored);
    }

abbrev pub expired_key : PublishBatch → ℕ → ReceiptKey
expired_key batch expired =
    let request = batch.request in
    receipt_key batch.partition (record request { sequence = expired })

unfoldable pub drop_outcome : PublishBatch → Option ℕ → PublishApplyTxn → PublishApplyTxn
drop_outcome batch none txn = txn
drop_outcome batch (some expired) txn =
    let write = txn.write in
    record txn {
      write = record write { receipts = set_at write.receipts (expired_key batch expired) none };
      outcomes = set_at txn.outcomes (expired_key batch expired) none;
    }

unfoldable pub advance_session :
    GroupDb → PublishApplyTxn → PublishBatch → ProducerSessionKey → SessionState → PublishApplyTxn
unfolding drop_outcome
advance_session db txn batch key value =
    let advanced = advance_window db.receipt_window value batch.request.sequence in
    let txn' = drop_outcome batch advanced.1 txn in
    let write = txn'.write in
    record txn' {
      write = record write { sessions = set_at write.sessions key (some advanced.0) };
      sessions = set_at txn'.sessions key (some advanced.0);
    }

abbrev pub name_key : PartitionKey → BookmarkName → BookmarkNameKey
name_key partition name = record { partition = partition; name = name }

-- What `bookmark_name_is_used` reads, and caches.
unfoldable pub bookmark_of_name : GroupState → PublishApplyTxn → BookmarkNameKey → Option BookmarkId
bookmark_of_name s txn key = unwrap_or (txn.bookmark_names key) (s.bookmark_names key)

abbrev pub cache_name : PublishApplyTxn → BookmarkNameKey → Option BookmarkId → PublishApplyTxn
cache_name txn key value = record txn {
  bookmark_names = set_at txn.bookmark_names key (some value);
}

-- What `create_publish_bookmark` reads, and caches.
unfoldable pub bookmark_of_id : GroupState → PublishApplyTxn → BookmarkId → Option CommittedBookmark
bookmark_of_id s txn id = unwrap_or (txn.bookmark_ids id) (s.bookmark_ids id)

unfoldable pub publication_of : GroupState → PublishApplyTxn → PartitionKey → ℕ
publication_of s txn partition =
    unwrap_or (txn.bookmark_publications partition)
      (unwrap_or (s.bookmark_publications partition) 0)

-- The puts of `create_publish_bookmark`.
unfoldable pub put_bookmark : PublishApplyTxn → PartitionKey → CommittedBookmark → PublishApplyTxn
put_bookmark txn partition bookmark =
    let write = txn.write in
    let key = name_key partition bookmark.name in
    record txn {
      write = record write {
        bookmark_ids = set_at write.bookmark_ids bookmark.id (some bookmark);
        bookmark_names = set_at write.bookmark_names key (some bookmark.id);
        bookmark_order =
            set_at write.bookmark_order
              (record { partition = partition; publication = bookmark.publication })
              (some bookmark);
        bookmark_publications =
            set_at write.bookmark_publications partition (some bookmark.publication);
      };
      bookmark_names = set_at txn.bookmark_names key (some (some bookmark.id));
      bookmark_ids = set_at txn.bookmark_ids bookmark.id (some (some bookmark));
      bookmark_publications =
          set_at txn.bookmark_publications partition (some bookmark.publication);
    }

-- The caches of what was read need no entry of their own before the put: it overwrites them.
unfoldable pub create_publish_bookmark :
    GroupDb
    → GroupState
    → PublishApplyTxn
    → ℕ
    → PartitionKey
    → BookmarkName
    → RecordOffset
    → Result IoError (Result DomainError CommittedBookmark × PublishApplyTxn)
create_publish_bookmark db s txn ordinal partition name offset =
    let id = db.publish_bookmark_id txn.log_id (some ordinal) in
    elim (bookmark_of_id s txn id) [
      | some existing ↦ ok (
        err bookmark_name_conflict,
        record txn { bookmark_ids = set_at txn.bookmark_ids id (some (some existing)) },
      )
      | none ↦ elim (checked_add (publication_of s txn partition) 1) [
        | none ↦ err "bookmark publication sequence overflow"
        | some publication ↦
            (let cursor : CommittedCursor = record {
              cluster = db.identity.cluster_id;
              partition = partition;
              next_offset = offset;
            } in
              let bookmark = published_bookmark id name cursor publication in
              ok (ok bookmark, put_bookmark txn partition bookmark))
      ]
    ]
