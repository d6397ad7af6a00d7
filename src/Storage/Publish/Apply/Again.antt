-- ===== src/Storage/Publish/Apply/Again.antt =====
-- A publish that is answered anew is finished: its outcome is stored, and answers it again.
use light_stream.Shared.{
  ◌<◌, false, ◌∙◌, ap, ℕ, ◌+◌, ◌≡◌, refl, inl, inr, Option, some, none, arith, length, Option-cases,
  set_at, nat_eq, checked_add,
}
use light_stream.Core.Identity.{PartitionKey, partition_key_eq, BookmarkName, RecordOffset}
use light_stream.Core.Error.{bookmark_name_conflict, DomainError, Result, ok, err, Result-cases}
use light_stream.Core.Cursor.{CommittedRecordRange, committed_range}
use light_stream.Core.Bookmark.{CommittedBookmark}
use light_stream.Core.Publish.{PublishBatch, PublishReceipt}
use light_stream.Storage.Keys.{producer_session_key}
use light_stream.Storage.Retention.{PartitionRetentionState}
use light_stream.Storage.State.{
  GroupDb, GroupState, StoredPublishRejection, stored_rejected, name_conflict, range_rejected,
}
use light_stream.Storage.Sessions.{is_expired}
use light_stream.Storage.Publish.{
  PublishApplyTxn, prior_outcome, receipt_key, session, cache_session, cache_name, name_key,
  bookmark_of_name, create_publish_bookmark, bookmark_of_id, publication_of,
}
use light_stream.Storage.Publish.Records.{RecordWrites, write_records}
use light_stream.Storage.Publish.Apply.{
  Prepared, put_records, finish, reject, read_next_offset, read_retention, commit_records,
  publish_records, added_payload_bytes, publish_bookmark, publish_range, publish_offset,
  publish_named, publish_new, apply_one,
}
use light_stream.Storage.Publish.{
  store_outcome, drop_outcome, advance_session, versioned_result, cached_outcome, stored_outcome,
}
use light_stream.Storage.Sessions.{advance_window}
use light_stream.Storage.Sessions.Window.{IsWindow, advance_window_drops}
use light_stream.Storage.State.{
  StoredPublishResult, stored_published, as_result, versioned, VersionedStoredPublishOutcome,
}
use light_stream.Storage.Publish.Apply.Outcome.{range_reason, prepared}
use light_stream.Storage.Publish.Apply.Appends.{IsNew}

-- The outcome is in the cache and in the batch.
abbrev IsStored : PublishApplyTxn → Prepared → VersionedStoredPublishOutcome → Type 0
IsStored txn p stored =
    (txn.outcomes p.key ≡ some stored) × (txn.write.receipts p.key ≡ some (versioned stored))

-- The outcome that answers the request from then on.
abbrev IsFinished : Prepared → Result DomainError PublishReceipt → PublishApplyTxn → Type 0
IsFinished p result txn' =
    (r : StoredPublishResult) × (as_result r ≡ result)
    × IsStored txn' p (record { fingerprint = p.fingerprint; result = r })

-- What keeps the session from dropping the outcome that was just stored.
abbrev IsKept : GroupDb → Prepared → Type 0
IsKept db p =
    (p.key ≡ receipt_key p.batch.partition p.batch.request)
    × (0 < db.receipt_window)
    × IsWindow db.receipt_window p.session
    × (is_expired p.session.highest_sequence p.batch.request.sequence ≡ false)

finish-IsFinished :
    (db : GroupDb) (txn : PublishApplyTxn) (p : Prepared) (r : StoredPublishResult)
    → IsKept db p
    → IsStored (finish db txn p r) p (record { fingerprint = p.fingerprint; result = r })
unfolding finish advance_session drop_outcome store_outcome
finish-IsFinished db txn p r (k, w, v, e) =
    elim (Option-cases (advance_window db.receipt_window p.session p.batch.request.sequence).1) [
      | inl d ↦ ground arith
      | inr (x, d) ↦ ground (
        arith,
        advance_window_drops db.receipt_window p.session p.batch.request.sequence x w v e d,
      )
    ]

create_bookmark_conflict :
    (db : GroupDb) (s : GroupState) (txn txn' : PublishApplyTxn) (ordinal : ℕ)
    (partition : PartitionKey) (name : BookmarkName) (offset : RecordOffset) (x : DomainError)
    → create_publish_bookmark db s txn ordinal partition name offset ≡ ok (err x, txn')
    → x ≡ bookmark_name_conflict
unfolding create_publish_bookmark
create_bookmark_conflict db s txn txn' ordinal partition name offset x h =
    elim (Option-cases (bookmark_of_id s txn (db.publish_bookmark_id txn.log_id (some ordinal)))) [
      | inl e ↦ elim (Option-cases (checked_add (publication_of s txn partition) 1)) [
        | inl e2 ↦ ground arith
        | inr (x, e2) ↦ ground arith
      ]
      | inr (x, e) ↦ ground arith
    ]

module _ (db : GroupDb) (s : GroupState) (p : Prepared) (k : IsKept db p)
    (result : Result DomainError PublishReceipt) (txn' : PublishApplyTxn) where
  rejected-IsFinished :
      (txn : PublishApplyTxn) (r : StoredPublishRejection)
      → reject db txn p r ≡ ok (result, txn')
      → IsFinished p result txn'
  unfolding reject
  rejected-IsFinished txn r h =
      let f = finish-IsFinished db txn p (stored_rejected r) k in
      (stored_rejected r, ground arith, ground arith)

  commit-IsFinished :
      (txn : PublishApplyTxn) (range : CommittedRecordRange) (retention : PartitionRetentionState)
      (bookmark : Option CommittedBookmark) (w : RecordWrites)
      → commit_records db txn p range retention bookmark w ≡ ok (result, txn')
      → IsFinished p result txn'
  unfolding commit_records
  commit-IsFinished txn range retention bookmark w h =
      let r : StoredPublishResult =
        stored_published
          (record { request = p.batch.request; range = range; bookmark = bookmark }) in
      let f = finish-IsFinished db (put_records txn p range retention w) p r k in
      (r, ground arith, ground arith)

  publish_records-IsFinished :
      (txn : PublishApplyTxn) (range : CommittedRecordRange) (retention : PartitionRetentionState)
      (bookmark : Option CommittedBookmark)
      → publish_records db s txn p range retention bookmark ≡ ok (result, txn')
      → IsFinished p result txn'
  unfolding publish_records
  publish_records-IsFinished txn range retention bookmark h =
      elim (Result-cases (
        write_records db s txn.log_id p.batch.partition p.first_payload_slot range.first 0
          p.batch.records
          (record {
            records = txn.write.records;
            payload_owners = txn.write.payload_owners;
            next_byte_position = retention.next_byte_position;
          }))) [
            | inl (w, e) ↦ commit-IsFinished txn range retention bookmark w (ground arith)
            | inr (x, e) ↦ ground arith
          ]

  publish_bookmark-IsFinished :
      (txn : PublishApplyTxn) (range : CommittedRecordRange) (retention : PartitionRetentionState)
      (name : Option BookmarkName)
      → publish_bookmark db s txn p range retention name ≡ ok (result, txn')
      → IsFinished p result txn'
  unfolding publish_bookmark
  publish_bookmark-IsFinished txn range retention none h =
      publish_records-IsFinished txn range retention none h
  publish_bookmark-IsFinished txn range retention (some name) h =
      elim (Result-cases (
        create_publish_bookmark db s txn p.ordinal p.batch.partition name
          (range.first + range.count))) [
            | inl ((ok bookmark, t), e) ↦
                publish_records-IsFinished t range retention (some bookmark) (ground arith)
            | inl ((err x, t), e) ↦
                (let c =
                    create_bookmark_conflict db s txn t p.ordinal p.batch.partition name
                      (range.first + range.count) x e in
                  rejected-IsFinished t name_conflict (unfold reject in ground arith))
            | inr (x, e) ↦ ground arith
          ]

  publish_range-IsFinished :
      (txn : PublishApplyTxn) (range : CommittedRecordRange)
      → publish_range db s txn p range ≡ ok (result, txn')
      → IsFinished p result txn'
  unfolding publish_range
  publish_range-IsFinished txn range h =
      let retention = read_retention s txn p.batch.partition in
      let t : PublishApplyTxn = record txn {
        retentions = set_at txn.retentions p.batch.partition (some retention);
      } in
      elim (Result-cases (added_payload_bytes p.batch.records 0)) [
        | inl (added, e) ↦ elim (Option-cases (checked_add retention.next_byte_position added)) [
          | inl n ↦
              rejected-IsFinished t (range_rejected "partition byte position overflow")
                (ground arith)
          | inr (x, n) ↦
              publish_bookmark-IsFinished t range retention p.batch.bookmark (ground arith)
        ]
        | inr (x, e) ↦ ground arith
      ]

  publish_offset-IsFinished :
      (txn : PublishApplyTxn)
      → publish_offset db s txn p ≡ ok (result, txn')
      → IsFinished p result txn'
  unfolding publish_offset
  publish_offset-IsFinished txn h =
      let first = read_next_offset s txn p.batch.partition in
      let t : PublishApplyTxn = record txn {
        next_offsets = set_at txn.next_offsets p.batch.partition (some first);
      } in
      elim (Result-cases (committed_range p.batch.partition first (length p.batch.records))) [
        | inl (range, e) ↦ publish_range-IsFinished t range (ground arith)
        | inr (x, e) ↦
            (let (reason, r) = range_reason p.batch.partition first (length p.batch.records) x e in
              rejected-IsFinished t (range_rejected reason) (ground arith))
      ]

  publish_named-IsFinished :
      (txn : PublishApplyTxn) (name : Option BookmarkName)
      → publish_named db s txn p name ≡ ok (result, txn')
      → IsFinished p result txn'
  unfolding publish_named
  publish_named-IsFinished txn none h = publish_offset-IsFinished txn h
  publish_named-IsFinished txn (some name) h =
      let key = name_key p.batch.partition name in
      let t = cache_name txn key (bookmark_of_name s txn key) in
      elim (Option-cases (bookmark_of_name s txn key)) [
        | inl e ↦ publish_offset-IsFinished t (ground arith)
        | inr (x, e) ↦ rejected-IsFinished t name_conflict (ground arith)
      ]

apply_one_stored :
    (db : GroupDb) (s : GroupState) (txn : PublishApplyTxn) (ordinal slot : ℕ)
    (batch : PublishBatch) (r : StoredPublishResult)
    → batch.cluster ≡ db.identity.cluster_id
    → txn.outcomes (receipt_key batch.partition batch.request)
      ≡ some (record { fingerprint = db.fingerprint batch; result = r })
    → apply_one db s txn ordinal slot batch ≡ ok (as_result r, txn)
unfolding apply_one prior_outcome versioned_result
apply_one_stored db s txn ordinal slot batch r c o = ground arith

apply_one_later :
    (db : GroupDb) (later : GroupState) (txn : PublishApplyTxn) (ordinal slot : ℕ)
    (batch : PublishBatch) (r : StoredPublishResult)
    → batch.cluster ≡ db.identity.cluster_id
    → txn.outcomes (receipt_key batch.partition batch.request) ≡ none
    → later.receipts (receipt_key batch.partition batch.request)
      ≡ some (versioned (record { fingerprint = db.fingerprint batch; result = r }))
    → apply_one db later txn ordinal slot batch ≡ ok (as_result r, txn)
unfolding apply_one prior_outcome cached_outcome stored_outcome versioned_result
apply_one_later db later txn ordinal slot batch r c n o = ground arith

-- A publish for the group's cluster that is new, and whose sequence number its session has not
-- passed, gets an outcome, accepted or refused, if the window is not empty and the session's window is
-- well formed. A repetition in the same entry gets that outcome again without any change; and so does a
-- repetition in another entry, that has no outcome of its own for the request yet, on any state that
-- holds under the request what the batch of the first entry put there.
pub apply_one_again :
    (db : GroupDb) (s : GroupState) (txn txn' : PublishApplyTxn)
    (ordinal slot later_ordinal later_slot : ℕ) (batch : PublishBatch)
    (result : Result DomainError PublishReceipt)
    → 0 < db.receipt_window
    → IsWindow db.receipt_window
        (session s txn (producer_session_key batch.partition batch.request))
    → is_expired
        (session s txn (producer_session_key batch.partition batch.request)).highest_sequence
        batch.request.sequence
      ≡ false
    → batch.cluster ≡ db.identity.cluster_id
    → IsNew db s txn batch
    → apply_one db s txn ordinal slot batch ≡ ok (result, txn')
    → (apply_one db s txn' later_ordinal later_slot batch ≡ ok (result, txn'))
      × ((later : GroupState) (other : PublishApplyTxn)
          → later.receipts (receipt_key batch.partition batch.request)
            ≡ txn'.write.receipts (receipt_key batch.partition batch.request)
          → other.outcomes (receipt_key batch.partition batch.request) ≡ none
          → apply_one db later other later_ordinal later_slot batch ≡ ok (result, other))
apply_one_again db s txn txn' ordinal slot later_ordinal later_slot batch result w v e c n h =
    let key = producer_session_key batch.partition batch.request in
    let p = prepared db s txn ordinal slot batch in
    let named : publish_named db s (cache_session txn key (session s txn key)) p batch.bookmark
        ≡ ok (result, txn') =
      unfold apply_one publish_new in ground arith in
    let (r, a, (o, b)) =
      publish_named-IsFinished db s p (refl, w, v, e) result txn'
        (cache_session txn key (session s txn key)) batch.bookmark named in
    (
      apply_one_stored db s txn' later_ordinal later_slot batch r c o ∙ ap (λ x. ok (x, txn')) a,
      λ later other k f.
          apply_one_later db later other later_ordinal later_slot batch r c f (k ∙ b)
          ∙ ap (λ x. ok (x, other)) a,
    )
