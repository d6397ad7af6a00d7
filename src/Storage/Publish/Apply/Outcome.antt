-- ===== src/Storage/Publish/Apply/Outcome.antt =====
-- The outcome of a publish, from the next offset on.
use light_stream.Shared.{
  ℕ, ◌≡◌, inl, inr, String, Option, some, none, arith, length, ◌==◌, Option-cases, Bool-cases,
  set_at, nat_eq, checked_add,
}
use light_stream.Core.Identity.{PartitionKey, partition_key_eq, BookmarkName}
use light_stream.Core.Error.{DomainError, invalid_range, Result, ok, err, Result-cases}
use light_stream.Core.Cursor.{offset_checked_add, CommittedRecordRange, committed_range}
use light_stream.Core.Publish.{PublishBatch, PublishReceipt}
use light_stream.Storage.Keys.{producer_session_key}
use light_stream.Storage.State.{GroupDb, GroupState, name_conflict, range_rejected}
use light_stream.Storage.Sessions.{is_expired}
use light_stream.Storage.Publish.{
  PublishApplyTxn, prior_outcome, receipt_key, session, cache_session, cache_name, name_key,
  bookmark_of_name,
}
use light_stream.Storage.Publish.Apply.{
  Prepared, read_next_offset, read_retention, added_payload_bytes, publish_range, publish_offset,
  publish_named, publish_new, apply_one,
}
use light_stream.Storage.Publish.Apply.Stages.{
  view, IsOutcome, Holds, rejected_lem, same_view, publish_bookmark_lem,
}

pub range_reason :
    (p : PartitionKey) (first count : ℕ) (x : DomainError)
    → committed_range p first count ≡ err x
    → (reason : String) × (x ≡ invalid_range reason)
unfolding committed_range offset_checked_add
range_reason p first count x h = elim (Option-cases (checked_add first count)) [
  | inl e ↦ elim (Bool-cases (count == 0)) [
    | inl c ↦ ("a committed range cannot be empty", ground arith)
    | inr c ↦ ("record offset overflow", ground arith)
  ]
  | inr (y, e) ↦ ("a committed range cannot be empty", ground arith)
]

module _ (db : GroupDb) (s : GroupState) (p : Prepared) (q : PartitionKey) where
  retention_view :
      (txn : PublishApplyTxn)
      → view s
          (record txn {
            retentions =
                set_at txn.retentions p.batch.partition
                  (some (read_retention s txn p.batch.partition));
          })
          p.batch.partition
          q
        ≡ view s txn p.batch.partition q
  unfolding read_retention read_next_offset
  retention_view txn = ground arith

  offset_view :
      (txn : PublishApplyTxn)
      → view s
          (record txn {
            next_offsets =
                set_at txn.next_offsets p.batch.partition
                  (some (read_next_offset s txn p.batch.partition));
          })
          p.batch.partition
          q
        ≡ view s txn p.batch.partition q
  unfolding read_retention read_next_offset
  offset_view txn = ground arith

  publish_range_lem :
      (txn : PublishApplyTxn) (range : CommittedRecordRange)
      (result : Result DomainError PublishReceipt) (txn' : PublishApplyTxn)
      → committed_range p.batch.partition
          (read_next_offset s txn p.batch.partition)
          (length p.batch.records)
        ≡ ok range
      → publish_range db s txn p range ≡ ok (result, txn')
      → Holds db s p q txn result txn'
  unfolding publish_range
  publish_range_lem txn range result txn' c h =
      let retention = read_retention s txn p.batch.partition in
      let t : PublishApplyTxn = record txn {
        retentions = set_at txn.retentions p.batch.partition (some retention);
      } in
      let v = retention_view txn in
      elim (Result-cases (added_payload_bytes p.batch.records 0)) [
        | inl (added, e) ↦ elim (Option-cases (checked_add retention.next_byte_position added)) [
          | inl n ↦ same_view db s p q txn t txn' result v (
              rejected_lem db s p q t (range_rejected "partition byte position overflow") result
                txn' (ground arith))
          | inr (x, n) ↦ same_view db s p q txn t txn' result v (
              publish_bookmark_lem db s p q t range retention p.batch.bookmark result txn'
                (ground arith) (ground arith) (ground arith))
        ]
        | inr (x, e) ↦ ground arith
      ]

  publish_offset_lem :
      (txn : PublishApplyTxn) (result : Result DomainError PublishReceipt) (txn' : PublishApplyTxn)
      → publish_offset db s txn p ≡ ok (result, txn')
      → Holds db s p q txn result txn'
  unfolding publish_offset
  publish_offset_lem txn result txn' h =
      let first = read_next_offset s txn p.batch.partition in
      let t : PublishApplyTxn = record txn {
        next_offsets = set_at txn.next_offsets p.batch.partition (some first);
      } in
      let v = offset_view txn in
      elim (Result-cases (committed_range p.batch.partition first (length p.batch.records))) [
        | inl (range, e) ↦
            same_view db s p q txn t txn' result v
              (publish_range_lem t range result txn' (ground arith) (ground arith))
        | inr (x, e) ↦
            (let (reason, r) = range_reason p.batch.partition first (length p.batch.records) x e in
              same_view db s p q txn t txn' result v
                (rejected_lem db s p q t (range_rejected reason) result txn' (ground arith)))
      ]

  publish_named_lem :
      (txn : PublishApplyTxn) (name : Option BookmarkName)
      (result : Result DomainError PublishReceipt) (txn' : PublishApplyTxn)
      → publish_named db s txn p name ≡ ok (result, txn')
      → Holds db s p q txn result txn'
  unfolding publish_named read_next_offset read_retention
  publish_named_lem txn none result txn' h = publish_offset_lem txn result txn' h
  publish_named_lem txn (some name) result txn' h =
      let key = name_key p.batch.partition name in
      let t = cache_name txn key (bookmark_of_name s txn key) in
      elim (Option-cases (bookmark_of_name s txn key)) [
        | inl e ↦ publish_offset_lem t result txn' (ground arith)
        | inr (x, e) ↦ rejected_lem db s p q t name_conflict result txn' (ground arith)
      ]

  publish_new_lem :
      (txn : PublishApplyTxn) (receipt : PublishReceipt) (txn' : PublishApplyTxn)
      → publish_new db s txn p ≡ ok (ok receipt, txn')
      → Holds db s p q txn (ok receipt) txn'
  unfolding publish_new
  publish_new_lem txn receipt txn' h =
      publish_named_lem txn p.batch.bookmark (ok receipt) txn' (ground arith)

  publish_new_err :
      (txn : PublishApplyTxn) (x : DomainError) (txn' : PublishApplyTxn)
      → publish_new db s txn p ≡ ok (err x, txn')
      → Holds db s p q txn (err x) txn'
  unfolding publish_new
  publish_new_err txn x txn' h =
      elim (Bool-cases (is_expired p.session.highest_sequence p.batch.request.sequence)) [
        | inl e ↦ ground arith
        | inr e ↦ publish_named_lem txn p.batch.bookmark (err x) txn' (ground arith)
      ]

-- The stored form of what a publish is prepared with.
abbrev pub prepared : GroupDb → GroupState → PublishApplyTxn → ℕ → ℕ → PublishBatch → Prepared
prepared db s txn ordinal slot batch = record {
  ordinal = ordinal;
  first_payload_slot = slot;
  batch = batch;
  key = receipt_key batch.partition batch.request;
  fingerprint = db.fingerprint batch;
  session_key = producer_session_key batch.partition batch.request;
  session = session s txn (producer_session_key batch.partition batch.request);
}

module _ (db : GroupDb) (s : GroupState) (txn : PublishApplyTxn) (ordinal slot : ℕ)
    (batch : PublishBatch) (q : PartitionKey) where
  pub apply_one_published :
      (receipt : PublishReceipt) (txn' : PublishApplyTxn)
      → apply_one db s txn ordinal slot batch ≡ ok (ok receipt, txn')
      → prior_outcome db s txn batch
          (receipt_key batch.partition batch.request)
          (db.fingerprint batch)
        ≡ none
      → IsOutcome db s slot batch q
          (view s txn batch.partition q)
          (ok receipt)
          (view s txn' batch.partition q)
  unfolding apply_one read_next_offset read_retention
  apply_one_published receipt txn' h n =
      publish_new_lem db s (prepared db s txn ordinal slot batch) q
        (cache_session txn (producer_session_key batch.partition batch.request)
          (session s txn (producer_session_key batch.partition batch.request)))
        receipt txn' (ground arith)

  pub apply_one_refused :
      (x : DomainError) (txn' : PublishApplyTxn)
      → apply_one db s txn ordinal slot batch ≡ ok (err x, txn')
      → IsOutcome db s slot batch q
          (view s txn batch.partition q)
          (err x)
          (view s txn' batch.partition q)
  unfolding apply_one read_next_offset read_retention
  apply_one_refused x txn' h =
      elim (Option-cases (
        prior_outcome db s txn batch (receipt_key batch.partition batch.request)
          (db.fingerprint batch))) [
            | inl e ↦ elim (Bool-cases (batch.cluster == db.identity.cluster_id)) [
              | inl c ↦
                  publish_new_err db s (prepared db s txn ordinal slot batch) q
                    (cache_session txn (producer_session_key batch.partition batch.request)
                      (session s txn (producer_session_key batch.partition batch.request)))
                    x txn' (ground arith)
              | inr c ↦ ground arith
            ]
            | inr (y, e) ↦ ground arith
          ]
