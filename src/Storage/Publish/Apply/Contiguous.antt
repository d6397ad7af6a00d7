-- ===== src/Storage/Publish/Apply/Contiguous.antt =====
-- The records of a partition have no gap: a whole entry of publishes.
use light_stream.Shared.{
  ℕ, ◌+◌, ◌≤◌, ◌<◌, ◌≡◌, ◌⊎◌, refl, ap, sym, subst, ◌∙◌, ◌-◌, inl, inr, Bool, true, false, Option,
  none, some, arith, nat_eq, Bool-cases, Option-cases, length, get_elem-some, leb, ltb, ◌&&◌,
}
use light_stream.Core.Identity.{PartitionKey, partition_key_eq}
use light_stream.Core.Error.{DomainError, Result, ok, err}
use light_stream.Core.Publish.{PublishBatch, PublishReceipt, ReplicatedPublishBatch}
use light_stream.Storage.Keys.{LogId, RecordKey}
use light_stream.Storage.Result.{ApplyResult}
use light_stream.Storage.State.{GroupDb, GroupState, StoredRecord, unwrap_or}
use light_stream.Storage.Publish.{PublishApplyTxn, publish_txn, prior_outcome, receipt_key}
use light_stream.Storage.Publish.Records.{record_key}
use light_stream.Storage.Publish.Records.Written.{IsOutside}
use light_stream.Core.Cursor.{CommittedRecordRange}
use light_stream.Storage.Publish.Apply.{apply_one, apply_publish_many, read_next_offset}
use light_stream.Storage.Publish.Apply.Many.{apply_publish_many_keeps}
use light_stream.Storage.Publish.Apply.Offsets.{stored_offset}
use light_stream.Storage.Publish.Apply.Outcome.{apply_one_published, apply_one_refused}
use light_stream.Storage.Publish.Apply.Appends.{
  IsNew, apply_one_offsets, apply_one_stores, apply_one_others,
}

abbrev is_some : Option StoredRecord → Bool
is_some (some r) = true
is_some none = false

-- There is a record at a key exactly from the floor of its partition on, up to the next offset.
abbrev IsRecorded : ℕ → ℕ → Option StoredRecord → RecordKey → Type 0
IsRecorded floor next record_at k =
    (is_some record_at ≡ (leb floor k.offset && ltb k.offset next)) × (floor ≤ next)

-- The records of a state have no gap above a floor, which is not above the next offset.
abbrev pub AreContiguous : (PartitionKey → ℕ) → GroupState → Type 0
AreContiguous floor s =
    (k : RecordKey)
    → IsRecorded (floor k.partition) (unwrap_or (s.next_offset k.partition) 0) (s.records k) k

-- What the publishes of one entry keep at a key: the batch agrees with the caches, too.
abbrev IsKeptAt : GroupState → PublishApplyTxn → ℕ → RecordKey → Type 0
IsKeptAt s txn floor k =
    IsRecorded floor (read_next_offset s txn k.partition) (txn.write.records k) k
    × (stored_offset txn k.partition ≡ read_next_offset s txn k.partition)

module _ (db : GroupDb) (s : GroupState) (k : RecordKey) (floor : ℕ) where
  -- The record of a key in the range of a new receipt, and any other.
  published_record :
      (txn txn' : PublishApplyTxn) (ordinal slot : ℕ) (batch : PublishBatch)
      (receipt : PublishReceipt)
      → apply_one db s txn ordinal slot batch ≡ ok (ok receipt, txn')
      → IsNew db s txn batch
      → receipt.range.first ≡ read_next_offset s txn batch.partition
      → receipt.range.count ≡ length batch.records
      → (k.partition ≡ batch.partition
          × receipt.range.first ≤ k.offset
          × k.offset < receipt.range.first + length batch.records
          × is_some (txn'.write.records k) ≡ true)
        ⊎ (IsOutside batch.partition receipt.range.first receipt.range.count k
            × (txn'.write.records k ≡ txn.write.records k))
  published_record txn txn' ordinal slot batch receipt h n f c =
      elim (partition_key_eq.decide_eq k.partition batch.partition) [
        | no d ↦
            inr (inl d, apply_one_others db s txn txn' ordinal slot batch receipt k h n (inl d))
        | yes e ↦ elim (Bool-cases (ltb k.offset receipt.range.first)) [
          | inl b ↦
              (let o : IsOutside batch.partition receipt.range.first receipt.range.count k =
                  inr (inl (ground arith)) in
                inr (o, apply_one_others db s txn txn' ordinal slot batch receipt k h n o))
          | inr b ↦ elim (Bool-cases (ltb k.offset (receipt.range.first + receipt.range.count))) [
            | inr d ↦
                (let o : IsOutside batch.partition receipt.range.first receipt.range.count k =
                    inr (inr (ground arith)) in
                  inr (o, apply_one_others db s txn txn' ordinal slot batch receipt k h n o))
            | inl d ↦
                (let i = k.offset - receipt.range.first in
                  let (r, g) = get_elem-some batch.records i (ground arith) in
                  let stored =
                    (apply_one_stores db s txn txn' ordinal slot batch receipt i r h n g).0 in
                  let same : k ≡ record_key batch.partition (receipt.range.first + i) =
                    ground arith in
                  inl (
                    e,
                    ground arith,
                    ground arith,
                    ap (λ x. is_some (txn'.write.records x)) same ∙ ap is_some stored,
                  ))
          ]
        ]
      ]

  published-IsKeptAt :
      (txn txn' : PublishApplyTxn) (ordinal slot : ℕ) (batch : PublishBatch)
      (receipt : PublishReceipt)
      → apply_one db s txn ordinal slot batch ≡ ok (ok receipt, txn')
      → IsNew db s txn batch
      → IsKeptAt s txn floor k
      → IsKeptAt s txn' floor k
  published-IsKeptAt txn txn' ordinal slot batch receipt h n v =
      let (request, range, pos, next, bytes, kept, position) =
        apply_one_offsets db s txn txn' ordinal slot batch receipt k.partition h n in
      let (_, _, (w, _, (_, _, _, stored, _))) =
        apply_one_published db s txn ordinal slot batch k.partition receipt txn' h n in
      let f : receipt.range.first ≡ read_next_offset s txn batch.partition =
        ap (λ (r : CommittedRecordRange). r.first) range in
      let c : receipt.range.count ≡ length batch.records =
        ap (λ (r : CommittedRecordRange). r.count) range in
      elim (published_record txn txn' ordinal slot batch receipt h n f c) [
        | inl (e, a, b, d) ↦
            (let same : read_next_offset s txn k.partition
                  ≡ read_next_offset s txn batch.partition =
                ap (λ q. read_next_offset s txn q) e in
              ground arith)
        | inr (o, d) ↦ ground arith
      ]

  one-IsKeptAt :
      (txn txn' : PublishApplyTxn) (ordinal slot : ℕ) (batch : PublishBatch)
      (result : Result DomainError PublishReceipt)
      → apply_one db s txn ordinal slot batch ≡ ok (result, txn')
      → IsKeptAt s txn floor k
      → IsKeptAt s txn' floor k
  one-IsKeptAt txn txn' ordinal slot batch (err x) h v =
      let (records, next, bytes, stored, position) =
        apply_one_refused db s txn ordinal slot batch k.partition x txn' h in
      let at : txn'.write.records k ≡ txn.write.records k = ap (λ f. f k) records in ground arith
  one-IsKeptAt txn txn' ordinal slot batch (ok receipt) h v =
      elim (Option-cases (
        prior_outcome db s txn batch (receipt_key batch.partition batch.request)
          (db.fingerprint batch))) [
            | inl n ↦ published-IsKeptAt txn txn' ordinal slot batch receipt h n v
            | inr (r, n) ↦
                (let same : txn' ≡ txn = unfold apply_one in ground arith in
                  subst (λ t. IsKeptAt s t floor k) (sym same) v)
          ]

begun-IsKeptAt :
    (s : GroupState) (log : LogId) (floor : ℕ) (k : RecordKey)
    → IsRecorded floor (unwrap_or (s.next_offset k.partition) 0) (s.records k) k
    → IsKeptAt s (publish_txn log s) floor k
unfolding read_next_offset
begun-IsKeptAt s log floor k v = (v, refl)

written-IsRecorded :
    (s : GroupState) (txn : PublishApplyTxn) (floor : ℕ) (k : RecordKey)
    → IsKeptAt s txn floor k
    → IsRecorded floor (unwrap_or (txn.write.next_offset k.partition) 0) (txn.write.records k) k
written-IsRecorded s txn floor k (v, e) =
    subst (λ n. IsRecorded floor n (txn.write.records k) k) (sym e) v

-- Publishes of one entry to a data group keep the log without gaps. If every partition has a record
-- at exactly the offsets from its floor up to its next offset, the floor not being above it, then so
-- it does with the same floors in the batch that an entry of several publishes leaves, when that
-- begins on the state itself, whatever each publish was answered.
pub apply_publish_many-AreContiguous :
    (db : GroupDb) (s t : GroupState) (log : LogId) (batch : ReplicatedPublishBatch)
    (result : ApplyResult) (floor : PartitionKey → ℕ)
    → AreContiguous floor s
    → apply_publish_many db s log batch s ≡ ok (result, t)
    → AreContiguous floor t
apply_publish_many-AreContiguous db s t log batch result floor v h k =
    elim (apply_publish_many_keeps db s (λ txn. IsKeptAt s txn (floor k.partition) k)
      (one-IsKeptAt db s k (floor k.partition)) t log batch result h
      (begun-IsKeptAt s log (floor k.partition) k (v k))) [
        | inl same ↦ subst (λ t. AreContiguous floor t) (sym same) v k
        | inr (txn, kept, same) ↦
            subst
              (λ (t : GroupState).
                IsRecorded (floor k.partition) (unwrap_or (t.next_offset k.partition) 0)
                  (t.records k) k)
              (sym same) (written-IsRecorded s txn (floor k.partition) k kept)
      ]
