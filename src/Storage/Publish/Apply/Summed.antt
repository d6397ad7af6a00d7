-- ===== src/Storage/Publish/Apply/Summed.antt =====
-- The byte positions at which the records of a partition end: a whole entry of publishes.
use light_stream.Shared.{
  ℕ, suc, ◌+◌, ◌<◌, ◌≡◌, refl, ap, sym, subst, ◌∙◌, ◌-◌, inl, inr, Option, some, arith, nat_eq,
  Bool-cases, Option-cases, length, get_elem-some, ltb,
}
use light_stream.Core.Identity.{PartitionKey, partition_key_eq}
use light_stream.Core.Error.{DomainError, Result, ok, err}
use light_stream.Core.Publish.{PublishBatch, PublishReceipt, ReplicatedPublishBatch}
use light_stream.Core.Cursor.{CommittedRecordRange}
use light_stream.Storage.Keys.{LogId, RecordKey}
use light_stream.Storage.Result.{ApplyResult}
use light_stream.Storage.State.{GroupDb, GroupState, StoredRecord, unwrap_or, no_retention}
use light_stream.Storage.Publish.{PublishApplyTxn, publish_txn, prior_outcome, receipt_key}
use light_stream.Storage.Publish.Records.{record_key}
use light_stream.Storage.Publish.Apply.{
  apply_one, apply_publish_many, read_next_offset, read_retention,
}
use light_stream.Storage.Publish.Apply.Offsets.{byte_position, stored_offset, stored_position}
use light_stream.Storage.Publish.Apply.Outcome.{apply_one_refused}
use light_stream.Storage.Publish.Apply.Neighbours.{IsEither, ends, neighbours}
use light_stream.Storage.Publish.Apply.Many.{apply_publish_many_keeps}
use light_stream.Storage.Publish.Apply.Appends.{
  IsNew, apply_one_offsets, apply_one_stores, apply_one_others,
}

-- Each record lies before the next offset, the last one ends at the byte position of the partition, and of
-- two neighbours the second ends its own bytes after the first.
abbrev IsSummed : (RecordKey → Option StoredRecord) → ℕ → ℕ → PartitionKey → Type 0
IsSummed records next position q =
    ((o : ℕ) (a : StoredRecord)
      → records (record_key q o) ≡ some a
      → (o < next) × (suc o ≡ next → a.cumulative_end_bytes ≡ position))
    × ((o : ℕ) (a b : StoredRecord)
        → records (record_key q o) ≡ some a
        → records (record_key q (suc o)) ≡ some b
        → b.cumulative_end_bytes ≡ a.cumulative_end_bytes + b.payload_bytes)

abbrev pub AreSummed : GroupState → Type 0
AreSummed s =
    (q : PartitionKey)
    → IsSummed s.records (unwrap_or (s.next_offset q) 0)
        (unwrap_or (s.retention q) no_retention).next_byte_position q

-- What the publishes of one entry keep at a partition: the batch agrees with the caches, too.
abbrev IsKeptAt : GroupState → PartitionKey → PublishApplyTxn → Type 0
IsKeptAt s q txn =
    IsSummed txn.write.records (read_next_offset s txn q) (byte_position s txn q) q
    × (stored_offset txn q ≡ read_next_offset s txn q)
    × (stored_position txn q ≡ byte_position s txn q)

module _ (db : GroupDb) (s : GroupState) (q : PartitionKey) where
  published_record :
      (txn txn' : PublishApplyTxn) (ordinal slot : ℕ) (batch : PublishBatch)
      (receipt : PublishReceipt) (o : ℕ) (a : StoredRecord)
      → apply_one db s txn ordinal slot batch ≡ ok (ok receipt, txn')
      → IsNew db s txn batch
      → q ≡ batch.partition
      → IsKeptAt s q txn
      → txn'.write.records (record_key q o) ≡ some a
      → IsEither
          (read_next_offset s txn q)
          (byte_position s txn q)
          batch.records
          (λ o. txn.write.records (record_key q o))
          o
          a
  published_record txn txn' ordinal slot batch receipt o a h n e v g =
      let (request, range, pos, next, bytes, kept, position) =
        apply_one_offsets db s txn txn' ordinal slot batch receipt q h n in
      let f : receipt.range.first ≡ read_next_offset s txn batch.partition =
        ap (λ (r : CommittedRecordRange). r.first) range in
      let c : receipt.range.count ≡ length batch.records =
        ap (λ (r : CommittedRecordRange). r.count) range in
      let m : read_next_offset s txn q ≡ read_next_offset s txn batch.partition =
        ap (λ q. read_next_offset s txn q) e in
      let others = apply_one_others db s txn txn' ordinal slot batch receipt (record_key q o) h n in
      elim (Bool-cases (ltb o receipt.range.first)) [
        | inl b ↦ (let same = others (inr (inl (ground arith))) in inl (ground arith, sym same ∙ g))
        | inr b ↦ elim (Bool-cases (ltb o (receipt.range.first + receipt.range.count))) [
          | inr d ↦
              (let same = others (inr (inr (ground arith))) in
                let below = (v.0.0 o a (sym same ∙ g)).0 in absurd (ground arith))
          | inl d ↦
              (let i = o - receipt.range.first in
                let (r, k) = get_elem-some batch.records i (ground arith) in
                let stored =
                  (apply_one_stores db s txn txn' ordinal slot batch receipt i r h n k).0 in
                let same : record_key q o ≡ record_key batch.partition (receipt.range.first + i) =
                  ground arith in
                let it = sym g ∙ (ap (λ x. txn'.write.records x) same ∙ stored) in
                let start : byte_position s txn q ≡ byte_position s txn batch.partition =
                  ap (λ q. byte_position s txn q) e in
                inr (i, r, ground arith, k, ground arith, ground arith))
        ]
      ]

  published-IsKeptAt :
      (txn txn' : PublishApplyTxn) (ordinal slot : ℕ) (batch : PublishBatch)
      (receipt : PublishReceipt)
      → apply_one db s txn ordinal slot batch ≡ ok (ok receipt, txn')
      → IsNew db s txn batch
      → IsKeptAt s q txn
      → IsKeptAt s q txn'
  published-IsKeptAt txn txn' ordinal slot batch receipt h n v =
      let (request, range, pos, next, bytes, kept, position) =
        apply_one_offsets db s txn txn' ordinal slot batch receipt q h n in
      elim (partition_key_eq.decide_eq q batch.partition) [
        | no d ↦
            (let others = λ (o : ℕ).
                apply_one_others db s txn txn' ordinal slot batch receipt (record_key q o) h n
                  (inl d) in
              (
                (
                  (λ o a g.
                      let before = v.0.0 o a (sym (others o) ∙ g) in
                      (ground arith, λ f. ground arith)),
                  λ o a b g k. v.0.1 o a b (sym (others o) ∙ g) (sym (others (suc o)) ∙ k),
                ),
                ground arith,
                ground arith,
              ))
        | yes e ↦
            (let first = read_next_offset s txn q in
              let start = byte_position s txn q in
              let old = λ (o : ℕ). txn.write.records (record_key q o) in
              let m : first ≡ read_next_offset s txn batch.partition =
                ap (λ q. read_next_offset s txn q) e in
              let u : start ≡ byte_position s txn batch.partition =
                ap (λ q. byte_position s txn q) e in
              let either = λ (o : ℕ) (a : StoredRecord).
                published_record txn txn' ordinal slot batch receipt o a h n e v in
              (
                (
                  (λ o a g.
                      let (below, last) =
                        ends first start batch.records old o a pos (either o a g) in
                      (ground arith, λ f. ground (arith, last))),
                  λ o a b g k.
                      neighbours first start batch.records old o a b (λ o a g. (v.0.0 o a g).1)
                        v.0.1 (either o a g) (either (suc o) b k),
                ),
                ground arith,
                ground arith,
              ))
      ]

  one-IsKeptAt :
      (txn txn' : PublishApplyTxn) (ordinal slot : ℕ) (batch : PublishBatch)
      (result : Result DomainError PublishReceipt)
      → apply_one db s txn ordinal slot batch ≡ ok (result, txn')
      → IsKeptAt s q txn
      → IsKeptAt s q txn'
  one-IsKeptAt txn txn' ordinal slot batch (err x) h v =
      let (records, next, bytes, stored, position) =
        apply_one_refused db s txn ordinal slot batch q x txn' h in
      let at = λ (k : RecordKey). ap (λ f. f k) records in
      (
        (
          (λ o a g.
              let before = v.0.0 o a (sym (at (record_key q o)) ∙ g) in
              (ground arith, λ f. ground (arith, before.1))),
          λ o a b g k.
              v.0.1 o a b (sym (at (record_key q o)) ∙ g) (sym (at (record_key q (suc o))) ∙ k),
        ),
        ground arith,
        ground arith,
      )
  one-IsKeptAt txn txn' ordinal slot batch (ok receipt) h v =
      elim (Option-cases (
        prior_outcome db s txn batch (receipt_key batch.partition batch.request)
          (db.fingerprint batch))) [
            | inl n ↦ published-IsKeptAt txn txn' ordinal slot batch receipt h n v
            | inr (r, n) ↦
                (let same : txn' ≡ txn = unfold apply_one in ground arith in
                  subst (λ t. IsKeptAt s q t) (sym same) v)
          ]

begun-IsKeptAt :
    (s : GroupState) (log : LogId) (q : PartitionKey)
    → AreSummed s
    → IsKeptAt s q (publish_txn log s)
unfolding read_next_offset read_retention
begun-IsKeptAt s log q v = (v q, refl, refl)

written-IsSummed :
    (s : GroupState) (txn : PublishApplyTxn) (q : PartitionKey)
    → IsKeptAt s q txn
    → IsSummed txn.write.records
        (unwrap_or (txn.write.next_offset q) 0)
        (unwrap_or (txn.write.retention q) no_retention).next_byte_position
        q
written-IsSummed s txn q (v, e, f) =
    subst (λ n. IsSummed txn.write.records n (stored_position txn q) q) (sym e)
      (subst (λ p. IsSummed txn.write.records (read_next_offset s txn q) p q) (sym f) v)

-- The byte positions of a partition sum up its payloads. If every stored record lies before the next
-- offset of its partition, the last one ends at the partition's stored byte position, and of two
-- records at neighbouring offsets the second ends its own payload's bytes after the first, then so it
-- is in the batch that an entry of several publishes leaves, when that begins on the state itself,
-- whatever each publish was answered.
pub apply_publish_many-AreSummed :
    (db : GroupDb) (s t : GroupState) (log : LogId) (batch : ReplicatedPublishBatch)
    (result : ApplyResult)
    → AreSummed s
    → apply_publish_many db s log batch s ≡ ok (result, t)
    → AreSummed t
apply_publish_many-AreSummed db s t log batch result v h q =
    elim (apply_publish_many_keeps db s (λ txn. IsKeptAt s q txn) (one-IsKeptAt db s q) t log batch
      result h (begun-IsKeptAt s log q v)) [
        | inl same ↦ subst (λ t. AreSummed t) (sym same) v q
        | inr (txn, kept, same) ↦
            subst
              (λ (t : GroupState).
                IsSummed t.records (unwrap_or (t.next_offset q) 0)
                  (unwrap_or (t.retention q) no_retention).next_byte_position q)
              (sym same) (written-IsSummed s txn q kept)
      ]
