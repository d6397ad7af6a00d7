-- ===== src/Core/Publish/Limits.antt =====
-- What the constructors of publish.rs accept.
use light_stream.Shared.{ℕ, ◌+◌, ◌≤◌, ◌<◌, ◌↔◌, ◌≡◌, inl, inr, List, [], ◌∷◌, arith, length}
use light_stream.Core.Error.{ok, Result-cases}
use light_stream.Core.Publish.{
  Payload, PublishBatch, validate_each, validate_records, payload_bytes, count_replicated,
  replicated_publish_batch, ReplicatedPublishBatch, max_records_per_publish, max_record_bytes,
  max_publish_bytes, max_requests_per_replicated_publish, max_records_per_replicated_publish,
  max_replicated_publish_bytes,
}

-- Every record is nonempty and within the record limit.
abbrev pub IsBoundedEach : List Payload → Type 0
IsBoundedEach [] = Unit {0}
IsBoundedEach (r ∷ rs) = (0 < length r) × (length r ≤ max_record_bytes) × IsBoundedEach rs

validate_each_sound :
    (rs : List Payload) (total t : ℕ)
    → validate_each rs total ≡ ok t
    → IsBoundedEach rs × (t ≡ total + payload_bytes rs)
unfolding validate_each payload_bytes
validate_each_sound [] total t h = ground arith
validate_each_sound (r ∷ rs) total t h = ground (arith, validate_each_sound rs (total + length r) t)

validate_each_complete :
    (rs : List Payload) (total : ℕ)
    → IsBoundedEach rs
    → total + payload_bytes rs ≤ 18446744073709551615
    → validate_each rs total ≡ ok (total + payload_bytes rs)
unfolding validate_each payload_bytes
validate_each_complete [] total b h = ground arith
validate_each_complete (r ∷ rs) total b h =
    ground (arith, validate_each_complete rs (total + length r) b.2)

-- Exactly the lists of records within the documented limits are accepted: the overflow error of
-- the running total never decides.
pub validate_records_iff :
    (rs : List Payload)
    → (validate_records rs ≡ ok tt) ↔ (
        (0 < length rs)
        × (length rs ≤ max_records_per_publish)
        × IsBoundedEach rs
        × (payload_bytes rs ≤ max_publish_bytes))
unfolding validate_records
validate_records_iff rs = (
  (λ h. elim (Result-cases (validate_each rs 0)) [
    | inl (t, e) ↦ ground (arith, validate_each_sound rs 0 t)
    | inr (x, e) ↦ ground arith
  ]),
  λ h. ground (arith, validate_each_complete rs 0 h.2),
)

abbrev pub total_records : List PublishBatch → ℕ
total_records [] = 0
total_records (b ∷ bs) = length b.records + total_records bs

abbrev pub total_bytes : List PublishBatch → ℕ
total_bytes [] = 0
total_bytes (b ∷ bs) = payload_bytes b.records + total_bytes bs

count_replicated_sound :
    (bs : List PublishBatch) (records bytes n m : ℕ)
    → count_replicated bs records bytes ≡ ok (n, m)
    → (n ≡ records + total_records bs) × (m ≡ bytes + total_bytes bs)
unfolding count_replicated
count_replicated_sound [] records bytes n m h = ground arith
count_replicated_sound (b ∷ bs) records bytes n m h = ground (
  arith,
  count_replicated_sound bs (records + length b.records) (bytes + payload_bytes b.records) n m,
)

count_replicated_complete :
    (bs : List PublishBatch) (records bytes : ℕ)
    → records + total_records bs ≤ 18446744073709551615
    → bytes + total_bytes bs ≤ 18446744073709551615
    → count_replicated bs records bytes ≡ ok (records + total_records bs, bytes + total_bytes bs)
unfolding count_replicated
count_replicated_complete [] records bytes h k = ground arith
count_replicated_complete (b ∷ bs) records bytes h k = ground (
  arith,
  count_replicated_complete bs (records + length b.records) (bytes + payload_bytes b.records),
)

-- Building a replicated batch succeeds exactly from at least one and at most 128 requests with at most
-- 1024 records and 8 MiB of payload in all, and what it builds holds those requests and no others.
pub replicated_publish_batch_iff :
    (bs : List PublishBatch) (built : ReplicatedPublishBatch)
    → ((replicated_publish_batch bs ≡ ok built) ↔ (
        (built ≡ record { requests = bs })
        × (0 < length bs)
        × (length bs ≤ max_requests_per_replicated_publish)
        × (total_records bs ≤ max_records_per_replicated_publish)
        × (total_bytes bs ≤ max_replicated_publish_bytes)))
unfolding replicated_publish_batch
replicated_publish_batch_iff bs built = (
  (λ h. elim (Result-cases (count_replicated bs 0 0)) [
    | inl (t, e) ↦ ground (arith, count_replicated_sound bs 0 0 t.0 t.1)
    | inr (x, e) ↦ ground arith
  ]),
  λ h. ground (arith, count_replicated_complete bs 0 0),
)
