-- ===== src/Storage/Publish/Records/Written.antt =====
-- What the loop over the records writes.
use light_stream.Shared.{
  ℕ, zero, suc, ◌+◌, ◌≤◌, ◌<◌, ◌≡◌, ◌≢◌, ◌⊎◌, inl, inr, some, List, [], ◌∷◌, arith, length,
  get_elem?, take,
}
use light_stream.Core.Identity.{PartitionKey, RecordOffset}
use light_stream.Core.Error.{ok, Result-cases}
use light_stream.Core.Publish.{Payload, payload_bytes}
use light_stream.Storage.Keys.{LogId, RecordKey}
use light_stream.Storage.State.{GroupDb, GroupState, StoredRecord}
use light_stream.Storage.Publish.Records.{
  RecordWrites, payload_id, record_key, write_record, write_records,
}

-- The record of the payload at a flat slot, which ends at a byte position.
abbrev pub stored_record : LogId → ℕ → Payload → ℕ → StoredRecord
stored_record log flat r end = record {
  payload_key = payload_id log flat;
  payload_bytes = length r;
  cumulative_end_bytes = end;
}

-- A record of another partition, before the first or after the last of `n`.
abbrev pub IsOutside : PartitionKey → ℕ → ℕ → RecordKey → Type 0
IsOutside partition first n k =
    (k.partition ≢ partition) ⊎ ((k.offset < first) ⊎ (first + n ≤ k.offset))

module _ (db : GroupDb) (s : GroupState) (log : LogId) (partition : PartitionKey) (base : ℕ)
    (first : RecordOffset) where
  write_record_lem :
      (slot : ℕ) (r : Payload) (w w' : RecordWrites) (k : RecordKey)
      → write_record db s log partition base first slot r w ≡ ok w'
      → (w'.next_byte_position ≡ w.next_byte_position + length r)
        × (w'.records (record_key partition (first + slot))
            ≡ some (stored_record log (base + slot) r (w.next_byte_position + length r)))
        × (k ≢ record_key partition (first + slot) → w'.records k ≡ w.records k)
  unfolding write_record
  write_record_lem slot r w w' k h = ground arith

  pub write_records_bytes :
      (slot : ℕ) (rs : List Payload) (w w' : RecordWrites)
      → write_records db s log partition base first slot rs w ≡ ok w'
      → w'.next_byte_position ≡ w.next_byte_position + payload_bytes rs
  unfolding write_records payload_bytes
  write_records_bytes slot [] w w' h = ground arith
  write_records_bytes slot (r ∷ rs) w w' h =
      elim (Result-cases (write_record db s log partition base first slot r w)) [
        | inl (v, e) ↦ ground (
          arith,
          write_record_lem slot r w v (record_key partition 0) e,
          write_records_bytes (suc slot) rs v w',
        )
        | inr (x, e) ↦ ground arith
      ]

  pub write_records_others :
      (slot : ℕ) (rs : List Payload) (w w' : RecordWrites) (k : RecordKey)
      → write_records db s log partition base first slot rs w ≡ ok w'
      → IsOutside partition (first + slot) (length rs) k
      → w'.records k ≡ w.records k
  unfolding write_records
  write_records_others slot [] w w' k h o = ground arith
  write_records_others slot (r ∷ rs) w w' k h o =
      elim (Result-cases (write_record db s log partition base first slot r w)) [
        | inl (v, e) ↦
            ground
              (arith, write_record_lem slot r w v k e, write_records_others (suc slot) rs v w' k)
        | inr (x, e) ↦ ground arith
      ]

  pub write_records_stored :
      (slot : ℕ) (rs : List Payload) (w w' : RecordWrites) (i : ℕ) (r : Payload)
      → write_records db s log partition base first slot rs w ≡ ok w'
      → get_elem? rs i ≡ some r
      → w'.records (record_key partition (first + (slot + i)))
        ≡ some (
            stored_record log
              (base + (slot + i))
              r
              (w.next_byte_position + payload_bytes (take (suc i) rs)))
  unfolding write_records payload_bytes
  write_records_stored slot [] w w' i r h g = cc
  write_records_stored slot (x ∷ rs) w w' zero r h g =
      elim (Result-cases (write_record db s log partition base first slot x w)) [
        | inl (v, e) ↦ ground (
          arith,
          write_record_lem slot x w v (record_key partition 0) e,
          write_records_others (suc slot) rs v w' (record_key partition (first + slot)),
        )
        | inr (y, e) ↦ ground arith
      ]
  write_records_stored slot (x ∷ rs) w w' (suc i) r h g =
      elim (Result-cases (write_record db s log partition base first slot x w)) [
        | inl (v, e) ↦ ground (
          arith,
          write_record_lem slot x w v (record_key partition 0) e,
          write_records_stored (suc slot) rs v w' i r,
        )
        | inr (y, e) ↦ ground arith
      ]
