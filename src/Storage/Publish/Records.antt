-- ===== src/Storage/Publish/Records.antt =====
-- crates/light-stream-storage/src/lib.rs: the loop of `apply_one` over the records of a publish.
-- It reads the owners of the payloads as they were before the entry.
pub mod Written
use light_stream.Shared.{
  ℕ, suc, ◌+◌, ◌%◌, ◌^◌, true, Option, some, none, List, [], ◌∷◌, nat_eq, set_at, length,
  checked_add, ◌==◌, if◌then◌else◌,
}
use light_stream.Core.Identity.{PartitionKey, RecordOffset}
use light_stream.Core.Error.{Result, ok, err, ok_or, IoError, ◌>>=◌}
use light_stream.Core.Publish.{Payload}
use light_stream.Storage.Keys.{LogId, RecordKey, record_key_eq, PayloadKey, payload_key_eq}
use light_stream.Storage.State.{GroupDb, GroupState, StoredRecord, PayloadOwners, set_applied_in}

-- payload_id: the slot is cut to 32 bits.
abbrev pub payload_id : LogId → ℕ → PayloadKey
payload_id log slot = record { log = log; slot = slot % 2 ^ 32 }

-- What the loop writes, and the byte position that it moves.
pub record RecordWrites : Type 0 where
  pub records : RecordKey → Option StoredRecord
  pub payload_owners : PayloadKey → Option PayloadOwners
  pub next_byte_position : ℕ

abbrev pub record_key : PartitionKey → RecordOffset → RecordKey
record_key partition offset = record { partition = partition; offset = offset }

put_record :
    GroupDb
    → PartitionKey
    → RecordOffset
    → PayloadKey
    → ℕ
    → PayloadOwners
    → RecordWrites
    → Result IoError RecordWrites
put_record db partition offset key bytes owners w =
    ok_or (checked_add w.next_byte_position bytes) "partition byte position overflow"
    >>= λ position. ok (record {
      records = set_at w.records (record_key partition offset) (
          some
            (record { payload_key = key; payload_bytes = bytes; cumulative_end_bytes = position }));
      payload_owners =
          set_at w.payload_owners key (some (set_applied_in owners db.active_bank true));
      next_byte_position = position;
    })

-- One round: the flat slot of the payload, its owners, and the record.
unfoldable pub write_record :
    GroupDb
    → GroupState
    → LogId
    → PartitionKey
    → ℕ
    → RecordOffset
    → ℕ
    → Payload
    → RecordWrites
    → Result IoError RecordWrites
unfolding put_record
write_record db s log partition first_payload_slot first slot payload w =
    ok_or (checked_add first_payload_slot slot) "publish payload slot overflow" >>= λ flat.
    ok_or (s.payload_owners (payload_id log flat)) "applied entry payload is missing ownership"
    >>= λ owners.
        put_record db partition (first + slot) (payload_id log flat) (length payload) owners w

unfoldable pub write_records :
    GroupDb
    → GroupState
    → LogId
    → PartitionKey
    → ℕ
    → RecordOffset
    → ℕ
    → List Payload
    → RecordWrites
    → Result IoError RecordWrites
write_records db s log partition base first slot [] w = ok w
write_records db s log partition base first slot (r ∷ rs) w =
    write_record db s log partition base first slot r w >>= λ w'.
    write_records db s log partition base first (suc slot) rs w'
