-- ===== src/Storage/Fetch.antt =====
-- crates/light-stream-storage/src/lib.rs: `fetch` and `fetch_protected`. The iterator of RocksDB over the
-- keys from the start on is a list, an argument of both: an item of another key range ends the loop as
-- a record of another partition does.
pub mod Pages
use light_stream.Shared.{
  ℕ, suc, ◌+◌, ◌*◌, String, Bool, true, false, Option, some, none, List, [], ◌∷◌, nat_eq, ltb, leb,
  length, saturating_add, lookup, ◌==◌, ◌&&◌, ◌||◌, not, if◌then◌else◌,
}
use light_stream.Core.Identity.{
  ClusterId, PartitionKey, partition_key_eq, RecordOffset, ReplayLeaseId,
}
use light_stream.Core.Error.{
  DomainError, invalid_range, not_bootstrapped, identity_mismatch, cursor_expired, storage,
  replay_lease_not_found, replay_lease_range_violation, lease_clock_unavailable,
  replay_lease_inactive, Result, ok, err,
}
use light_stream.Core.Publish.{Payload}
use light_stream.Core.Cursor.{CommittedRecord, FetchPage}
use light_stream.Core.Catalog.{BootstrapSpec}
use light_stream.Core.Replay.{ReplayLease, contains}
use light_stream.Storage.Keys.{RecordKey}
use light_stream.Storage.State.{GroupDb, GroupState, StoredRecord}
use light_stream.Storage.Retention.{SafeLeaseClock, lease_is_effectively_active}
use light_stream.Storage.Leases.{stored_retention}
use light_stream.Storage.Leases.Commands.{inactive_lifecycle}

abbrev pub max_fetch_records : ℕ
max_fetch_records = 1024

abbrev pub max_fetch_bytes : ℕ
max_fetch_bytes = 8 * 1024 * 1024

abbrev pub Items : Type 0
Items = List (RecordKey × StoredRecord)

-- What a loop over the items looks for: the offset that ends it, if there is one, and the text of the
-- error at a missing payload.
pub record Scan : Type 0 where
  pub partition : PartitionKey
  pub limit : ℕ
  pub end : Option RecordOffset
  pub missing : String

abbrev pub is_past : Option RecordOffset → RecordOffset → Bool
is_past none offset = false
is_past (some end) offset = leb end offset

-- A record before those that follow it.
unfoldable pub push :
    CommittedRecord
    → Result DomainError (List CommittedRecord)
    → Result DomainError (List CommittedRecord)
push r (ok rs) = ok (r ∷ rs)
push r (err e) = err e

-- The loop, with the count of the records and the payload bytes that it has gathered.
unfoldable pub collect :
    GroupState → Scan → ℕ → ℕ → Items → Result DomainError (List CommittedRecord)
unfolding push
collect s c count bytes [] = ok []
collect s c count bytes ((key, stored) ∷ items) =
    elim (not (key.partition == c.partition) || (leb c.limit count || is_past c.end key.offset)) [
      | true ↦ ok []
      | false ↦ elim (s.payloads stored.payload_key) [
        | none ↦ err (storage c.missing)
        | some payload ↦
            elim (ltb 0 count && ltb max_fetch_bytes (saturating_add bytes (length payload))) [
              | true ↦ ok []
              | false ↦
                  push (record { offset = key.offset; payload = payload })
                    (collect s c (suc count) (saturating_add bytes (length payload)) items)
            ]
      ]
    ]

-- `records.last().map_or(offset, …)`
unfoldable pub next_after : RecordOffset → List CommittedRecord → RecordOffset
next_after offset [] = offset
next_after offset (r ∷ rs) = next_after (r.offset + 1) rs

unfoldable pub page_of :
    PartitionKey
    → RecordOffset
    → Result DomainError (List CommittedRecord)
    → Result DomainError FetchPage
page_of partition offset (err e) = err e
page_of partition offset (ok records) =
    ok
      (record { partition = partition; records = records; next_offset = next_after offset records })

-- The guards that both share.
unfoldable pub check_fetch : GroupDb → Option BootstrapSpec → ClusterId → ℕ → Option DomainError
check_fetch db none cluster limit =
    if limit == 0 || ltb max_fetch_records limit
    then some (invalid_range "fetch limit must be between 1 and 1024")
    else some not_bootstrapped
check_fetch db (some spec) cluster limit =
    if limit == 0 || ltb max_fetch_records limit
    then some (invalid_range "fetch limit must be between 1 and 1024")
    else if not (cluster == db.identity.cluster_id) || not (cluster == spec.cluster)
    then some (identity_mismatch "fetch cluster does not match the data group")
    else none

unfoldable pub fetch :
    GroupDb
    → GroupState
    → Items
    → ClusterId
    → PartitionKey
    → RecordOffset
    → ℕ
    → Result DomainError FetchPage
fetch db s items cluster partition offset limit = elim (check_fetch db s.bootstrap cluster limit) [
  | some e ↦ err e
  | none ↦
      if ltb offset (stored_retention s partition).logical_floor
      then err (cursor_expired offset (stored_retention s partition).logical_floor)
      else page_of partition offset (
          collect s
            (record {
              partition = partition;
              limit = limit;
              end = none;
              missing = "committed record payload is missing";
            })
            0 0 items)
]

-- With the lease and the clock at hand.
unfoldable pub fetch_leased :
    GroupState
    → Items
    → ReplayLease
    → Option SafeLeaseClock
    → RecordOffset
    → ℕ
    → Result DomainError FetchPage
fetch_leased s items lease none offset limit = err lease_clock_unavailable
fetch_leased s items lease (some clock) offset limit =
    let range = lease.request.range in
    if not (lease_is_effectively_active lease clock)
    then err (replay_lease_inactive lease.id (inactive_lifecycle lease.lifecycle))
    else if offset == range.end
    then page_of range.partition offset (ok [])
    else if not (contains range offset)
    then err replay_lease_range_violation
    else page_of range.partition offset (
        collect s
          (record {
            partition = range.partition;
            limit = limit;
            end = some range.end;
            missing = "protected record payload is missing";
          })
          0 0 items)

unfoldable pub fetch_protected :
    GroupDb
    → GroupState
    → Items
    → ClusterId
    → PartitionKey
    → ReplayLeaseId
    → RecordOffset
    → ℕ
    → Result DomainError FetchPage
fetch_protected db s items cluster partition lease_id offset limit =
    elim (check_fetch db s.bootstrap cluster limit) [
      | some e ↦ err e
      | none ↦ elim (lookup lease_id s.leases) [
        | none ↦ err (replay_lease_not_found lease_id)
        | some lease ↦
            if not (lease.request.cluster == cluster)
              || not (lease.request.range.partition == partition)
            then err replay_lease_range_violation
            else fetch_leased s items lease s.lease_clock offset limit
      ]
    ]
