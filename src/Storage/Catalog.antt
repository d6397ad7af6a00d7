-- ===== src/Storage/Catalog.antt =====
-- crates/light-stream-storage/src/lib.rs: the commands of the control group on streams. A `panic` at an
-- empty group pool, which a bootstrap refuses, is the error side of the result.
pub mod Changes
pub mod Names
pub mod Lifecycle
pub mod Effects
pub mod Commands
use light_stream.Shared.{
  ℕ, zero, suc, ◌+◌, ◌-◌, ◌%◌, String, Bool, true, false, Option, some, none, List, [], ◌∷◌, ◌++◌,
  nat_eq, string_eq, set_at, leb, ltb, length, get_elem?, saturating_add, u64_max, lookup, put,
  ◌==◌, ◌&&◌, ◌||◌, not, if◌then◌else◌, map,
}
use light_stream.Shared.BTreeSet
use light_stream.Core.Identity.{StreamId, GroupId}
use light_stream.Core.Error.{
  DomainError, bootstrap_conflict, cluster_forming, identity_mismatch, not_bootstrapped,
  resource_limit, stale_route, stream_name_conflict, stream_not_active, stream_not_found, Result,
  ok, err,
}
use light_stream.Core.Catalog.{
  CreateStreamSpec, create_stream_spec_eq, BootstrapSpec, StreamLifecycle, stream_lifecycle_eq,
  PartitionPlacement, StreamDescriptor, preparing, active, deleting, deleted,
}
use light_stream.Core.Operations.Selection.{sort_streams}
use light_stream.Storage.Result.{ApplyResult, stream, rejected}
use light_stream.Storage.State.{
  GroupDb, GroupState, WriteBatch, Applied, control, data_group, StoredCreateIntent, unwrap_or,
}

-- The revision after the stored one.
abbrev pub next_revision_of : GroupState → ℕ
next_revision_of s = saturating_add (unwrap_or s.catalog_revision 0) 1

-- The put of `next_catalog_revision`.
abbrev pub put_revision : GroupState → WriteBatch → WriteBatch
put_revision s write = record write { catalog_revision = some (next_revision_of s) }

-- The addition of two u64 numbers, which wraps around.
abbrev pub wrapping_add : ℕ → ℕ → ℕ
wrapping_add a b = (a + b) % 18446744073709551616

-- The partitions from one on, each on the next group of the pool.
unfoldable pub place : List GroupId → ℕ → ℕ → ℕ → Option (List PartitionPlacement)
place groups cursor partition zero = some []
place groups cursor partition (suc count) =
    elim (get_elem? groups (wrapping_add cursor partition % length groups)) [
      | none ↦ none
      | some group ↦ elim (place groups cursor (partition + 1) count) [
        | none ↦ none
        | some rest ↦ some (record { partition = partition; group = group } ∷ rest)
      ]
    ]

-- The streams that are not deleted.
unfoldable pub count_streams : List (StreamId × StreamDescriptor) → ℕ
count_streams [] = 0
count_streams ((id, d) ∷ ds) =
    if d.lifecycle == deleted then count_streams ds else suc (count_streams ds)

-- The puts of a new stream.
unfoldable pub put_stream :
    GroupState
    → BootstrapSpec
    → CreateStreamSpec
    → StreamId
    → ℕ
    → List PartitionPlacement
    → WriteBatch
    → Applied ApplyResult
put_stream s bootstrap spec id cursor placements write =
    let d : StreamDescriptor = record {
      cluster = bootstrap.cluster;
      stream = id;
      name = spec.name;
      lifecycle = preparing;
      placements = placements;
      ready_groups = [];
      revision = next_revision_of s;
    } in
    ok (
      stream d,
      record (put_revision s write) {
        create_intents =
            set_at write.create_intents spec.request_id
              (some (record { spec = spec; stream_id = id }));
        streams = put id d write.streams;
        stream_names = set_at write.stream_names spec.name (some id);
        assignment_cursor = some (wrapping_add cursor spec.partition_count);
      },
    )

-- From the group pool on.
unfoldable pub assign_stream :
    GroupState
    → BootstrapSpec
    → CreateStreamSpec
    → StreamId
    → Option (List GroupId)
    → WriteBatch
    → Applied ApplyResult
assign_stream s bootstrap spec id none write = err "data group pool is missing"
assign_stream s bootstrap spec id (some groups) write =
    let cursor = unwrap_or s.assignment_cursor 0 in
    elim (place groups cursor 0 spec.partition_count) [
      | none ↦ err "attempt to calculate the remainder with a divisor of zero"
      | some placements ↦ put_stream s bootstrap spec id cursor placements write
    ]

-- The limits of the catalog.
unfoldable pub check_limits :
    GroupState
    → BootstrapSpec
    → CreateStreamSpec
    → StreamId
    → ℕ
    → ℕ
    → WriteBatch
    → Applied ApplyResult
check_limits s bootstrap spec id max_streams max_partitions write =
    if ltb max_partitions spec.partition_count
    then ok (rejected (resource_limit "partitions_per_stream" max_partitions), write)
    else if leb max_streams (count_streams s.streams)
    then ok (rejected (resource_limit "streams" max_streams), write)
    else elim (lookup id s.streams) [
      | some d ↦ ok (rejected (identity_mismatch "new stream ID already exists"), write)
      | none ↦ assign_stream s bootstrap spec id s.data_group_pool write
    ]

-- A request that is new, for a name that is free.
unfoldable pub create_new :
    GroupState → BootstrapSpec → CreateStreamSpec → StreamId → WriteBatch → Applied ApplyResult
create_new s bootstrap spec id write = elim (s.stream_names spec.name) [
  | some other ↦ ok (rejected stream_name_conflict, write)
  | none ↦ elim s.max_streams [
    | none ↦ err "catalog stream limit is missing"
    | some max_streams ↦ elim s.max_partitions [
      | none ↦ err "catalog partition limit is missing"
      | some max_partitions ↦ check_limits s bootstrap spec id max_streams max_partitions write
    ]
  ]
]

-- A request whose intent is stored.
unfoldable pub create_again :
    GroupState → CreateStreamSpec → StoredCreateIntent → WriteBatch → Applied ApplyResult
create_again s spec existing write =
    if not (existing.spec == spec)
    then ok (
      rejected (bootstrap_conflict "catalog request identity was reused with different intent"),
      write,
    )
    else elim (lookup existing.stream_id s.streams) [
      | none ↦ err "catalog intent references a missing stream"
      | some d ↦ ok (stream d, write)
    ]

create_bootstrapped :
    GroupState
    → Option BootstrapSpec
    → CreateStreamSpec
    → StreamId
    → WriteBatch
    → Applied ApplyResult
create_bootstrapped s none spec id write = ok (rejected not_bootstrapped, write)
create_bootstrapped s (some bootstrap) spec id write = elim (s.create_intents spec.request_id) [
  | some existing ↦ create_again s spec existing write
  | none ↦ create_new s bootstrap spec id write
]

unfoldable pub apply_create_stream :
    GroupDb → GroupState → CreateStreamSpec → StreamId → WriteBatch → Applied ApplyResult
unfolding create_bootstrapped
apply_create_stream db s spec id write = elim db.identity.kind [
  | data_group ↦
      ok (rejected (identity_mismatch "create stream intent reached a data group"), write)
  | control ↦ create_bootstrapped s s.bootstrap spec id write
]
