-- ===== src/Storage/Catalog/Changes.antt =====
-- crates/light-stream-storage/src/lib.rs: the commands that move a stream through its lifecycle. Each
-- reads the descriptor by `load_stream_result`; what it then does with it is a function of its own.
use light_stream.Shared.{
  ℕ, Bool, false, some, none, List, [], ◌∷◌, ◌++◌, nat_eq, string_eq, set_at, lookup, put, ◌==◌,
  ◌||◌, not, if◌then◌else◌,
}
use light_stream.Shared.BTreeSet
use light_stream.Core.Identity.{StreamId, GroupId}
use light_stream.Core.Error.{
  DomainError, cluster_forming, stale_route, stream_not_active, stream_not_found, ok,
}
use light_stream.Core.Catalog.{
  stream_lifecycle_eq, PartitionPlacement, StreamDescriptor, preparing, active, deleting, deleted,
}
use light_stream.Core.Operations.Selection.{sort_streams}
use light_stream.Storage.Result.{ApplyResult, stream, rejected}
use light_stream.Storage.State.{GroupState, WriteBatch, Applied}
use light_stream.Storage.Catalog.{next_revision_of, put_revision}

-- What a command makes of a descriptor.
pub data Change : Type 0 where
  kept : Change
  refused : DomainError → Change
  changed : StreamDescriptor → Change

-- The groups of the placements.
unfoldable pub groups_of : List PartitionPlacement → List GroupId
groups_of [] = []
groups_of (p ∷ ps) = p.group ∷ groups_of ps

abbrev pub contains_group : GroupId → List GroupId → Bool
contains_group g [] = false
contains_group g (x ∷ xs) = x == g || contains_group g xs

-- `apply_replica_ready` on a descriptor.
unfoldable pub ready_change : GroupId → ℕ → StreamDescriptor → Change
ready_change group revision d =
    if not (d.lifecycle == preparing)
    then kept
    else if not (contains_group group (groups_of d.placements))
    then refused stale_route
    else if contains_group group d.ready_groups
    then kept
    else changed (record d {
      ready_groups = sort_streams (d.ready_groups ++ group ∷ []);
      revision = revision;
    })

-- `apply_activate_stream` on a descriptor.
unfoldable pub activate_change : ℕ → StreamDescriptor → Change
activate_change revision d =
    if d.lifecycle == active
    then kept
    else if not (d.lifecycle == preparing)
    then refused stream_not_active
    else if not (
        BTreeSet.equal (BTreeSet.from_list (groups_of d.placements))
          (BTreeSet.from_list d.ready_groups))
    then refused cluster_forming
    else changed (record d { lifecycle = active; revision = revision })

-- `apply_begin_delete` on a descriptor.
unfoldable pub begin_delete_change : ℕ → StreamDescriptor → Change
begin_delete_change revision d =
    if d.lifecycle == deleting || d.lifecycle == deleted
    then kept
    else if not (d.lifecycle == active)
    then refused stream_not_active
    else changed (record d { lifecycle = deleting; revision = revision })

-- `apply_finish_delete` on a descriptor.
unfoldable pub finish_delete_change : ℕ → StreamDescriptor → Change
finish_delete_change revision d =
    if d.lifecycle == deleted
    then kept
    else if not (d.lifecycle == deleting)
    then refused stream_not_active
    else changed (record d { lifecycle = deleted; revision = revision })

-- The answer to a change, and its puts.
unfoldable pub answer_change :
    GroupState → StreamId → StreamDescriptor → Change → WriteBatch → Applied ApplyResult
answer_change s id d kept write = ok (stream d, write)
answer_change s id d (refused e) write = ok (rejected e, write)
answer_change s id d (changed d') write =
    ok (stream d', record (put_revision s write) { streams = put id d' write.streams })

-- `load_stream_result`, and what follows it.
unfoldable pub on_stream :
    GroupState → StreamId → (StreamDescriptor → Change) → WriteBatch → Applied ApplyResult
on_stream s id f write = elim (lookup id s.streams) [
  | none ↦ ok (rejected stream_not_found, write)
  | some d ↦ answer_change s id d (f d) write
]

unfoldable pub apply_replica_ready :
    GroupState → StreamId → GroupId → WriteBatch → Applied ApplyResult
apply_replica_ready s id group write =
    on_stream s id (ready_change group (next_revision_of s)) write

unfoldable pub apply_activate_stream : GroupState → StreamId → WriteBatch → Applied ApplyResult
apply_activate_stream s id write = on_stream s id (activate_change (next_revision_of s)) write

unfoldable pub apply_begin_delete : GroupState → StreamId → WriteBatch → Applied ApplyResult
apply_begin_delete s id write = on_stream s id (begin_delete_change (next_revision_of s)) write

-- `apply_finish_delete` also deletes the name of the stream.
unfoldable pub drop_name : StreamDescriptor → Change → WriteBatch → WriteBatch
drop_name d kept write = write
drop_name d (refused e) write = write
drop_name d (changed d') write = record write {
  stream_names = set_at write.stream_names d.name none;
}

unfoldable pub apply_finish_delete : GroupState → StreamId → WriteBatch → Applied ApplyResult
apply_finish_delete s id write = elim (lookup id s.streams) [
  | none ↦ ok (rejected stream_not_found, write)
  | some d ↦
      (let change = finish_delete_change (next_revision_of s) d in
        answer_change s id d change (drop_name d change write))
]
