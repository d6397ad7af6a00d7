-- ===== src/Storage/Dispatch.antt =====
-- crates/light-stream-storage/src/lib.rs: `apply_command`, with the gate that holds commands back while
-- the mutation fence is held, and `replay_included_command`, of the commands that are modelled.
pub mod Frozen
pub mod Fence
use light_stream.Shared.{
  ℕ, List, Eq, Bool, true, false, Option, some, none, nat_eq, string_eq, lookup, ◌==◌, ◌&&◌, ◌||◌,
  not, if◌then◌else◌,
}
use light_stream.Core.Identity.{
  StreamId, GroupId, PartitionKey, partition_key_eq, BookmarkId, BookmarkName, RecordOffset,
  definite_no_commit,
}
use light_stream.Core.Error.{
  bookmark_name_conflict, bootstrap_conflict, identity_mismatch, export_in_progress, IoError,
  Result, ok, err,
}
use light_stream.Core.Bookmark.{
  StreamCursorVector, equal_vectors, CommittedBookmark, CommittedStreamBookmark, deleted,
  bookmark_lifecycle_eq,
}
use light_stream.Core.Catalog.{
  BootstrapSpec, bootstrap_spec_eq, CreateStreamSpec, create_stream_spec_eq, StreamDescriptor,
  StreamLifecycle, stream_lifecycle_eq, preparing,
}
use light_stream.Core.Publish.{ReplicatedPublishBatch}
use light_stream.Core.Checkpoint.{CheckpointMutation}
use light_stream.Core.Replay.{ReplayLeaseRequest, LeaseRenewal, LeaseRelease, RetentionRequest}
use light_stream.Core.Operations.Fence.{HeldExportFence}
use light_stream.Storage.Keys.{LogId}
use light_stream.Storage.Result.{ApplyResult, bookmark, stream, stream_bookmark, rejected}
use light_stream.Storage.State.{
  GroupDb, GroupState, GroupKind, control, data_group, WriteBatch, Applied, StoredCreateIntent,
}
use light_stream.Storage.Mutations.{prior_mutation_result}
use light_stream.Storage.Retention.{ClockObservation}
use light_stream.Storage.Checkpoints.{apply_checkpoint_mutation}
use light_stream.Storage.Publish.Apply.{apply_publish_many}
use light_stream.Storage.Publish.Replay.{replay_publish_many}
use light_stream.Storage.Exports.{ExportCommand, mutation_fence_state}
use light_stream.Storage.Exports.Commands.Finish.{apply_export}
use light_stream.Storage.Catalog.{create_again, apply_create_stream}
use light_stream.Storage.Catalog.Changes.{
  contains_group, apply_replica_ready, apply_activate_stream, apply_begin_delete,
  apply_finish_delete,
}
use light_stream.Storage.Bookmarks.{repeat_bookmark, apply_create_bookmark, apply_delete_bookmark}
use light_stream.Storage.Bookmarks.Streams.{
  apply_create_stream_bookmark, apply_delete_stream_bookmark,
}
use light_stream.Storage.Leases.{stored_retention}
use light_stream.Storage.Leases.Commands.{
  apply_admit_replay_lease, apply_renew_replay_lease, apply_release_replay_lease,
}
use light_stream.Storage.Reclaim.{status_of, apply_maintain_retention}
use light_stream.Storage.Floor.{apply_advance_retention}
use light_stream.Storage.Bootstrap.{
  wrong_group, is_expected, bootstrap_result, ControlSetup, repeat_setup, apply_bootstrap,
  apply_bootstrap_control,
}

pub data CommandFenceClass : Type 0 where
  included_mutation excluded_mutation export_protocol : CommandFenceClass

unfoldable pub CommandFenceClass-discrete : Discrete CommandFenceClass
CommandFenceClass-discrete = hlevel

instance abbrev pub command_fence_class_eq : Eq CommandFenceClass
command_fence_class_eq = record { decide_eq = CommandFenceClass-discrete }

-- Left out: the commands of administration, security and the probe, and `Publish`.
pub data GroupCommand : Type 0 where
  bootstrap_control : BootstrapSpec → ControlSetup → GroupCommand
  bootstrap_data : BootstrapSpec → GroupCommand
  create_stream_intent : CreateStreamSpec → StreamId → GroupCommand
  replica_ready : StreamId → GroupId → GroupCommand
  activate_stream begin_delete_stream finish_delete_stream : StreamId → GroupCommand
  publish_many : ReplicatedPublishBatch → GroupCommand
  compare_and_set_checkpoint : CheckpointMutation → GroupCommand
  create_bookmark : BookmarkId → PartitionKey → BookmarkName → RecordOffset → GroupCommand
  delete_bookmark : PartitionKey → BookmarkId → GroupCommand
  create_stream_bookmark : BookmarkId → BookmarkName → StreamCursorVector → GroupCommand
  delete_stream_bookmark : StreamId → BookmarkId → GroupCommand
  advance_retention : RetentionRequest → ClockObservation → GroupCommand
  admit_replay_lease : ReplayLeaseRequest → ClockObservation → GroupCommand
  renew_replay_lease : LeaseRenewal → ClockObservation → GroupCommand
  release_replay_lease : LeaseRelease → ClockObservation → GroupCommand
  maintain_retention : PartitionKey → RecordOffset → ℕ → ℕ → ClockObservation → GroupCommand
  export_command : ExportCommand → GroupCommand

-- GroupCommand::fence_class
abbrev pub fence_class : GroupCommand → CommandFenceClass
fence_class (compare_and_set_checkpoint m) = excluded_mutation
fence_class (admit_replay_lease request o) = excluded_mutation
fence_class (renew_replay_lease request o) = excluded_mutation
fence_class (release_replay_lease request o) = excluded_mutation
fence_class (export_command c) = export_protocol
fence_class other = included_mutation

-- `filter` and `map` on what is stored.
unfoldable pub answer_if :
    {A : Type 0} → Option A → (A → Bool) → (A → ApplyResult) → Option ApplyResult
answer_if none test answer = none
answer_if (some a) test answer = if test a then some (answer a) else none

replay_create :
    GroupState → CreateStreamSpec → Option StoredCreateIntent → Result IoError (Option ApplyResult)
replay_create s spec none = ok none
replay_create s spec (some existing) =
    if not (existing.spec == spec)
    then ok (
        some (
          rejected
            (bootstrap_conflict "catalog request identity was reused with different intent")))
    else elim (lookup existing.stream_id s.streams) [
      | none ↦ err "catalog intent references a missing stream"
      | some d ↦ ok (some (stream d))
    ]

replay_stream_bookmark : BookmarkName → StreamCursorVector → CommittedStreamBookmark → ApplyResult
replay_stream_bookmark name vector existing =
    if existing.name == name && equal_vectors existing.vector vector
    then stream_bookmark existing
    else rejected bookmark_name_conflict

-- A pool that is not stored differs from every other.
replay_setup : GroupState → BootstrapSpec → ControlSetup → Option (List GroupId) → ApplyResult
replay_setup s spec setup none =
    rejected (bootstrap_conflict "bounded group pool or catalog limits differ")
replay_setup s spec setup (some pool) = repeat_setup s setup pool (bootstrap_result spec)

-- The answer to a bootstrap of a group that has a specification; `same` is what it is if that is the same.
replay_bootstrap :
    GroupDb → GroupState → BootstrapSpec → GroupKind → ApplyResult → Option ApplyResult
replay_bootstrap db s spec expected same =
    if not (is_expected expected db.identity.kind)
    then some (rejected (identity_mismatch (wrong_group expected)))
    else elim s.bootstrap [
      | none ↦ none
      | some existing ↦
          if existing == spec
          then some same
          else some (rejected (bootstrap_conflict "bootstrap stream identity differs"))
    ]

unfoldable pub replay_included_command :
    GroupDb → GroupState → GroupCommand → HeldExportFence → Result IoError (Option ApplyResult)
unfolding replay_create replay_stream_bookmark replay_setup replay_bootstrap
replay_included_command db s (bootstrap_control spec setup) held =
    ok (replay_bootstrap db s spec control (replay_setup s spec setup s.data_group_pool))
replay_included_command db s (bootstrap_data spec) held =
    ok (replay_bootstrap db s spec data_group (bootstrap_result spec))
replay_included_command db s (create_stream_intent spec id) held =
    replay_create s spec (s.create_intents spec.request_id)
replay_included_command db s (replica_ready id group) held = ok (
    answer_if (lookup id s.streams)
      (λ d. not (d.lifecycle == preparing) || contains_group group d.ready_groups) stream)
replay_included_command db s (activate_stream id) held =
    ok (answer_if (lookup id s.streams) (λ d. d.lifecycle == StreamLifecycle.active) stream)
replay_included_command db s (begin_delete_stream id) held = ok (
    answer_if (lookup id s.streams)
      (λ d. d.lifecycle == StreamLifecycle.deleting || d.lifecycle == StreamLifecycle.deleted)
      stream)
replay_included_command db s (finish_delete_stream id) held =
    ok (answer_if (lookup id s.streams) (λ d. d.lifecycle == StreamLifecycle.deleted) stream)
replay_included_command db s (publish_many batch) held =
    ok (some (replay_publish_many db s batch held.token.export))
replay_included_command db s (create_bookmark id partition name offset) held =
    ok (answer_if (s.bookmark_ids id) (λ b. true) (λ b. repeat_bookmark b partition name offset))
replay_included_command db s (delete_bookmark partition id) held = ok (
    answer_if (s.bookmark_ids id) (λ b. b.cursor.partition == partition && b.lifecycle == deleted)
      bookmark)
replay_included_command db s (create_stream_bookmark id name vector) held =
    ok (answer_if (s.stream_bookmark_ids id) (λ b. true) (replay_stream_bookmark name vector))
replay_included_command db s (delete_stream_bookmark id b) held = ok (
    answer_if (s.stream_bookmark_ids b) (λ m. m.vector.stream == id && m.lifecycle == deleted)
      stream_bookmark)
replay_included_command db s (advance_retention request o) held =
    ok (prior_mutation_result s request.request (db.retention_fingerprint request))
replay_included_command db s (maintain_retention partition cursor max_records max_bytes o) held =
    ok (
      if not ((stored_retention s partition).reclaim_cursor == cursor)
      then some (status_of partition (stored_retention s partition))
      else none)
replay_included_command db s other held = ok none

-- The handler of a command.
unfoldable pub run_command :
    GroupDb → GroupState → LogId → GroupCommand → WriteBatch → Applied ApplyResult
run_command db s log (bootstrap_control spec setup) write =
    apply_bootstrap_control db s spec setup write
run_command db s log (bootstrap_data spec) write =
    let (result, refused, write') = apply_bootstrap db s spec data_group write in
    ok (result, write')
run_command db s log (create_stream_intent spec id) write = apply_create_stream db s spec id write
run_command db s log (replica_ready id group) write = apply_replica_ready s id group write
run_command db s log (activate_stream id) write = apply_activate_stream s id write
run_command db s log (begin_delete_stream id) write = apply_begin_delete s id write
run_command db s log (finish_delete_stream id) write = apply_finish_delete s id write
run_command db s log (publish_many batch) write = apply_publish_many db s log batch write
run_command db s log (compare_and_set_checkpoint m) write = apply_checkpoint_mutation db s m write
run_command db s log (create_bookmark id partition name offset) write =
    apply_create_bookmark db s id partition name offset write
run_command db s log (delete_bookmark partition id) write =
    apply_delete_bookmark s partition id write
run_command db s log (create_stream_bookmark id name vector) write =
    apply_create_stream_bookmark db s id name vector write
run_command db s log (delete_stream_bookmark id b) write = apply_delete_stream_bookmark s id b write
run_command db s log (advance_retention request o) write =
    apply_advance_retention db s request o write
run_command db s log (admit_replay_lease request o) write =
    apply_admit_replay_lease db s request o write
run_command db s log (renew_replay_lease request o) write =
    apply_renew_replay_lease db s request o write
run_command db s log (release_replay_lease request o) write =
    apply_release_replay_lease db s request o write
run_command db s log (maintain_retention partition cursor max_records max_bytes o) write =
    apply_maintain_retention db s partition cursor max_records max_bytes o write
run_command db s log (export_command c) write = apply_export db s log c write

-- An included mutation while the fence is held.
unfoldable pub hold_back :
    GroupDb → GroupState → GroupCommand → HeldExportFence → WriteBatch → Applied ApplyResult
hold_back db s command held write = elim (replay_included_command db s command held) [
  | err e ↦ err e
  | ok (some result) ↦ ok (result, write)
  | ok none ↦ ok (rejected (export_in_progress held.token.export definite_no_commit), write)
]

apply_gated :
    GroupDb
    → GroupState
    → LogId
    → GroupCommand
    → Option HeldExportFence
    → WriteBatch
    → Applied ApplyResult
apply_gated db s log command none write = run_command db s log command write
apply_gated db s log command (some held) write =
    if fence_class command == included_mutation
    then hold_back db s command held write
    else run_command db s log command write

unfoldable pub apply_command :
    GroupDb → GroupState → LogId → GroupCommand → WriteBatch → Applied ApplyResult
unfolding apply_gated
apply_command db s log command write =
    apply_gated db s log command (mutation_fence_state s).held write
