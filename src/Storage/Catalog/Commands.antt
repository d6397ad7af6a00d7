-- ===== src/Storage/Catalog/Commands.antt =====
-- crates/light-stream-storage/src/lib.rs: the commands of the catalog together.
use light_stream.Shared.{
  ◌≡◌, Option, some, none, sym, subst, inl, inr, Bool-cases, nat_eq, string_eq, arith,
}
use light_stream.Core.Identity.{StreamId, GroupId}
use light_stream.Core.Error.{ok}
use light_stream.Core.Catalog.{CreateStreamSpec, create_stream_spec_eq, stream_lifecycle_eq}
use light_stream.Storage.Result.{ApplyResult}
use light_stream.Storage.State.{GroupDb, GroupState, WriteBatch, Applied}
use light_stream.Storage.Catalog.{next_revision_of, apply_create_stream}
use light_stream.Storage.Catalog.Changes.{
  ready_change, activate_change, begin_delete_change, apply_replica_ready, apply_activate_stream,
  apply_begin_delete, apply_finish_delete,
}
use light_stream.Storage.Catalog.Names.{
  is_deleted, IsIndexed, changed-IsIndexed, deleted-IsIndexed, created-IsIndexed,
}
use light_stream.Storage.Catalog.Lifecycle.{ready_lem, activate_lem, begin_lem, moves_live}
use light_stream.Storage.Catalog.Effects.{
  Effect, untouched, moved, created, on_stream-Effect, finish-Effect, create-Effect,
}

-- The commands on the catalog.
pub data CatalogCommand : Type 0 where
  create_stream : CreateStreamSpec → StreamId → CatalogCommand
  replica_ready : StreamId → GroupId → CatalogCommand
  activate_stream begin_delete_stream finish_delete_stream : StreamId → CatalogCommand

abbrev pub run_catalog_command : GroupDb → GroupState → CatalogCommand → Applied ApplyResult
run_catalog_command db s (create_stream spec id) = apply_create_stream db s spec id s
run_catalog_command db s (replica_ready id group) = apply_replica_ready s id group s
run_catalog_command db s (activate_stream id) = apply_activate_stream s id s
run_catalog_command db s (begin_delete_stream id) = apply_begin_delete s id s
run_catalog_command db s (finish_delete_stream id) = apply_finish_delete s id s

-- The stream that a command names.
abbrev pub stream_of : CatalogCommand → StreamId
stream_of (create_stream spec id) = id
stream_of (replica_ready id group) = id
stream_of (activate_stream id) = id
stream_of (begin_delete_stream id) = id
stream_of (finish_delete_stream id) = id

-- The group that a command reports as ready.
abbrev pub reported_by : CatalogCommand → Option GroupId
reported_by (replica_ready id group) = some group
reported_by command = none

-- A command on the catalog that applies leaves the state as it was; or creates the stream that it
-- names, as preparing and without ready groups, when the catalog has room and neither the identity nor
-- the name is taken; or joins the group that it reports, one of the placements', to the ready groups of
-- a preparing stream; or moves a stream one step forward: preparing, active, deleting, deleted, with its
-- ready groups kept. It becomes active only when the groups of its placements are the ready ones. A
-- stream keeps its identity, cluster, name and placements, the other streams stay, the names follow, and
-- the new revision is stored with the stream and as the catalog's.
pub catalog_command-Effect :
    (db : GroupDb) (s : GroupState) (command : CatalogCommand) (result : ApplyResult)
    (write : WriteBatch)
    → run_catalog_command db s command ≡ ok (result, write)
    → Effect s (stream_of command) (reported_by command) write
catalog_command-Effect db s (create_stream spec id) result write h =
    create-Effect none db s spec id result write h
catalog_command-Effect db s (replica_ready id group) result write h =
    on_stream-Effect (some group) s id (ready_change group (next_revision_of s)) result write
      (λ d d' e.
        let step = ready_lem group (next_revision_of s) d d' e in
        (step, (unfold ready_change in ground arith)))
      (unfold apply_replica_ready in h)
catalog_command-Effect db s (activate_stream id) result write h =
    on_stream-Effect none s id (activate_change (next_revision_of s)) result write
      (λ d d' e.
        let step = activate_lem none (next_revision_of s) d d' e in
        (step, (unfold activate_change in ground arith)))
      (unfold apply_activate_stream in h)
catalog_command-Effect db s (begin_delete_stream id) result write h =
    on_stream-Effect none s id (begin_delete_change (next_revision_of s)) result write
      (λ d d' e. begin_lem none (next_revision_of s) d d' e) (unfold apply_begin_delete in h)
catalog_command-Effect db s (finish_delete_stream id) result write h =
    finish-Effect none s id result write h

Effect-IsIndexed :
    (s write : GroupState) (id : StreamId) (reported : Option GroupId)
    → IsIndexed s
    → Effect s id reported write
    → IsIndexed write
Effect-IsIndexed s write id reported v (untouched e) = subst IsIndexed (sym e) v
Effect-IsIndexed s write id reported v (moved d d' e step a b c) =
    let live = moves_live reported d d' step.0 in
    elim (Bool-cases (is_deleted d')) [
      | inl f ↦ deleted-IsIndexed s write id d d' v e (step.1, step.2, live) f a (ground arith)
      | inr f ↦ changed-IsIndexed s write id d d' v e (step.1, step.2, live) f a (ground arith)
    ]
Effect-IsIndexed s write id reported v (created d m g l a b p c e f) =
    created-IsIndexed s write id d v a b p.0 (ground arith) c e

-- Each stream is stored under its identity, each name stands for one stream that has it and is not
-- deleted, and each stream that is not deleted is found by its name: every command on the catalog
-- that applies keeps this so.
pub catalog_command-IsIndexed :
    (db : GroupDb) (s : GroupState) (command : CatalogCommand) (result : ApplyResult)
    (write : WriteBatch)
    → IsIndexed s
    → run_catalog_command db s command ≡ ok (result, write)
    → IsIndexed write
catalog_command-IsIndexed db s command result write v h =
    Effect-IsIndexed s write (stream_of command) (reported_by command) v
      (catalog_command-Effect db s command result write h)
