-- ===== src/Storage/Dispatch/Fence.antt =====
-- crates/light-stream-storage/src/lib.rs, `apply_command`: a group whose fence is held is frozen.
use light_stream.Shared.{◌≡◌, ◌≢◌, refl, inl, inr, true, Option-cases, Option, some, nat_eq, arith}
use light_stream.Core.Identity.{partition_key_eq}
use light_stream.Core.Error.{Result-cases, ok}
use light_stream.Core.Checkpoint.{CheckpointMutation, CommittedCheckpoint}
use light_stream.Core.Operations.Fence.{HeldExportFence}
use light_stream.Storage.Keys.{LogId}
use light_stream.Storage.Result.{ApplyResult}
use light_stream.Storage.State.{GroupDb, GroupState, WriteBatch, kind-cases}
use light_stream.Storage.Mutations.{prior_mutation_result, store_mutation_result}
use light_stream.Storage.Checkpoints.{
  consumer_key, apply_checkpoint_mutation, checkpoint_bootstrapped, compare_and_set,
  store_checkpoint_result, advance_checkpoint,
}
use light_stream.Storage.Exports.{mutation_fence_state}
use light_stream.Storage.Leases.{is_fenced}
use light_stream.Storage.Dispatch.{
  GroupCommand, export_protocol, fence_class, command_fence_class_eq, replay_included_command,
  run_command, hold_back, apply_command,
}
use light_stream.Storage.Dispatch.Frozen.{
  IsFrozen, admit-IsFrozen, renew-IsFrozen, release-IsFrozen,
}
use light_stream.Storage.Dispatch.{
  compare_and_set_checkpoint, admit_replay_lease, renew_replay_lease, release_replay_lease,
  export_command, included_mutation, excluded_mutation,
}

compare-IsFrozen :
    (db : GroupDb) (s : GroupState) (m : CheckpointMutation) (current : Option CommittedCheckpoint)
    (result : ApplyResult) (write : WriteBatch)
    → compare_and_set db s m current s ≡ ok (result, write)
    → IsFrozen s write
unfolding compare_and_set store_checkpoint_result advance_checkpoint store_mutation_result
compare-IsFrozen db s m current result write e = ground arith

checkpoint-IsFrozen :
    (db : GroupDb) (s : GroupState) (m : CheckpointMutation) (result : ApplyResult)
    (write : WriteBatch)
    → apply_checkpoint_mutation db s m s ≡ ok (result, write)
    → IsFrozen s write
checkpoint-IsFrozen db s m result write e = elim (kind-cases db.identity.kind) [
  | inl f ↦ unfold apply_checkpoint_mutation in ground arith
  | inr f ↦ elim (Option-cases s.bootstrap) [
    | inl g ↦ unfold apply_checkpoint_mutation checkpoint_bootstrapped in ground arith
    | inr (spec, g) ↦
        elim (Option-cases (prior_mutation_result s m.request (db.checkpoint_fingerprint m))) [
          | inr (r, p) ↦ unfold apply_checkpoint_mutation checkpoint_bootstrapped in ground arith
          | inl p ↦
              let kept =
                compare-IsFrozen db s m (s.checkpoints (consumer_key m.key)) result write in
              unfold apply_checkpoint_mutation checkpoint_bootstrapped in ground arith
        ]
  ]
]

hold_back-IsFrozen :
    (db : GroupDb) (s : GroupState) (command : GroupCommand) (held : HeldExportFence)
    (result : ApplyResult) (write : WriteBatch)
    → hold_back db s command held s ≡ ok (result, write)
    → IsFrozen s write
unfolding hold_back
hold_back-IsFrozen db s command held result write e =
    elim (Result-cases (replay_included_command db s command held)) [
      | inr (m, f) ↦ ground arith
      | inl (r, f) ↦ elim (Option-cases r) [ inl g ↦ ground arith | inr (x, g) ↦ ground arith ]
    ]

is_fenced_of_held :
    (s : GroupState) (held : HeldExportFence)
    → (mutation_fence_state s).held ≡ some held
    → is_fenced s ≡ true
unfolding is_fenced
is_fenced_of_held s held h = ground arith

held_command :
    (db : GroupDb) (s : GroupState) (log : LogId) (command : GroupCommand) (held : HeldExportFence)
    (result : ApplyResult) (write : WriteBatch)
    → (mutation_fence_state s).held ≡ some held
    → fence_class command ≡ included_mutation
    → apply_command db s log command s ≡ ok (result, write)
    → IsFrozen s write
held_command db s log command held result write h c e =
    hold_back-IsFrozen db s command held result write (unfold apply_command in ground arith)

excluded_command :
    (db : GroupDb) (s : GroupState) (log : LogId) (command : GroupCommand) (held : HeldExportFence)
    (result : ApplyResult) (write : WriteBatch)
    → (mutation_fence_state s).held ≡ some held
    → fence_class command ≡ excluded_mutation
    → apply_command db s log command s ≡ ok (result, write)
    → run_command db s log command s ≡ ok (result, write)
unfolding apply_command
excluded_command db s log command held result write h c e = ground arith

-- While the mutation fence of a group is held, none of the commands of bootstrap, of the catalog, of
-- bookmarks, of batched publishes, of retention, of replay leases and of checkpoints changes what a logical
-- export reads: records, payloads and their owners, tails, retention states, outcomes of publishes,
-- streams and their names, bookmarks with their indices and publication counters, the revision, cursor,
-- limits and pool of the catalog, the group's specification and the active export stay as they are, and
-- so does the fence. This holds on every branch that applies. The commands of administration, security
-- and the probe and the single publish are not among these.
pub apply_command-IsFrozen :
    (db : GroupDb) (s : GroupState) (log : LogId) (command : GroupCommand) (held : HeldExportFence)
    (result : ApplyResult) (write : WriteBatch)
    → (mutation_fence_state s).held ≡ some held
    → fence_class command ≢ export_protocol
    → apply_command db s log command s ≡ ok (result, write)
    → IsFrozen s write
apply_command-IsFrozen db s log (compare_and_set_checkpoint m) held result write h c e =
    let run = excluded_command db s log (compare_and_set_checkpoint m) held result write h refl e in
    checkpoint-IsFrozen db s m result write (unfold run_command in run)
apply_command-IsFrozen db s log (admit_replay_lease request o) held result write h c e =
    let run = excluded_command db s log (admit_replay_lease request o) held result write h refl e in
    admit-IsFrozen db s (is_fenced_of_held s held h) request o result write
      (unfold run_command in run)
apply_command-IsFrozen db s log (renew_replay_lease request o) held result write h c e =
    let run = excluded_command db s log (renew_replay_lease request o) held result write h refl e in
    renew-IsFrozen db s (is_fenced_of_held s held h) request o result write
      (unfold run_command in run)
apply_command-IsFrozen db s log (release_replay_lease request o) held result write h c e =
    let run =
      excluded_command db s log (release_replay_lease request o) held result write h refl e in
    release-IsFrozen db s (is_fenced_of_held s held h) request o result write
      (unfold run_command in run)
apply_command-IsFrozen db s log (export_command x) held result write h c e = absurd (c refl)
apply_command-IsFrozen db s log other held result write h c e =
    held_command db s log other held result write h refl e
