-- ===== src/Storage/Checkpoints.antt =====
-- crates/light-stream-storage/src/lib.rs: apply_checkpoint_mutation.
pub mod Cursors
pub mod Retries
use light_stream.Shared.{
  ℕ, Bool, true, false, Option, some, none, nat_eq, set_at, ltb, ◌==◌, ◌||◌, not, if◌then◌else◌,
}
use light_stream.Core.Identity.{PartitionKey}
use light_stream.Core.Error.{
  identity_mismatch, not_bootstrapped, checkpoint_ahead_of_tail, checkpoint_regression, DomainError,
  invalid_range, Result, ok, err, IoError,
}
use light_stream.Core.Checkpoint.{
  CheckpointKey, CheckpointRevision, initial_revision, checked_next, CheckpointExpectation, missing,
  revision, CheckpointMutation, CommittedCheckpoint, advanced, conflict,
}
use light_stream.Core.Catalog.{BootstrapSpec}
use light_stream.Storage.Keys.{ConsumerKey, consumer_key_eq}
use light_stream.Storage.Result.{ApplyResult, checkpoint, rejected}
use light_stream.Storage.State.{
  GroupDb, GroupState, WriteBatch, Applied, control, data_group, unwrap_or,
}
use light_stream.Storage.Mutations.{prior_mutation_result, store_mutation_result}

-- checkpoint_key
abbrev pub consumer_key : CheckpointKey → ConsumerKey
consumer_key k = record { partition = k.partition; consumer = k.consumer }

unfoldable pub expectation_matches : CheckpointExpectation → Option CommittedCheckpoint → Bool
expectation_matches missing none = true
expectation_matches (revision expected) (some current) = expected == current.revision
expectation_matches _ _ = false

-- `candidate < current.cursor().next_offset()`, when there is a checkpoint.
regresses : ℕ → Option CommittedCheckpoint → Option ℕ
regresses candidate none = none
regresses candidate (some current) =
    if ltb candidate current.cursor.next_offset then some current.cursor.next_offset else none

-- An overflow of the revision is an `io::Error`.
unfoldable pub next_revision : Option CommittedCheckpoint → Result IoError CheckpointRevision
unfolding checked_next
next_revision none = ok initial_revision
next_revision (some current) = elim (checked_next current.revision) [
  | ok r ↦ ok r
  | err e ↦ err "invalid committed range: checkpoint revision overflow"
]

-- The checkpoint is stored, with the receipt.
unfoldable pub advance_checkpoint :
    GroupDb
    → GroupState
    → CheckpointMutation
    → Option CommittedCheckpoint
    → CheckpointRevision
    → WriteBatch
    → Applied ApplyResult
advance_checkpoint db s m current rev write =
    let stored : CommittedCheckpoint = record {
      key = m.key;
      cursor = m.candidate;
      revision = rev;
    } in
    let result = checkpoint (advanced m.request current stored) in
    let write' : WriteBatch = record write {
      checkpoints = set_at write.checkpoints (consumer_key m.key) (some stored);
    } in
    ok (result, store_mutation_result db s m.request (db.checkpoint_fingerprint m) result write')

-- A result that is stored although nothing else is written.
unfoldable pub store_checkpoint_result :
    GroupDb → GroupState → CheckpointMutation → ApplyResult → WriteBatch → Applied ApplyResult
store_checkpoint_result db s m result write =
    ok (result, store_mutation_result db s m.request (db.checkpoint_fingerprint m) result write)

unfoldable pub compare_and_set :
    GroupDb
    → GroupState
    → CheckpointMutation
    → Option CommittedCheckpoint
    → WriteBatch
    → Applied ApplyResult
unfolding expectation_matches regresses next_revision
compare_and_set db s m current write =
    if not (expectation_matches m.expected current)
    then store_checkpoint_result db s m (checkpoint (conflict m.request current)) write
    else (let tail = unwrap_or (s.next_offset m.key.partition) 0 in
        if ltb tail m.candidate.next_offset
        then store_checkpoint_result db s m
            (rejected (checkpoint_ahead_of_tail m.candidate.next_offset tail)) write
        else elim (regresses m.candidate.next_offset current) [
          | some position ↦
              store_checkpoint_result db s m
                (rejected (checkpoint_regression position m.candidate.next_offset)) write
          | none ↦ elim (next_revision current) [
            | err e ↦ err e
            | ok rev ↦ advance_checkpoint db s m current rev write
          ]
        ])

unfoldable pub checkpoint_bootstrapped :
    GroupDb
    → GroupState
    → CheckpointMutation
    → Option BootstrapSpec
    → WriteBatch
    → Applied ApplyResult
checkpoint_bootstrapped db s m none write = ok (rejected not_bootstrapped, write)
checkpoint_bootstrapped db s m (some spec) write =
    elim (prior_mutation_result s m.request (db.checkpoint_fingerprint m)) [
      | some result ↦ ok (result, write)
      | none ↦
          if not (m.key.cluster == db.identity.cluster_id) || not (m.key.cluster == spec.cluster)
          then ok (
            rejected (identity_mismatch "checkpoint cluster does not match the data group"),
            write,
          )
          else compare_and_set db s m (s.checkpoints (consumer_key m.key)) write
    ]

unfoldable pub apply_checkpoint_mutation :
    GroupDb → GroupState → CheckpointMutation → WriteBatch → Applied ApplyResult
unfolding checkpoint_bootstrapped
apply_checkpoint_mutation db s m write = elim db.identity.kind [
  | control ↦
      ok (rejected (identity_mismatch "checkpoint mutation reached the control group"), write)
  | data_group ↦ checkpoint_bootstrapped db s m s.bootstrap write
]
