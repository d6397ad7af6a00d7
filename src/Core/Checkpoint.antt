-- ===== src/Core/Checkpoint.antt =====
-- crates/light-stream-core/src/checkpoint.rs
use light_stream.Shared.{
  ℕ, Option, Eq, nat_eq, ℕ_discrete, String-discrete, checked_add, ◌==◌, ◌||◌, not, if◌then◌else◌,
}
use light_stream.Core.Identity.{
  ClusterId, ConsumerId, PartitionKey, PartitionKey-discrete, partition_key_eq, MutationRequestId,
}
use light_stream.Core.Error.{DomainError, identity_mismatch, invalid_range, Result, ok, err, ok_or}
use light_stream.Core.Cursor.{CommittedCursor}

pub record CheckpointKey : Type 0 where
  pub cluster : ClusterId
  pub partition : PartitionKey
  pub consumer : ConsumerId

unfoldable pub CheckpointKey-discrete : Discrete CheckpointKey
unfolding PartitionKey-discrete String-discrete
CheckpointKey-discrete = hlevel (ℕ_discrete, String-discrete)

instance abbrev pub checkpoint_key_eq : Eq CheckpointKey
checkpoint_key_eq = record { decide_eq = CheckpointKey-discrete }

-- A revision is a nonzero number.
abbrev pub CheckpointRevision : Type 0
CheckpointRevision = ℕ

-- CheckpointRevision::initial
abbrev pub initial_revision : CheckpointRevision
initial_revision = 1

-- CheckpointRevision::checked_next
unfoldable pub checked_next : CheckpointRevision → Result DomainError CheckpointRevision
checked_next r = ok_or (checked_add r 1) (invalid_range "checkpoint revision overflow")

pub data CheckpointExpectation : Type 0 where
  missing : CheckpointExpectation
  revision : CheckpointRevision → CheckpointExpectation

pub record CheckpointMutation : Type 0 where
  pub request : MutationRequestId
  pub key : CheckpointKey
  pub expected : CheckpointExpectation
  pub candidate : CommittedCursor

-- CheckpointMutation::new
unfoldable pub checkpoint_mutation :
    MutationRequestId
    → CheckpointKey
    → CheckpointExpectation
    → CommittedCursor
    → Result DomainError CheckpointMutation
checkpoint_mutation request key expected candidate =
    if not (candidate.cluster == key.cluster) || not (candidate.partition == key.partition)
    then err (identity_mismatch "checkpoint candidate does not match its key")
    else ok (record { request = request; key = key; expected = expected; candidate = candidate })

pub record CommittedCheckpoint : Type 0 where
  pub key : CheckpointKey
  pub cursor : CommittedCursor
  pub revision : CheckpointRevision

pub data CheckpointCasResult : Type 0 where
  advanced :
      MutationRequestId → Option CommittedCheckpoint → CommittedCheckpoint → CheckpointCasResult
  conflict : MutationRequestId → Option CommittedCheckpoint → CheckpointCasResult
