-- ===== src/Core/Replay.antt =====
-- crates/light-stream-core/src/replay.rs: replay ranges and leases, retention requests. The
-- newtypes over u64 (`ByteCount`, `ByteLimit`, `LeaseDuration`, `LeaseDeadline`,
-- `LeaseGeneration`) are their numbers.
use light_stream.Shared.{ℕ, Bool, leb, ltb, saturating_add, ◌==◌, ◌&&◌, ◌||◌, not, if◌then◌else◌}
use light_stream.Core.Identity.{
  ClusterId, PartitionKey, RecordOffset, ReplayLeaseId, MutationRequestId, ReplayLeaseLifecycle,
  active, released, expired, lifecycle_eq,
}
use light_stream.Core.Error.{DomainError, invalid_range, Result, ok, err}

pub record ReplayRange : Type 0 where
  pub partition : PartitionKey
  pub start : RecordOffset
  pub end : RecordOffset

-- ReplayRange::new
unfoldable pub replay_range :
    PartitionKey → RecordOffset → RecordOffset → Result DomainError ReplayRange
replay_range partition start end =
    if leb end start
    then err (invalid_range "replay range must be nonempty and ordered")
    else ok (record { partition = partition; start = start; end = end })

-- ReplayRange::contains
unfoldable pub contains : ReplayRange → RecordOffset → Bool
contains r offset = leb r.start offset && ltb offset r.end

pub record ReplayLeaseRequest : Type 0 where
  pub request : MutationRequestId
  pub cluster : ClusterId
  pub range : ReplayRange
  pub duration : ℕ
  pub max_bytes : ℕ

pub record ReplayLease : Type 0 where
  pub id : ReplayLeaseId
  pub request : ReplayLeaseRequest
  pub protected_bytes : ℕ
  pub generation : ℕ
  pub expires_at : ℕ
  pub hard_expires_at : ℕ
  pub lifecycle : ReplayLeaseLifecycle

-- ReplayLease::admitted
abbrev pub admitted : ReplayLeaseId → ReplayLeaseRequest → ℕ → ℕ → ℕ → ReplayLease
admitted id request protected_bytes expires_at hard_expires_at = record {
  id = id;
  request = request;
  protected_bytes = protected_bytes;
  generation = 1;
  expires_at = expires_at;
  hard_expires_at = hard_expires_at;
  lifecycle = active;
}

-- LeaseGeneration::next
abbrev pub next_generation : ℕ → ℕ
next_generation g = saturating_add g 1

-- ReplayLease::renewed
unfoldable pub renewed : ReplayLease → ℕ → ℕ → Result DomainError ReplayLease
renewed l expires_at hard_expires_at =
    if not (l.lifecycle == active)
    then err (invalid_range "a terminal replay lease cannot be renewed")
    else if leb expires_at l.expires_at || ltb hard_expires_at expires_at
    then err (invalid_range "renewal must extend the lease without exceeding its hard expiry")
    else ok (record l {
      expires_at = expires_at;
      hard_expires_at = hard_expires_at;
      generation = next_generation l.generation;
    })

-- ReplayLease::released
unfoldable pub release_lease : ReplayLease → ReplayLease
release_lease l = record l { lifecycle = released; generation = next_generation l.generation }

-- ReplayLease::expired
unfoldable pub expire_lease : ReplayLease → ReplayLease
expire_lease l = record l { lifecycle = expired; generation = next_generation l.generation }

pub record LeaseRenewal : Type 0 where
  pub request : MutationRequestId
  pub partition : PartitionKey
  pub lease : ReplayLeaseId
  pub duration : ℕ

pub record LeaseRelease : Type 0 where
  pub request : MutationRequestId
  pub partition : PartitionKey
  pub lease : ReplayLeaseId

pub record RetentionRequest : Type 0 where
  pub request : MutationRequestId
  pub partition : PartitionKey
  pub target_floor : RecordOffset

pub record RetentionResult : Type 0 where
  pub request : MutationRequestId
  pub partition : PartitionKey
  pub previous_floor : RecordOffset
  pub floor : RecordOffset

pub record RetentionStatus : Type 0 where
  pub partition : PartitionKey
  pub logical_floor : RecordOffset
  pub reclaim_cursor : RecordOffset
  pub logically_expired_bytes : ℕ
  pub raft_only_bytes : ℕ
