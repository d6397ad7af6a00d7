-- ===== src/Storage/State.antt =====
-- crates/light-stream-storage/src/lib.rs: the state of a group. One field stands for each key or
-- key range of the state column family of the active bank, and two for the payload column family.
-- A command reads the state as it was before the command; what its `WriteBatch` puts and deletes is
-- made on a second state, which begins as that one and takes its place when the batch is written.
use light_stream.Shared.{
  ◌≡◌, refl, ◌⊎◌, inl, inr, ℕ, String, Bool, false, Option, some, none, List, [], ◌||◌,
}
use light_stream.Core.Identity.{
  CatalogRequestId, ClusterId, StreamId, GroupId, BookmarkId, ReplayLeaseId, PartitionKey,
  MutationRequestId,
}
use light_stream.Core.Error.{DomainError, bookmark_name_conflict, invalid_range, Result, ok, err}
use light_stream.Core.Bookmark.{CommittedBookmark, CommittedStreamBookmark}
use light_stream.Core.Security.{SecurityPolicy, ClusterTopology}
use light_stream.Core.Publish.{PublishBatch, PublishReceipt, Payload}
use light_stream.Core.Checkpoint.{CommittedCheckpoint, CheckpointMutation}
use light_stream.Core.Replay.{
  ReplayLease, ReplayLeaseRequest, LeaseRenewal, LeaseRelease, RetentionRequest,
}
use light_stream.Core.Catalog.{
  CreateStreamSpec, BootstrapSpec, StreamDescriptor, AdministrationOperation,
}
use light_stream.Core.Operations.Fence.{MutationFenceState}
use light_stream.Core.Operations.Active.{ActiveExport}
use light_stream.Core.Operations.Receipt.{ExportReceipt}
use light_stream.Storage.Keys.{
  RecordKey, ReceiptKey, ProducerSessionKey, SessionKey, ConsumerKey, BookmarkNameKey,
  BookmarkOrderKey, StreamBookmarkNameKey, StreamBookmarkOrderKey, LogId, PayloadKey,
}
use light_stream.Storage.Result.{ApplyResult}
use light_stream.Storage.Retention.{PartitionRetentionState, SafeLeaseClock, LeaseBudget}

pub data GroupKind : Type 0 where
  control data_group : GroupKind

pub kind-cases : (g : GroupKind) → (g ≡ control) ⊎ (g ≡ data_group)
kind-cases control = inl refl
kind-cases data_group = inr refl

pub data StateBank : Type 0 where
  bank_a bank_b : StateBank

pub record GroupIdentity : Type 0 where
  pub cluster_id : ClusterId
  pub group_id : GroupId
  pub kind : GroupKind

-- What does not change while commands are applied: the identity of the group, the receipt window
-- and the active bank, and the digests, which are SHA-256 sums of serialised values, and a message
-- that is formatted with two numbers.
pub record GroupDb : Type 0 where
  pub identity : GroupIdentity
  pub receipt_window : ℕ
  pub active_bank : StateBank
  pub fingerprint : PublishBatch → String
  pub legacy_fingerprint : PublishBatch → String
  pub checkpoint_fingerprint : CheckpointMutation → String
  pub retention_fingerprint : RetentionRequest → String
  pub admission_fingerprint : ReplayLeaseRequest → String
  pub renewal_fingerprint : LeaseRenewal → String
  pub release_fingerprint : LeaseRelease → String
  pub replay_lease_id : MutationRequestId → ReplayLeaseId
  pub publish_bookmark_id : LogId → Option ℕ → BookmarkId
  pub past_tail_message : ℕ → ℕ → String

-- The two bits of `applied_banks` are two fields.
pub record PayloadOwners : Type 0 where
  pub raft_log : Bool
  pub applied_state : Bool
  pub applied_a : Bool
  pub applied_b : Bool

-- PayloadOwners::reachable
abbrev pub reachable : PayloadOwners → Bool
reachable o = o.raft_log || (o.applied_state || (o.applied_a || o.applied_b))

-- PayloadOwners::set_applied_in
abbrev pub set_applied_in : PayloadOwners → StateBank → Bool → PayloadOwners
set_applied_in o bank_a applied = record o { applied_a = applied; applied_state = false }
set_applied_in o bank_b applied = record o { applied_b = applied; applied_state = false }

pub record StoredRecord : Type 0 where
  pub payload_key : PayloadKey
  pub payload_bytes : ℕ
  pub cumulative_end_bytes : ℕ

pub record StoredReceipt : Type 0 where
  pub fingerprint : String
  pub receipt : PublishReceipt

pub data StoredPublishRejection : Type 0 where
  name_conflict : StoredPublishRejection
  range_rejected : String → StoredPublishRejection

pub data StoredPublishResult : Type 0 where
  stored_published : PublishReceipt → StoredPublishResult
  stored_rejected : StoredPublishRejection → StoredPublishResult

-- StoredPublishResult::as_result
abbrev pub as_result : StoredPublishResult → Result DomainError PublishReceipt
as_result (stored_published r) = ok r
as_result (stored_rejected name_conflict) = err bookmark_name_conflict
as_result (stored_rejected (range_rejected reason)) = err (invalid_range reason)

pub record VersionedStoredPublishOutcome : Type 0 where
  pub fingerprint : String
  pub result : StoredPublishResult

pub data StoredPublishOutcome : Type 0 where
  legacy : StoredReceipt → StoredPublishOutcome
  versioned : VersionedStoredPublishOutcome → StoredPublishOutcome

pub record StoredMutationReceipt : Type 0 where
  pub fingerprint : String
  pub result : ApplyResult

-- ProducerSessionState and MutationSessionState
pub record SessionState : Type 0 where
  pub highest_sequence : Option ℕ
  pub retained_sequences : List ℕ

abbrev pub no_session : SessionState
no_session = record { highest_sequence = none; retained_sequences = [] }

pub record StoredCreateIntent : Type 0 where
  pub spec : CreateStreamSpec
  pub stream_id : StreamId

pub record GroupState : Type 0 where
  pub bootstrap : Option BootstrapSpec
  pub next_offset : PartitionKey → Option ℕ
  pub retention : PartitionKey → Option PartitionRetentionState
  pub records : RecordKey → Option StoredRecord
  pub receipts : ReceiptKey → Option StoredPublishOutcome
  pub sessions : ProducerSessionKey → Option SessionState
  pub mutation_receipts : MutationRequestId → Option StoredMutationReceipt
  pub mutation_sessions : SessionKey → Option SessionState
  pub checkpoints : ConsumerKey → Option CommittedCheckpoint
  pub bookmark_ids : BookmarkId → Option CommittedBookmark
  pub bookmark_names : BookmarkNameKey → Option BookmarkId
  pub bookmark_order : BookmarkOrderKey → Option CommittedBookmark
  pub bookmark_publications : PartitionKey → Option ℕ
  pub stream_bookmark_ids : BookmarkId → Option CommittedStreamBookmark
  pub stream_bookmark_names : StreamBookmarkNameKey → Option BookmarkId
  pub stream_bookmark_order : StreamBookmarkOrderKey → Option CommittedStreamBookmark
  pub stream_bookmark_publications : StreamId → Option ℕ
  pub lease_clock : Option SafeLeaseClock
  pub lease_budget : Option LeaseBudget
  pub leases : List (ReplayLeaseId × ReplayLease)
  pub lease_requests : MutationRequestId → Option ReplayLeaseId
  pub reclaim_hints : List (PartitionKey × ℕ)
  pub mutation_fence : Option MutationFenceState
  pub active_export : Option ActiveExport
  pub export_epoch : Option ℕ
  pub export_receipts : List (MutationRequestId × ExportReceipt)
  pub export_sessions : SessionKey → Option ℕ
  pub data_group_pool : Option (List GroupId)
  pub streams : List (StreamId × StreamDescriptor)
  pub stream_names : String → Option StreamId
  pub create_intents : CatalogRequestId → Option StoredCreateIntent
  pub cluster_topology : Option ClusterTopology
  pub security_policy : Option SecurityPolicy
  pub max_streams : Option ℕ
  pub max_partitions : Option ℕ
  pub assignment_cursor : Option ℕ
  pub catalog_revision : Option ℕ
  pub active_administration : Option AdministrationOperation
  pub payload_owners : PayloadKey → Option PayloadOwners
  pub payloads : PayloadKey → Option Payload

abbrev pub WriteBatch : Type 0
WriteBatch = GroupState

-- What a command returns: an `io::Error` drops the batch.
abbrev pub Applied : Type 0 → Type 0
Applied A = Result String (A × WriteBatch)

-- Option::unwrap_or
abbrev pub unwrap_or {ℓ} : {A : Type ℓ} → Option A → A → A
unwrap_or (some x) d = x
unwrap_or none d = d

abbrev pub no_retention : PartitionRetentionState
no_retention = record {
  logical_floor = 0;
  reclaim_cursor = 0;
  logically_expired_bytes = 0;
  raft_only_bytes = 0;
  next_byte_position = 0;
  floor_byte_position = 0;
}

-- An empty group state.
abbrev pub empty_state : GroupState
empty_state = record {
  bootstrap = none;
  next_offset = λ k. none;
  retention = λ k. none;
  records = λ k. none;
  receipts = λ k. none;
  sessions = λ k. none;
  mutation_receipts = λ k. none;
  mutation_sessions = λ k. none;
  checkpoints = λ k. none;
  bookmark_ids = λ k. none;
  bookmark_names = λ k. none;
  bookmark_order = λ k. none;
  bookmark_publications = λ k. none;
  stream_bookmark_ids = λ k. none;
  stream_bookmark_names = λ k. none;
  stream_bookmark_order = λ k. none;
  stream_bookmark_publications = λ k. none;
  lease_clock = none;
  lease_budget = none;
  leases = [];
  lease_requests = λ k. none;
  reclaim_hints = [];
  mutation_fence = none;
  active_export = none;
  export_epoch = none;
  export_receipts = [];
  export_sessions = λ k. none;
  data_group_pool = none;
  streams = [];
  stream_names = λ k. none;
  create_intents = λ k. none;
  cluster_topology = none;
  security_policy = none;
  max_streams = none;
  max_partitions = none;
  assignment_cursor = none;
  catalog_revision = none;
  active_administration = none;
  payload_owners = λ k. none;
  payloads = λ k. none;
}
