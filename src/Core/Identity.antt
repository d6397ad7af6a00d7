-- ===== src/Core/Identity.antt =====
-- crates/light-stream-core/src/identity.rs, consensus.rs and the request identities of publish.rs
-- and replay.rs. A UUID and a numeric identity is its number, a name is its text; the parsers of
-- the names are not modelled.
use light_stream.Shared.{ℕ, String, Eq, String-discrete, ℕ_discrete}

abbrev pub ClusterId : Type 0
ClusterId = ℕ

abbrev pub StreamId : Type 0
StreamId = ℕ

abbrev pub CatalogRequestId : Type 0
CatalogRequestId = ℕ

abbrev pub GroupId : Type 0
GroupId = ℕ

abbrev pub NodeId : Type 0
NodeId = ℕ

abbrev pub PartitionId : Type 0
PartitionId = ℕ

abbrev pub BookmarkId : Type 0
BookmarkId = ℕ

abbrev pub ReplayLeaseId : Type 0
ReplayLeaseId = ℕ

abbrev pub ExportId : Type 0
ExportId = ℕ

abbrev pub RecordOffset : Type 0
RecordOffset = ℕ

abbrev pub PrincipalId : Type 0
PrincipalId = String

abbrev pub ConsumerId : Type 0
ConsumerId = String

abbrev pub BookmarkName : Type 0
BookmarkName = String

pub record PartitionKey : Type 0 where
  pub stream : StreamId
  pub partition : PartitionId

unfoldable pub PartitionKey-discrete : Discrete PartitionKey
PartitionKey-discrete = hlevel ℕ_discrete

instance abbrev pub partition_key_eq : Eq PartitionKey
partition_key_eq = record { decide_eq = PartitionKey-discrete }

pub record ProducerRequestId : Type 0 where
  pub principal : PrincipalId
  pub session : ℕ
  pub sequence : ℕ

unfoldable pub ProducerRequestId-discrete : Discrete ProducerRequestId
unfolding String-discrete
ProducerRequestId-discrete = hlevel (ℕ_discrete, String-discrete)

instance abbrev pub producer_request_eq : Eq ProducerRequestId
producer_request_eq = record { decide_eq = ProducerRequestId-discrete }

pub record MutationRequestId : Type 0 where
  pub principal : PrincipalId
  pub session : ℕ
  pub sequence : ℕ

unfoldable pub MutationRequestId-discrete : Discrete MutationRequestId
unfolding String-discrete
MutationRequestId-discrete = hlevel (ℕ_discrete, String-discrete)

instance abbrev pub mutation_request_eq : Eq MutationRequestId
mutation_request_eq = record { decide_eq = MutationRequestId-discrete }

pub data AmbiguousRequest : Type 0 where
  publish : ProducerRequestId → AmbiguousRequest
  mutation : MutationRequestId → AmbiguousRequest

pub data ConsensusGroup : Type 0 where
  control data_group : ConsensusGroup

pub record LeaderHint : Type 0 where
  pub node_id : NodeId
  pub public_uri : String

pub data RequestOutcome : Type 0 where
  definite_no_commit ambiguous_commit not_applicable : RequestOutcome

pub data ReplayLeaseLifecycle : Type 0 where
  active released expired : ReplayLeaseLifecycle

unfoldable pub ReplayLeaseLifecycle-discrete : Discrete ReplayLeaseLifecycle
ReplayLeaseLifecycle-discrete = hlevel

instance abbrev pub lifecycle_eq : Eq ReplayLeaseLifecycle
lifecycle_eq = record { decide_eq = ReplayLeaseLifecycle-discrete }
