-- ===== src/Core/Catalog.antt =====
-- crates/light-stream-core/src/catalog.rs, bootstrap.rs and recovery.rs: the descriptors that the
-- control group keeps.
use light_stream.Shared.{
  ℕ, String, List, Eq, String-discrete, string_eq, ℕ_discrete, nat_eq, ◌==◌, if◌then◌else◌,
}
use light_stream.Core.Error.{DomainError, invalid_range, Result, ok, err}
use light_stream.Core.Identity.{CatalogRequestId, ClusterId, StreamId, GroupId, NodeId, PartitionId}

pub record CreateStreamSpec : Type 0 where
  pub request_id : CatalogRequestId
  pub name : String
  pub partition_count : ℕ

unfoldable pub CreateStreamSpec-discrete : Discrete CreateStreamSpec
unfolding String-discrete
CreateStreamSpec-discrete = hlevel (ℕ_discrete, String-discrete)

instance abbrev pub create_stream_spec_eq : Eq CreateStreamSpec
create_stream_spec_eq = record { decide_eq = CreateStreamSpec-discrete }

-- CreateStreamSpec::new
unfoldable pub create_stream_spec :
    CatalogRequestId → String → ℕ → Result DomainError CreateStreamSpec
create_stream_spec request_id name partition_count =
    if partition_count == 0
    then err (invalid_range "stream partition count must be greater than zero")
    else ok (record { request_id = request_id; name = name; partition_count = partition_count })

pub data StreamLifecycle : Type 0 where
  preparing active deleting deleted : StreamLifecycle

unfoldable pub StreamLifecycle-discrete : Discrete StreamLifecycle
StreamLifecycle-discrete = hlevel

instance abbrev pub stream_lifecycle_eq : Eq StreamLifecycle
stream_lifecycle_eq = record { decide_eq = StreamLifecycle-discrete }

pub record PartitionPlacement : Type 0 where
  pub partition : PartitionId
  pub group : GroupId

pub record StreamDescriptor : Type 0 where
  pub cluster : ClusterId
  pub stream : StreamId
  pub name : String
  pub lifecycle : StreamLifecycle
  pub placements : List PartitionPlacement
  pub ready_groups : List GroupId
  pub revision : ℕ

pub record BootstrapSpec : Type 0 where
  pub cluster : ClusterId
  pub stream : StreamId
  pub stream_name : String

pub record BootstrapResult : Type 0 where
  pub cluster : ClusterId
  pub stream : StreamId
  pub stream_name : String
  pub control_group : GroupId
  pub data_group : GroupId

unfoldable pub BootstrapSpec-discrete : Discrete BootstrapSpec
unfolding String-discrete
BootstrapSpec-discrete = hlevel (ℕ_discrete, String-discrete)

instance abbrev pub bootstrap_spec_eq : Eq BootstrapSpec
bootstrap_spec_eq = record { decide_eq = BootstrapSpec-discrete }

pub record NodeDescriptor : Type 0 where
  pub node_id : NodeId
  pub public_uri : String
  pub peer_uri : String

pub data AdministrationIntent : Type 0 where
  replace_voter : ℕ → ℕ → NodeId → NodeDescriptor → AdministrationIntent
  transfer_leader : ℕ → GroupId → NodeId → AdministrationIntent

pub data AdministrationLifecycle : Type 0 where
  pending : AdministrationLifecycle
  complete aborted : ℕ → AdministrationLifecycle

pub record AdministrationOperation : Type 0 where
  pub intent : AdministrationIntent
  pub lifecycle : AdministrationLifecycle
