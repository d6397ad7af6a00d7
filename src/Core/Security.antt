-- ===== src/Core/Security.antt =====
-- crates/light-stream-core/src/security.rs and recovery.rs: the security policy and the topology that a
-- cluster is bootstrapped with. A map is the list of its entries in the order of the keys.
use light_stream.Shared.{ℕ, Eq, ℕ_discrete, String-discrete, List}
use light_stream.Core.Identity.{ClusterId, StreamId, NodeId, PrincipalId}
use light_stream.Core.Catalog.{NodeDescriptor}

pub data Permission : Type 0 where
  cluster_observe cluster_bootstrap stream_discover stream_create stream_describe : Permission
  stream_delete route_resolve publish fetch receipt_read bookmark_read bookmark_manage : Permission
  retention_read retention_manage replay_read replay_manage checkpoint_read : Permission
  checkpoint_manage snapshot_manage cluster_admin security_observe security_admin : Permission

pub data ResourceScope : Type 0 where
  cluster_scope all_streams : ClusterId → ResourceScope
  stream_scope : ClusterId → StreamId → ResourceScope

pub record Grant : Type 0 where
  pub permission : Permission
  pub scope : ResourceScope

pub record CredentialRef : Type 0 where
  pub id : ℕ
  pub generation : ℕ

pub data CredentialStatus : Type 0 where
  valid : CredentialStatus
  revoked : ℕ → CredentialStatus

pub record TokenVerifier : Type 0 where
  pub credential : CredentialRef
  pub principal : PrincipalId
  pub digest : ℕ
  pub status : CredentialStatus

pub record PeerCertificateBinding : Type 0 where
  pub cluster : ClusterId
  pub node : NodeId
  pub generation : ℕ
  pub fingerprint : ℕ
  pub status : CredentialStatus

pub record SecurityPolicy : Type 0 where
  pub cluster : ClusterId
  pub revision : ℕ
  pub revocation_revision : ℕ
  pub grants : List (PrincipalId × List Grant)
  pub token_verifiers : List TokenVerifier
  pub peer_certificates : List (NodeId × List PeerCertificateBinding)

pub record ClusterTopology : Type 0 where
  pub revision : ℕ
  pub authorized_nodes : List (NodeId × NodeDescriptor)
  pub desired_voters : List NodeId

unfoldable pub Permission-discrete : Discrete Permission
Permission-discrete = hlevel

unfoldable pub ResourceScope-discrete : Discrete ResourceScope
ResourceScope-discrete = hlevel ℕ_discrete

unfoldable pub Grant-discrete : Discrete Grant
unfolding Permission-discrete ResourceScope-discrete
Grant-discrete = hlevel (Permission-discrete, ResourceScope-discrete)

unfoldable pub CredentialStatus-discrete : Discrete CredentialStatus
CredentialStatus-discrete = hlevel ℕ_discrete

unfoldable pub TokenVerifier-discrete : Discrete TokenVerifier
unfolding CredentialStatus-discrete String-discrete
TokenVerifier-discrete = hlevel (ℕ_discrete, String-discrete, CredentialStatus-discrete)

unfoldable pub PeerCertificateBinding-discrete : Discrete PeerCertificateBinding
unfolding CredentialStatus-discrete
PeerCertificateBinding-discrete = hlevel (ℕ_discrete, CredentialStatus-discrete)

unfoldable pub SecurityPolicy-discrete : Discrete SecurityPolicy
unfolding Grant-discrete TokenVerifier-discrete PeerCertificateBinding-discrete String-discrete
SecurityPolicy-discrete = hlevel (
  ℕ_discrete, String-discrete, Grant-discrete, TokenVerifier-discrete,
  PeerCertificateBinding-discrete,
)

instance abbrev pub security_policy_eq : Eq SecurityPolicy
security_policy_eq = record { decide_eq = SecurityPolicy-discrete }

unfoldable pub ClusterTopology-discrete : Discrete ClusterTopology
unfolding String-discrete
ClusterTopology-discrete = hlevel (ℕ_discrete, String-discrete)

instance abbrev pub cluster_topology_eq : Eq ClusterTopology
cluster_topology_eq = record { decide_eq = ClusterTopology-discrete }
