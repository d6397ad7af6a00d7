-- ===== src/Core/Operations.antt =====
-- crates/light-stream-core/src/operations.rs: the values of the export protocol. A 32-byte digest
-- is its number. What hashes a request (`canonical_request_digest`, SHA-256) is a parameter.
pub mod Selection
pub mod Fence
pub mod Active
pub mod Receipt
use light_stream.Shared.BTreeSet
use light_stream.Shared.{
  ℕ, zero, ◌+◌, ◌-◌, ◌*◌, ◌/◌, ◌%◌, ◌^◌, Option, List, [], ◌∷◌, Eq, nat_eq, ℕ_discrete, ltb, leb,
  length, btree_insert, ◌==◌, not, if◌then◌else◌,
}
use light_stream.Core.Identity.{
  ClusterId, StreamId, GroupId, NodeId, ExportId, MutationRequestId, MutationRequestId-discrete,
}
use light_stream.Core.Error.{
  DomainError, invalid_identity, invalid_range, resource_limit, Result, ok, err,
}

abbrev pub ExportEpoch : Type 0
ExportEpoch = ℕ

-- ExportEpoch::new
unfoldable pub export_epoch : ℕ → Result DomainError ExportEpoch
export_epoch value =
    if value == 0 then err (invalid_identity "export epoch" "zero is reserved") else ok value

abbrev pub ExportRequestDigest : Type 0
ExportRequestDigest = ℕ

-- The first 16 of the 32 bytes, with byte 6 set to (b & 0x0f) | 0x80 and byte 8 to
-- (b & 0x3f) | 0x80.
unfoldable pub export_id_from_digest : ExportRequestDigest → ExportId
export_id_from_digest d =
    let n = d / 2 ^ 128 in
    let b6 = n / 2 ^ 72 % 256 in
    let b8 = n / 2 ^ 56 % 256 in
    n - b6 * 2 ^ 72 - b8 * 2 ^ 56 + (b6 % 16 + 128) * 2 ^ 72 + (b8 % 64 + 128) * 2 ^ 56

pub record ExportDeadline : Type 0 where
  pub lower_bound_unix_ms : ℕ
  pub upper_bound_unix_ms : ℕ

-- ExportDeadline::new
unfoldable pub export_deadline : ℕ → ℕ → Result DomainError ExportDeadline
export_deadline lower upper =
    if ltb upper lower
    then err (invalid_range "export deadline lower bound exceeds upper bound")
    else ok (record { lower_bound_unix_ms = lower; upper_bound_unix_ms = upper })

unfoldable pub ExportDeadline-discrete : Discrete ExportDeadline
ExportDeadline-discrete = hlevel ℕ_discrete

instance abbrev pub export_deadline_eq : Eq ExportDeadline
export_deadline_eq = record { decide_eq = ExportDeadline-discrete }

-- The streams of an `ExportSelection`, sorted.
pub record ExportIntent : Type 0 where
  pub request : MutationRequestId
  pub cluster : ClusterId
  pub selection : List StreamId
  pub request_digest : ExportRequestDigest
  pub export : ExportId

-- ExportIntent::new, for the digest of its fields.
unfoldable pub export_intent :
    (MutationRequestId → ClusterId → List StreamId → ExportRequestDigest)
    → MutationRequestId
    → ClusterId
    → List StreamId
    → ExportIntent
export_intent canonical_request_digest request cluster selection =
    let digest = canonical_request_digest request cluster selection in
    record {
      request = request;
      cluster = cluster;
      selection = selection;
      request_digest = digest;
      export = export_id_from_digest digest;
    }

pub record ExportFenceToken : Type 0 where
  pub epoch : ExportEpoch
  pub export : ExportId
  pub request_digest : ExportRequestDigest

unfoldable pub ExportFenceToken-discrete : Discrete ExportFenceToken
ExportFenceToken-discrete = hlevel ℕ_discrete

instance abbrev pub fence_token_eq : Eq ExportFenceToken
fence_token_eq = record { decide_eq = ExportFenceToken-discrete }

-- ExportFenceToken::new
abbrev pub fence_token : ExportEpoch → ExportRequestDigest → ExportFenceToken
fence_token epoch digest = record {
  epoch = epoch;
  export = export_id_from_digest digest;
  request_digest = digest;
}

pub record GroupCut : Type 0 where
  pub group : GroupId
  pub term : ℕ
  pub leader : NodeId
  pub applied_index : ℕ

unfoldable pub GroupCut-discrete : Discrete GroupCut
GroupCut-discrete = hlevel ℕ_discrete

instance abbrev pub group_cut_eq : Eq GroupCut
group_cut_eq = record { decide_eq = GroupCut-discrete }

unfoldable pub OptionGroupCut-discrete : Discrete (Option GroupCut)
unfolding GroupCut-discrete
OptionGroupCut-discrete = hlevel ℕ_discrete

instance abbrev pub option_group_cut_eq : Eq (Option GroupCut)
option_group_cut_eq = record { decide_eq = OptionGroupCut-discrete }

pub record QuiescentCut : Type 0 where
  pub control : GroupCut
  pub data_cuts : List (GroupId × GroupCut)

unfoldable pub QuiescentCut-discrete : Discrete QuiescentCut
unfolding GroupCut-discrete
QuiescentCut-discrete = hlevel ℕ_discrete

instance abbrev pub quiescent_cut_eq : Eq QuiescentCut
quiescent_cut_eq = record { decide_eq = QuiescentCut-discrete }

unfoldable pub collect_cuts : List GroupCut → List (GroupId × GroupCut)
collect_cuts [] = []
collect_cuts (c ∷ cs) = btree_insert c.group c (collect_cuts cs)

-- QuiescentCut::try_new
unfoldable pub quiescent_cut : GroupCut → List GroupCut → Result DomainError QuiescentCut
unfolding collect_cuts
quiescent_cut control cuts =
    let collected = collect_cuts cuts in
    if not (length collected == length cuts)
    then err (invalid_identity "quiescent cut" "data group cuts must be unique")
    else ok (record { control = control; data_cuts = collected })

pub record ExportSpec : Type 0 where
  pub intent : ExportIntent
  pub epoch : ExportEpoch
  pub configured_data_groups : List GroupId
  pub deadline : ExportDeadline

abbrev pub max_data_groups : ℕ
max_data_groups = 32

-- ExportSpec::try_new
unfoldable pub export_spec :
    ExportIntent → ExportEpoch → List GroupId → ExportDeadline → Result DomainError ExportSpec
export_spec intent epoch groups deadline =
    if length groups == 0
    then err (invalid_range "export requires at least one configured data group")
    else if ltb max_data_groups (length groups)
    then err (resource_limit "export_data_groups" max_data_groups)
    else if not (length (BTreeSet.from_list groups) == length groups)
    then err (invalid_identity "export data groups" "configured data group IDs must be unique")
    else ok (record {
      intent = intent;
      epoch = epoch;
      configured_data_groups = BTreeSet.from_list groups;
      deadline = deadline;
    })

-- ExportSpec::token
abbrev pub spec_token : ExportSpec → ExportFenceToken
spec_token s = fence_token s.epoch s.intent.request_digest

pub record ArtifactIdentity : Type 0 where
  pub length : ℕ
  pub sha256 : ℕ

-- ArtifactIdentity::new
unfoldable pub artifact_identity : ℕ → ℕ → Result DomainError ArtifactIdentity
artifact_identity bytes sha256 =
    if bytes == 0
    then err (invalid_range "export artifact length must be greater than zero")
    else ok (record { length = bytes; sha256 = sha256 })

unfoldable pub ArtifactIdentity-discrete : Discrete ArtifactIdentity
ArtifactIdentity-discrete = hlevel ℕ_discrete

instance abbrev pub artifact_eq : Eq ArtifactIdentity
artifact_eq = record { decide_eq = ArtifactIdentity-discrete }

pub data ExportAbortReason : Type 0 where
  operator_requested deadline_exceeded materialization_failed : ExportAbortReason

unfoldable pub ExportAbortReason-discrete : Discrete ExportAbortReason
ExportAbortReason-discrete = hlevel

instance abbrev pub abort_reason_eq : Eq ExportAbortReason
abort_reason_eq = record { decide_eq = ExportAbortReason-discrete }
