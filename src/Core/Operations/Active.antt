-- ===== src/Core/Operations/Active.antt =====
-- crates/light-stream-core/src/operations.rs: the active export and its phases.
pub mod Groups
pub mod Phases
pub mod Retries
use light_stream.Shared.BTreeSet
use light_stream.Shared.{
  ℕ, Bool, true, false, Option, some, none, List, [], ◌∷◌, Eq, nat_eq, ℕ_discrete, ltb, btree_get,
  btree_insert, btree_keys, btree_values, ◌==◌, ◌||◌, not, if◌then◌else◌,
}
use light_stream.Core.Identity.{GroupId, ExportId, MutationRequestId}
use light_stream.Core.Error.{DomainError, export_conflict, invalid_identity, Result, ok, err, ◌>>=◌}
use light_stream.Core.Operations.{
  ExportEpoch, ExportRequestDigest, ExportDeadline, ExportSpec, spec_token, ExportFenceToken,
  fence_token_eq, GroupCut, group_cut_eq, option_group_cut_eq, QuiescentCut, quiescent_cut,
  quiescent_cut_eq, ArtifactIdentity, artifact_eq, ExportAbortReason, abort_reason_eq,
  export_id_from_digest,
}
use light_stream.Core.Operations.Fence.{HeldExportFence, ExportFenceObservation}

pub record PreparingExport : Type 0 where
  pub control_cut : GroupCut
  pub fenced_groups : List (GroupId × GroupCut)

pub record AvailableExport : Type 0 where
  pub cut : QuiescentCut
  pub artifact : ArtifactIdentity

pub record ReleasingExport : Type 0 where
  pub cut : QuiescentCut
  pub artifact : ArtifactIdentity
  pub released_groups : List GroupId

pub record AbortingExport : Type 0 where
  pub reason : ExportAbortReason
  pub released_groups : List GroupId

pub data ActiveExportPhase : Type 0 where
  preparing : PreparingExport → ActiveExportPhase
  frozen : QuiescentCut → ActiveExportPhase
  materializing : QuiescentCut → ActiveExportPhase
  available : AvailableExport → ActiveExportPhase
  releasing : ReleasingExport → ActiveExportPhase
  aborting : AbortingExport → ActiveExportPhase

pub record ActiveExport : Type 0 where
  pub spec : ExportSpec
  pub phase : ActiveExportPhase

-- ActiveExport::preparing
abbrev pub preparing_export : ExportSpec → GroupCut → ActiveExport
preparing_export spec control_cut = record {
  spec = spec;
  phase = preparing (record { control_cut = control_cut; fenced_groups = [] });
}

-- ActiveExport::cut
unfoldable pub cut_of : ActiveExportPhase → Option QuiescentCut
cut_of (preparing p) = none
cut_of (frozen c) = some c
cut_of (materializing c) = some c
cut_of (available a) = some a.cut
cut_of (releasing r) = some r.cut
cut_of (aborting a) = none

pub held_cut : Option HeldExportFence → Option GroupCut
held_cut (some h) = some h.cut
held_cut none = none

-- `record_fence` in a phase with a cut, or in `Aborting`.
unfoldable pub confirm_fence :
    ActiveExport → Option QuiescentCut → ExportFenceObservation → Result DomainError ActiveExport
unfolding held_cut
confirm_fence a (some cut) o =
    if btree_get cut.data_cuts o.group == held_cut o.held then ok a else err export_conflict
confirm_fence a none o = err export_conflict

-- `record_fence` in `Preparing`, once the held fence has the export's token and a cut of the group.
unfoldable pub insert_fence :
    ActiveExport → PreparingExport → GroupId → GroupCut → Result DomainError ActiveExport
insert_fence a p group cut =
    let fenced = btree_insert group cut p.fenced_groups in
    if BTreeSet.equal (btree_keys fenced) a.spec.configured_data_groups
    then (quiescent_cut p.control_cut (btree_values fenced) >>= λ q.
        ok (record a { phase = frozen q }))
    else ok (record a { phase = preparing (record p { fenced_groups = fenced }) })

unfoldable pub repeat_fence :
    ActiveExport
    → PreparingExport
    → Option GroupCut
    → GroupId
    → GroupCut
    → Result DomainError ActiveExport
unfolding insert_fence
repeat_fence a p (some existing) group cut = if existing == cut then ok a else err export_conflict
repeat_fence a p none group cut = insert_fence a p group cut

unfoldable pub observe_fence :
    ActiveExport
    → PreparingExport
    → GroupId
    → Option HeldExportFence
    → Result DomainError ActiveExport
unfolding repeat_fence
observe_fence a p group (some held) =
    if not (held.token == spec_token a.spec)
    then err export_conflict
    else if not (held.cut.group == group)
    then err (
        invalid_identity "export fence observation" "observation group does not match the held cut")
    else repeat_fence a p (btree_get p.fenced_groups group) group held.cut
observe_fence a p group none = err export_conflict

unfoldable pub record_fence_in :
    ActiveExport → ActiveExportPhase → ExportFenceObservation → Result DomainError ActiveExport
unfolding observe_fence confirm_fence cut_of
record_fence_in a (preparing p) o =
    if not (BTreeSet.contains a.spec.configured_data_groups o.group)
    then err (
        invalid_identity "export fence observation" "group is not in the configured data-group set")
    else observe_fence a p o.group o.held
record_fence_in a phase o = confirm_fence a (cut_of phase) o

-- ActiveExport::record_fence
unfoldable pub record_fence :
    ActiveExport → ExportFenceObservation → Result DomainError ActiveExport
unfolding record_fence_in
record_fence a o = record_fence_in a a.phase o

materialize_phase : ActiveExport → ActiveExportPhase → Result DomainError ActiveExport
materialize_phase a (frozen cut) = ok (record a { phase = materializing cut })
materialize_phase a (materializing cut) = ok a
materialize_phase a phase = err export_conflict

-- ActiveExport::begin_materialization
unfoldable pub begin_materialization : ActiveExport → Result DomainError ActiveExport
unfolding materialize_phase
begin_materialization a = materialize_phase a a.phase

publish_phase :
    ActiveExport
    → ActiveExportPhase
    → ArtifactIdentity
    → QuiescentCut
    → Result DomainError ActiveExport
publish_phase a (materializing expected) artifact cut =
    if expected == cut
    then ok (record a { phase = available (record { cut = cut; artifact = artifact }) })
    else err export_conflict
publish_phase a (available existing) artifact cut =
    if existing.cut == cut
    then (if existing.artifact == artifact then ok a else err export_conflict)
    else err export_conflict
publish_phase a phase artifact cut = err export_conflict

-- ActiveExport::publish_artifact
unfoldable pub publish_artifact :
    ActiveExport → ArtifactIdentity → QuiescentCut → Result DomainError ActiveExport
unfolding publish_phase
publish_artifact a artifact cut = publish_phase a a.phase artifact cut

complete_phase :
    ActiveExport → ActiveExportPhase → ArtifactIdentity → Result DomainError ActiveExport
complete_phase a (available v) artifact =
    if v.artifact == artifact
    then ok (record a {
      phase = releasing (record { cut = v.cut; artifact = artifact; released_groups = [] });
    })
    else err export_conflict
complete_phase a (releasing r) artifact =
    if r.artifact == artifact then ok a else err export_conflict
complete_phase a phase artifact = err export_conflict

-- ActiveExport::request_completion
unfoldable pub request_completion :
    ActiveExport → ArtifactIdentity → Result DomainError ActiveExport
unfolding complete_phase
request_completion a artifact = complete_phase a a.phase artifact

abort_phase : ActiveExport → ActiveExportPhase → ExportAbortReason → Result DomainError ActiveExport
abort_phase a (aborting b) reason = if b.reason == reason then ok a else err export_conflict
abort_phase a (releasing r) reason = err export_conflict
abort_phase a phase reason =
    ok (record a { phase = aborting (record { reason = reason; released_groups = [] }) })

-- ActiveExport::request_abort
unfoldable pub request_abort : ActiveExport → ExportAbortReason → Result DomainError ActiveExport
unfolding abort_phase
request_abort a reason = abort_phase a a.phase reason

release_phase : ActiveExport → ActiveExportPhase → GroupId → Result DomainError ActiveExport
release_phase a (releasing r) group = ok (record a {
  phase = releasing (record r { released_groups = BTreeSet.insert group r.released_groups });
})
release_phase a (aborting b) group = ok (record a {
  phase = aborting (record b { released_groups = BTreeSet.insert group b.released_groups });
})
release_phase a phase group = err export_conflict

is_held : Option HeldExportFence → Bool
is_held (some h) = true
is_held none = false

-- ActiveExport::record_release
unfoldable pub record_release :
    ActiveExport → ExportFenceObservation → Result DomainError ActiveExport
unfolding release_phase is_held
record_release a o =
    if not (BTreeSet.contains a.spec.configured_data_groups o.group)
    then err (
        invalid_identity "export release observation"
          "group is not in the configured data-group set")
    else if ltb o.through_epoch a.spec.epoch || is_held o.held
    then err export_conflict
    else release_phase a a.phase o.group
