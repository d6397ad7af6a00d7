-- ===== src/Core/Operations/Receipt.antt =====
-- crates/light-stream-core/src/operations.rs: when an active export may finish, its receipt and
-- the status that it reports.
pub mod Outcome
pub mod Released
use light_stream.Shared.BTreeSet
use light_stream.Shared.{Bool, false, Option, some, none, List, Eq, ℕ_discrete, not, if◌then◌else◌}
use light_stream.Core.Identity.{GroupId, ExportId, MutationRequestId}
use light_stream.Core.Error.{DomainError, export_conflict, Result, ok, err}
use light_stream.Core.Operations.{
  ExportEpoch, ExportRequestDigest, ExportDeadline, ExportSpec, ArtifactIdentity, ExportAbortReason,
  export_id_from_digest,
}
use light_stream.Core.Operations.Active.{ActiveExportPhase, ActiveExport}

unfoldable pub released_in : ActiveExportPhase → Option (List GroupId)
released_in (ActiveExportPhase.releasing r) = some r.released_groups
released_in (ActiveExportPhase.aborting b) = some b.released_groups
released_in phase = none

unfoldable pub all_released : Option (List GroupId) → List GroupId → Bool
all_released (some groups) configured = BTreeSet.equal groups configured
all_released none configured = false

-- ActiveExport::is_ready_to_finish
unfoldable pub is_ready_to_finish : ActiveExport → Bool
unfolding released_in all_released
is_ready_to_finish a = all_released (released_in a.phase) a.spec.configured_data_groups

pub data ExportReceiptOutcome : Type 0 where
  completed : ArtifactIdentity → ExportReceiptOutcome
  aborted : ExportAbortReason → ExportReceiptOutcome

unfoldable pub ExportReceiptOutcome-discrete : Discrete ExportReceiptOutcome
ExportReceiptOutcome-discrete = hlevel ℕ_discrete

instance abbrev pub receipt_outcome_eq : Eq ExportReceiptOutcome
receipt_outcome_eq = record { decide_eq = ExportReceiptOutcome-discrete }

pub record ExportReceipt : Type 0 where
  pub request : MutationRequestId
  pub export : ExportId
  pub epoch : ExportEpoch
  pub request_digest : ExportRequestDigest
  pub deadline : Option ExportDeadline
  pub outcome : ExportReceiptOutcome

-- ExportReceipt::new, for the active export's specification.
abbrev pub export_receipt : ExportSpec → ExportReceiptOutcome → ExportReceipt
export_receipt spec outcome = record {
  request = spec.intent.request;
  export = export_id_from_digest spec.intent.request_digest;
  epoch = spec.epoch;
  request_digest = spec.intent.request_digest;
  deadline = some spec.deadline;
  outcome = outcome;
}

unfoldable pub receipt_phase : ExportSpec → ActiveExportPhase → Result DomainError ExportReceipt
receipt_phase spec (ActiveExportPhase.releasing r) = ok (export_receipt spec (completed r.artifact))
receipt_phase spec (ActiveExportPhase.aborting b) = ok (export_receipt spec (aborted b.reason))
receipt_phase spec phase = err export_conflict

-- ActiveExport::receipt
unfoldable pub receipt : ActiveExport → Result DomainError ExportReceipt
unfolding receipt_phase is_ready_to_finish
receipt a = if not (is_ready_to_finish a) then err export_conflict else receipt_phase a.spec a.phase

pub data ExportStatusPhase : Type 0 where
  preparing frozen materializing available releasing aborting : ExportStatusPhase

pub record ActiveExportStatus : Type 0 where
  pub export : ExportId
  pub epoch : ExportEpoch
  pub phase : ExportStatusPhase

pub data ExportStatus : Type 0 where
  active_status : ActiveExportStatus → ExportStatus
  terminal : ExportReceipt → ExportStatus

status_phase : ActiveExportPhase → ExportStatusPhase
status_phase (ActiveExportPhase.preparing p) = ExportStatusPhase.preparing
status_phase (ActiveExportPhase.frozen c) = ExportStatusPhase.frozen
status_phase (ActiveExportPhase.materializing c) = ExportStatusPhase.materializing
status_phase (ActiveExportPhase.available a) = ExportStatusPhase.available
status_phase (ActiveExportPhase.releasing r) = ExportStatusPhase.releasing
status_phase (ActiveExportPhase.aborting b) = ExportStatusPhase.aborting

-- ExportStatus::active
unfoldable pub status_of : ActiveExport → ExportStatus
unfolding status_phase
status_of a =
    active_status
      (record { export = a.spec.intent.export; epoch = a.spec.epoch; phase = status_phase a.phase })
