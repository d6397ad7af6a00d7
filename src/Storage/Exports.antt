-- ===== src/Storage/Exports.antt =====
-- crates/light-stream-storage/src/lib.rs: the export commands, from `mutation_fence_state` to
-- `resume_deferred_reclaim`. The receipts of exports are a list in the order of their keys.
pub mod Commands
pub mod Control
pub mod Requests
use light_stream.Shared.{
  ℕ, String, Bool, true, false, Option, some, none, List, [], ◌∷◌, nat_eq, set_at, ltb, leb, length,
  checked_add, lookup, put, delete, map, ◌==◌, ◌||◌, ◌&&◌, not, if◌then◌else◌,
}
use light_stream.Core.Identity.{
  GroupId, ExportId, PartitionKey, partition_key_eq, StreamId, ClusterId, MutationRequestId,
  mutation_request_eq,
}
use light_stream.Core.Error.{
  DomainError, identity_mismatch, export_conflict, resource_limit, mutation_receipt_expired,
  stream_not_found, stream_not_active, invalid_range, Result, ok, err, ok_or, IoError, ◌>>=◌,
}
use light_stream.Core.Catalog.{
  StreamDescriptor, active, stream_lifecycle_eq, AdministrationOperation,
}
use light_stream.Core.Operations.{
  ExportDeadline, export_deadline_eq, ExportIntent, ExportFenceToken, fence_token_eq, GroupCut,
  QuiescentCut, ExportSpec, export_spec, spec_token, ArtifactIdentity, ExportAbortReason,
  deadline_exceeded, abort_reason_eq, ExportRequestDigest,
}
use light_stream.Core.Operations.Fence.{
  MutationFenceState, no_fence, ExportFenceObservation, acquire, release_for_group,
}
use light_stream.Core.Operations.Active.{
  ActiveExport, preparing_export, record_fence, begin_materialization, publish_artifact,
  request_completion, request_abort, record_release,
}
use light_stream.Core.Operations.Receipt.{
  ExportReceipt, ExportReceiptOutcome, completed, aborted, receipt_outcome_eq, receipt,
  ExportStatus, terminal, status_of,
}
use light_stream.Storage.Keys.{LogId, session_key_eq, mutation_session_key}
use light_stream.Storage.Result.{ApplyResult, ExportApplyResult, status, fence, export, rejected}
use light_stream.Storage.State.{
  GroupDb, GroupState, WriteBatch, Applied, control, data_group, unwrap_or, no_retention,
}
use light_stream.Storage.Retention.{PartitionRetentionState}
use light_stream.Storage.Sessions.{is_expired}

pub data ExportCommand : Type 0 where
  begin : ExportIntent → ExportDeadline → ExportCommand
  acquire_fence : ExportFenceToken → ExportCommand
  record_group_fence : ExportFenceToken → ExportFenceObservation → ExportCommand
  materialize : ExportFenceToken → ExportCommand
  publish_made : ExportFenceToken → ArtifactIdentity → QuiescentCut → ExportCommand
  complete : MutationRequestId → ExportId → ArtifactIdentity → ExportCommand
  abort : MutationRequestId → ExportAbortReason → ExportDeadline → ExportCommand
  release_fence : ExportFenceToken → ExportCommand
  record_group_release : ExportFenceToken → ExportFenceObservation → ExportCommand
  finish : ExportFenceToken → ExportCommand

abbrev pub mutation_fence_state : GroupState → MutationFenceState
mutation_fence_state s = unwrap_or s.mutation_fence no_fence

unfoldable pub control_active_export : GroupDb → GroupState → Option ActiveExport
control_active_export db s = elim db.identity.kind [ control ↦ s.active_export | data_group ↦ none ]

unfoldable pub export_request_expired : GroupState → MutationRequestId → Bool
export_request_expired s request =
    is_expired (s.export_sessions (mutation_session_key request)) request.sequence

unfoldable pub group_cut : GroupDb → LogId → Result IoError GroupCut
group_cut db log =
    if log.node_id == 0
    then err "node ID must be nonzero"
    else ok (record {
      group = db.identity.group_id;
      term = log.term;
      leader = log.node_id;
      applied_index = log.index;
    })

abbrev pub answer_status : ExportStatus → ApplyResult
answer_status st = export (status st)

-- An answer, with the batch as it was.
abbrev pub unchanged : WriteBatch → ApplyResult → Applied ApplyResult
unchanged write result = ok (result, write)

-- `option.is_some_and(|value| value != x)`
differs : Option ℕ → ℕ → Bool
differs (some v) x = not (v == x)
differs none x = false

receipt_result :
    GroupState
    → MutationRequestId
    → Option ExportReceipt
    → Option ExportId
    → Option ExportRequestDigest
    → Result DomainError ExportReceipt
receipt_result s request none e digest =
    if export_request_expired s request then err mutation_receipt_expired else err export_conflict
receipt_result s request (some r) e digest =
    if differs e r.export || differs digest r.request_digest then err export_conflict else ok r

-- The receipt of `export_receipt_result`, whose answer is its terminal status or the rejection.
unfoldable pub export_receipt_result :
    GroupState
    → MutationRequestId
    → Option ExportId
    → Option ExportRequestDigest
    → Result DomainError ExportReceipt
unfolding receipt_result differs
export_receipt_result s request e digest =
    receipt_result s request (lookup request s.export_receipts) e digest

unfoldable pub answer : Result DomainError ExportReceipt → ApplyResult
answer (ok r) = answer_status (terminal r)
answer (err e) = rejected e

-- The guard of `apply_request_export_completion` and `apply_request_export_abort`.
unfoldable pub with_outcome :
    ExportReceiptOutcome → Result DomainError ExportReceipt → Result DomainError ExportReceipt
with_outcome outcome (ok r) = if r.outcome == outcome then ok r else err export_conflict
with_outcome outcome (err e) = err e

find_receipt :
    ExportFenceToken → List (MutationRequestId × ExportReceipt) → Result DomainError ExportReceipt
find_receipt token [] = err export_conflict
find_receipt token ((k, r) ∷ rs) =
    if (r.export == token.export)
      && ((r.epoch == token.epoch) && (r.request_digest == token.request_digest))
    then ok r
    else find_receipt token rs

unfoldable pub export_receipt_for_token : GroupState → ExportFenceToken → ApplyResult
unfolding find_receipt
export_receipt_for_token s token = answer (find_receipt token s.export_receipts)

unfoldable pub store_active_export :
    Result DomainError ActiveExport → WriteBatch → Applied ApplyResult
store_active_export (ok a) write =
    ok (answer_status (status_of a), record write { active_export = some a })
store_active_export (err e) write = unchanged write (rejected e)

update_active :
    GroupState
    → Option ActiveExport
    → ExportFenceToken
    → (ActiveExport → Result DomainError ActiveExport)
    → WriteBatch
    → Applied ApplyResult
update_active s none token transition write = unchanged write (export_receipt_for_token s token)
update_active s (some a) token transition write =
    if not (spec_token a.spec == token)
    then unchanged write (rejected export_conflict)
    else store_active_export (transition a) write

unfoldable pub update_active_export :
    GroupDb
    → GroupState
    → ExportFenceToken
    → (ActiveExport → Result DomainError ActiveExport)
    → WriteBatch
    → Applied ApplyResult
unfolding update_active
update_active_export db s token transition write =
    update_active s (control_active_export db s) token transition write
