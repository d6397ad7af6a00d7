-- ===== src/Storage/Exports/Commands.antt =====
-- crates/light-stream-storage/src/lib.rs: the handlers of the export commands, and `apply_export`.
pub mod Finish
use light_stream.Shared.{
  ℕ, String, Bool, true, false, Option, some, none, List, [], ◌∷◌, nat_eq, set_at, ltb, leb, length,
  checked_add, saturating_add, ◌-◌, max_of, min_of, lookup, put, delete, map, ◌==◌, ◌||◌, ◌&&◌, not,
  if◌then◌else◌,
}
use light_stream.Core.Identity.{
  GroupId, ExportId, PartitionKey, partition_key_eq, StreamId, ClusterId, MutationRequestId,
  mutation_request_eq,
}
use light_stream.Core.Error.{
  DomainError, identity_mismatch, export_conflict, resource_limit, mutation_receipt_expired,
  stream_not_found, stream_not_active, invalid_range, Result, ok, err, ok_or, IoError, ◌>>=◌,
}
use light_stream.Core.Catalog.{
  StreamDescriptor, active, stream_lifecycle_eq, AdministrationOperation,
}
use light_stream.Core.Operations.{
  ExportDeadline, export_deadline_eq, ExportIntent, ExportFenceToken, fence_token_eq, GroupCut,
  QuiescentCut, ExportSpec, export_spec, spec_token, ArtifactIdentity, ExportAbortReason,
  deadline_exceeded, abort_reason_eq, ExportRequestDigest,
}
use light_stream.Core.Operations.Fence.{
  MutationFenceState, no_fence, ExportFenceObservation, acquire, release_for_group,
}
use light_stream.Core.Operations.Active.{
  ActiveExport, preparing_export, record_fence, begin_materialization, publish_artifact,
  request_completion, request_abort, record_release,
}
use light_stream.Core.Operations.Receipt.{
  ExportReceipt, ExportReceiptOutcome, completed, aborted, receipt_outcome_eq, receipt,
  ExportStatus, terminal, status_of,
}
use light_stream.Storage.Keys.{LogId, session_key_eq, mutation_session_key}
use light_stream.Storage.Result.{ApplyResult, ExportApplyResult, status, fence, export, rejected}
use light_stream.Storage.State.{
  GroupDb, GroupState, WriteBatch, Applied, control, data_group, unwrap_or, no_retention,
}
use light_stream.Storage.Retention.{PartitionRetentionState}
use light_stream.Storage.Sessions.{is_expired}
use light_stream.Storage.Exports.{
  ExportCommand, begin, acquire_fence, record_group_fence, materialize, publish_made, complete,
  abort, release_fence, record_group_release, finish, mutation_fence_state, control_active_export,
  export_request_expired, group_cut, answer_status, unchanged, export_receipt_result, answer,
  with_outcome, export_receipt_for_token, store_active_export, update_active_export,
}

check_stream : ClusterId → Option StreamDescriptor → Option DomainError
check_stream cluster none = some stream_not_found
check_stream cluster (some d) =
    if not (d.cluster == cluster)
    then some (identity_mismatch "selected export stream belongs to another cluster")
    else if not (d.lifecycle == active)
    then some stream_not_active
    else none

-- The loop over the selected streams: the first refusal.
check_streams : GroupState → ClusterId → List StreamId → Option DomainError
unfolding check_stream
check_streams s cluster [] = none
check_streams s cluster (x ∷ xs) = elim (check_stream cluster (lookup x s.streams)) [
  | some e ↦ some e
  | none ↦ check_streams s cluster xs
]

-- The puts of `apply_begin_export`.
unfoldable pub start_export : GroupState → ExportSpec → GroupCut → WriteBatch → Applied ApplyResult
start_export s spec cut write = elim (acquire (mutation_fence_state s) (spec_token spec) cut) [
  | err e ↦ unchanged write (rejected e)
  | ok (held, o) ↦
      (let a = preparing_export spec cut in
        ok (
          answer_status (status_of a),
          record write {
            export_epoch = some spec.epoch;
            mutation_fence = some held;
            active_export = some a;
          },
        ))
]

-- From the pool of the data groups on.
unfoldable pub begin_new :
    GroupDb → GroupState → LogId → ExportIntent → ExportDeadline → WriteBatch → Applied ApplyResult
unfolding start_export
begin_new db s log intent deadline write =
    ok_or s.data_group_pool "control data-group pool is missing" >>= λ groups.
    ok_or (checked_add (unwrap_or s.export_epoch 0) 1) "export epoch overflow" >>= λ epoch.
    elim (export_spec intent epoch groups deadline) [
      | err e ↦ unchanged write (rejected e)
      | ok spec ↦ group_cut db log >>= λ cut. start_export s spec cut write
    ]

-- From the expired requests on.
unfoldable pub begin_checked :
    GroupDb → GroupState → LogId → ExportIntent → ExportDeadline → WriteBatch → Applied ApplyResult
unfolding check_streams check_stream
begin_checked db s log intent deadline write =
    if export_request_expired s intent.request
    then unchanged write (rejected mutation_receipt_expired)
    else elim s.active_administration [
      | some operation ↦
          unchanged write (rejected (resource_limit "active_administration_operations" 1))
      | none ↦ elim (check_streams s intent.cluster intent.selection) [
        | some e ↦ unchanged write (rejected e)
        | none ↦ begin_new db s log intent deadline write
      ]
    ]

deadline_agrees : Option ExportDeadline → ExportDeadline → Bool
deadline_agrees none deadline = true
deadline_agrees (some stored) deadline = stored == deadline

-- The answer to a request whose export is over.
unfoldable pub begin_finished : ExportReceipt → ExportIntent → ExportDeadline → ApplyResult
unfolding deadline_agrees
begin_finished r intent deadline =
    if (r.request_digest == intent.request_digest) && deadline_agrees r.deadline deadline
    then answer_status (terminal r)
    else rejected export_conflict

-- The answer while an export is active.
unfoldable pub begin_active : ActiveExport → ExportIntent → ExportDeadline → ApplyResult
begin_active a intent deadline =
    if a.spec.intent.request == intent.request
    then (if (a.spec.intent.request_digest == intent.request_digest)
          && (a.spec.deadline == deadline)
        then answer_status (status_of a)
        else rejected export_conflict)
    else rejected (resource_limit "active_exports" 1)

begin_request :
    GroupDb
    → GroupState
    → Option ExportReceipt
    → Option ActiveExport
    → LogId
    → ExportIntent
    → ExportDeadline
    → WriteBatch
    → Applied ApplyResult
begin_request db s (some r) a log intent deadline write =
    unchanged write (begin_finished r intent deadline)
begin_request db s none (some a) log intent deadline write =
    unchanged write (begin_active a intent deadline)
begin_request db s none none log intent deadline write =
    begin_checked db s log intent deadline write

unfoldable pub apply_begin_export :
    GroupDb → GroupState → LogId → ExportIntent → ExportDeadline → WriteBatch → Applied ApplyResult
unfolding begin_request
apply_begin_export db s log intent deadline write = elim db.identity.kind [
  | data_group ↦ unchanged write (rejected (identity_mismatch "export begin reached a data group"))
  | control ↦
      if not (intent.cluster == db.identity.cluster_id)
      then unchanged write
          (rejected (identity_mismatch "export cluster does not match the control group"))
      else begin_request db s (lookup intent.request s.export_receipts) s.active_export log intent
          deadline write
]

unfoldable pub apply_acquire_export_fence :
    GroupDb → GroupState → LogId → ExportFenceToken → WriteBatch → Applied ApplyResult
apply_acquire_export_fence db s log token write = elim db.identity.kind [
  | control ↦
      unchanged write (rejected (identity_mismatch "export data fence reached the control group"))
  | data_group ↦ group_cut db log >>= λ cut. elim (acquire (mutation_fence_state s) token cut) [
    | err e ↦ unchanged write (rejected e)
    | ok (held, o) ↦ ok (export (fence o), record write { mutation_fence = some held })
  ]
]

unfoldable pub apply_request_export_completion :
    GroupDb
    → GroupState
    → MutationRequestId
    → ExportId
    → ArtifactIdentity
    → WriteBatch
    → Applied ApplyResult
apply_request_export_completion db s request id artifact write = elim (control_active_export db s) [
  | none ↦
      unchanged write (
        answer (with_outcome (completed artifact) (export_receipt_result s request (some id) none)))
  | some a ↦
      if not (a.spec.intent.request == request) || not (a.spec.intent.export == id)
      then unchanged write (rejected export_conflict)
      else store_active_export (request_completion a artifact) write
]

unfoldable pub apply_request_export_abort :
    GroupDb
    → GroupState
    → MutationRequestId
    → ExportAbortReason
    → ExportDeadline
    → WriteBatch
    → Applied ApplyResult
apply_request_export_abort db s request reason clock write = elim (control_active_export db s) [
  | none ↦
      unchanged write
        (answer (with_outcome (aborted reason) (export_receipt_result s request none none)))
  | some a ↦
      if not (a.spec.intent.request == request)
      then unchanged write (rejected export_conflict)
      else if (reason == deadline_exceeded)
          && ltb clock.lower_bound_unix_ms a.spec.deadline.upper_bound_unix_ms
      then unchanged write (rejected (invalid_range "export deadline has not definitely elapsed"))
      else store_active_export (request_abort a reason) write
]

-- The loop of `resume_deferred_reclaim` over the hints, which deletes each.
resume_hints : GroupState → List (PartitionKey × ℕ) → WriteBatch → WriteBatch
resume_hints s [] write = write
resume_hints s ((partition, hinted) ∷ hints) write =
    let r = unwrap_or (s.retention partition) no_retention in
    let r' : PartitionRetentionState = record r {
      reclaim_cursor = min_of r.reclaim_cursor hinted;
    } in
    resume_hints s hints (record write {
      retention = set_at write.retention partition (some r');
      reclaim_hints = delete partition write.reclaim_hints;
    })

unfoldable pub resume_deferred_reclaim : GroupState → WriteBatch → WriteBatch
unfolding resume_hints
resume_deferred_reclaim s write = resume_hints s s.reclaim_hints write

unfoldable pub apply_release_export_fence :
    GroupDb → GroupState → ExportFenceToken → WriteBatch → Applied ApplyResult
apply_release_export_fence db s token write = elim db.identity.kind [
  | control ↦
      unchanged write
        (rejected (identity_mismatch "export data-fence release reached the control group"))
  | data_group ↦ elim (release_for_group (mutation_fence_state s) token db.identity.group_id) [
    | err e ↦ unchanged write (rejected e)
    | ok (released, o) ↦ ok (
      export (fence o),
      resume_deferred_reclaim s (record write { mutation_fence = some released }),
    )
  ]
]
