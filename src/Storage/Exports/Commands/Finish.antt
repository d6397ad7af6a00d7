-- ===== src/Storage/Exports/Commands/Finish.antt =====
-- crates/light-stream-storage/src/lib.rs: `apply_finish_export`, `evict_export_receipts` and
-- `apply_export`.
use light_stream.Shared.{
  ℕ, zero, suc, ◌+◌, ◌-◌, max_of, Option, some, none, List, [], ◌∷◌, nat_eq, set_at, leb, length,
  ◌-◌, max_of, put, delete, ◌==◌, not, if◌then◌else◌,
}
use light_stream.Core.Identity.{partition_key_eq, MutationRequestId, mutation_request_eq}
use light_stream.Core.Error.{export_conflict, ok, err}
use light_stream.Core.Catalog.{stream_lifecycle_eq}
use light_stream.Core.Operations.{
  export_deadline_eq, ExportFenceToken, fence_token_eq, spec_token, abort_reason_eq,
}
use light_stream.Core.Operations.Fence.{MutationFenceState, release_for_group}
use light_stream.Core.Operations.Active.{
  ActiveExport, record_fence, begin_materialization, publish_artifact, record_release,
}
use light_stream.Core.Operations.Receipt.{ExportReceipt, receipt_outcome_eq, receipt, terminal}
use light_stream.Storage.Keys.{LogId, session_key_eq, mutation_session_key}
use light_stream.Storage.Result.{ApplyResult, rejected}
use light_stream.Storage.State.{GroupDb, GroupState, WriteBatch, Applied}
use light_stream.Storage.Exports.{
  ExportCommand, begin, acquire_fence, record_group_fence, materialize, publish_made, complete,
  abort, release_fence, record_group_release, finish, mutation_fence_state, control_active_export,
  answer_status, unchanged, export_receipt_for_token, update_active_export,
}
use light_stream.Storage.Exports.Commands.{
  apply_begin_export, apply_acquire_export_fence, apply_request_export_completion,
  apply_request_export_abort, apply_release_export_fence,
}

abbrev pub Receipts : Type 0
Receipts = List (MutationRequestId × ExportReceipt)

-- `sort_by_key` of the epochs, which is stable.
unfoldable pub insert_by_epoch : MutationRequestId → ExportReceipt → Receipts → Receipts
insert_by_epoch k r [] = (k, r) ∷ []
insert_by_epoch k r ((j, q) ∷ rs) =
    if leb r.epoch q.epoch then (k, r) ∷ (j, q) ∷ rs else (j, q) ∷ insert_by_epoch k r rs

unfoldable pub sort_by_epoch : Receipts → Receipts
sort_by_epoch [] = []
sort_by_epoch ((k, r) ∷ rs) = insert_by_epoch k r (sort_by_epoch rs)

-- Deletes the keys of the first `excess` receipts.
unfoldable pub delete_first : ℕ → Receipts → Receipts → Receipts
delete_first zero rs kept = kept
delete_first (suc n) [] kept = kept
delete_first (suc n) ((k, r) ∷ rs) kept = delete_first n rs (delete k kept)

unfoldable pub evict_export_receipts :
    GroupDb → GroupState → MutationRequestId → WriteBatch → WriteBatch
unfolding delete_first sort_by_epoch insert_by_epoch
evict_export_receipts db s inserted write =
    let others = sort_by_epoch (delete inserted s.export_receipts) in
    let excess = length others + 1 - db.receipt_window in
    record write { export_receipts = delete_first excess others write.export_receipts }

highest_of : Option ℕ → ℕ → ℕ
highest_of none sequence = sequence
highest_of (some highest) sequence = max_of highest sequence

-- The puts of `apply_finish_export`.
unfoldable pub store_export_receipt :
    GroupDb → GroupState → ExportReceipt → MutationFenceState → WriteBatch → WriteBatch
unfolding highest_of
store_export_receipt db s r released write =
    let key = mutation_session_key r.request in
    let highest = highest_of (s.export_sessions key) r.request.sequence in
    evict_export_receipts db s r.request (record write {
      mutation_fence = some released;
      active_export = none;
      export_receipts = put r.request r write.export_receipts;
      export_sessions = set_at write.export_sessions key (some highest);
    })

unfoldable pub finish_active :
    GroupDb → GroupState → ActiveExport → ExportFenceToken → WriteBatch → Applied ApplyResult
finish_active db s a token write =
    if not (spec_token a.spec == token)
    then unchanged write (rejected export_conflict)
    else elim (receipt a) [
      | err e ↦ unchanged write (rejected e)
      | ok r ↦ elim (release_for_group (mutation_fence_state s) token db.identity.group_id) [
        | err e ↦ unchanged write (rejected e)
        | ok (released, o) ↦
            ok (answer_status (terminal r), store_export_receipt db s r released write)
      ]
    ]

unfoldable pub apply_finish_export :
    GroupDb → GroupState → ExportFenceToken → WriteBatch → Applied ApplyResult
apply_finish_export db s token write = elim (control_active_export db s) [
  | none ↦ unchanged write (export_receipt_for_token s token)
  | some a ↦ finish_active db s a token write
]

unfoldable pub apply_export :
    GroupDb → GroupState → LogId → ExportCommand → WriteBatch → Applied ApplyResult
apply_export db s log (begin intent deadline) write =
    apply_begin_export db s log intent deadline write
apply_export db s log (acquire_fence token) write = apply_acquire_export_fence db s log token write
apply_export db s log (record_group_fence token o) write =
    update_active_export db s token (λ a. record_fence a o) write
apply_export db s log (materialize token) write =
    update_active_export db s token (λ a. begin_materialization a) write
apply_export db s log (publish_made token artifact cut) write =
    update_active_export db s token (λ a. publish_artifact a artifact cut) write
apply_export db s log (complete request id artifact) write =
    apply_request_export_completion db s request id artifact write
apply_export db s log (abort request reason clock) write =
    apply_request_export_abort db s request reason clock write
apply_export db s log (release_fence token) write = apply_release_export_fence db s token write
apply_export db s log (record_group_release token o) write =
    update_active_export db s token (λ a. record_release a o) write
apply_export db s log (finish token) write = apply_finish_export db s token write
