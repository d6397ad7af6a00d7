-- ===== src/Examples/Commands.antt =====
-- Export commands that a control group applies.
use light_stream.Shared.{◌≡◌, refl, arith, some, none, [], ◌∷◌, ℕ_discrete, String-discrete}
use light_stream.Core.Identity.{MutationRequestId-discrete}
use light_stream.Core.Error.{ok, err}
use light_stream.Core.Operations.{
  export_id_from_digest, export_spec, operator_requested, spec_token, ExportFenceToken-discrete,
}
use light_stream.Core.Operations.Fence.{acquire, release_for_group}
use light_stream.Core.Operations.Active.{ActiveExport, aborting}
use light_stream.Core.Operations.Receipt.{
  ExportReceipt, aborted, receipt, receipt_phase, is_ready_to_finish, released_in, all_released,
  export_receipt, terminal, status_of,
}
use light_stream.Storage.Keys.{SessionKey-discrete}
use light_stream.Storage.Result.{ApplyResult}
use light_stream.Storage.State.{GroupState, Applied, empty_state, control}
use light_stream.Storage.Sessions.{is_expired}
use light_stream.Storage.Exports.{
  begin, answer_status, control_active_export, export_request_expired, group_cut,
}
use light_stream.Storage.Exports.Control.{IsAligned, apply_export-IsAligned}
use light_stream.Storage.Exports.Requests.{begin_again, begin-finish}
use light_stream.Storage.Exports.Commands.{
  start_export, begin_new, begin_checked, apply_begin_export,
}
use light_stream.Storage.Exports.Commands.Finish.{
  insert_by_epoch, sort_by_epoch, delete_first, evict_export_receipts, store_export_receipt,
  finish_active, apply_finish_export, apply_export,
}
use light_stream.Examples.{group_db, bootstrap_spec, entry_log}
use light_stream.Examples.Exports.{intent, deadline, spec, start, held_at}

abbrev control_state : GroupState
control_state = record empty_state {
  bootstrap = some bootstrap_spec;
  data_group_pool = some (2 ∷ 3 ∷ []);
}

abbrev state_of : Applied ApplyResult → GroupState
state_of (ok (result, write)) = write
state_of (err e) = control_state

abbrev begun : Applied ApplyResult
begun = apply_begin_export (group_db control) control_state entry_log intent deadline control_state

begun_run : begun ≡ ok (answer_status (status_of start), state_of begun)
unfolding apply_begin_export begin_checked begin_new start_export acquire export_spec group_cut
    export_request_expired is_expired status_of export_id_from_digest ℕ_discrete
begun_run = refl

apply_export-IsAligned_example : IsAligned (state_of begun)
unfolding apply_export
apply_export-IsAligned_example =
    apply_export-IsAligned (group_db control) control_state (state_of begun) entry_log
      (begin intent deadline) (answer_status (status_of start)) refl (refl, omega arith) begun_run

begin_again_example :
    apply_begin_export
      (group_db control)
      (state_of begun)
      (record { term = 1; node_id = 1; index = 9 })
      intent
      deadline
      (state_of begun)
    ≡ ok (answer_status (status_of start), state_of begun)
begin_again_example =
    begin_again (group_db control) control_state (state_of begun) entry_log
      (record { term = 1; node_id = 1; index = 9 }) intent deadline (status_of start) begun_run

-- An export that was aborted, with every group released.
abbrev aborted_export : ActiveExport
aborted_export = record {
  spec = spec;
  phase = aborting (record { reason = operator_requested; released_groups = 2 ∷ 3 ∷ [] });
}

abbrev aborted_state : GroupState
aborted_state = record control_state {
  mutation_fence = some (held_at 1);
  active_export = some aborted_export;
  export_epoch = some 1;
}

abbrev ended : Applied ApplyResult
ended = apply_finish_export (group_db control) aborted_state (spec_token spec) aborted_state

abbrev last_receipt : ExportReceipt
last_receipt = export_receipt spec (aborted operator_requested)

ended_run : ended ≡ ok (answer_status (terminal last_receipt), state_of ended)
unfolding apply_finish_export control_active_export finish_active store_export_receipt
    evict_export_receipts sort_by_epoch insert_by_epoch delete_first receipt receipt_phase
    is_ready_to_finish released_in all_released release_for_group ExportFenceToken-discrete
    MutationRequestId-discrete SessionKey-discrete String-discrete export_id_from_digest ℕ_discrete
ended_run = refl

begin-finish_example :
    ((state_of ended).active_export ≡ none)
    × (apply_begin_export
          (group_db control)
          (state_of ended)
          entry_log
          intent
          deadline
          (state_of ended)
        ≡ ok (answer_status (terminal last_receipt), state_of ended))
begin-finish_example =
    begin-finish (group_db control) aborted_state (state_of ended) entry_log (spec_token spec)
      aborted_export last_receipt refl refl refl ended_run
