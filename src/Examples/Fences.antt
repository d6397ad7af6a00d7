-- ===== src/Examples/Fences.antt =====
-- A bookmark is refused while the fence is held.
use light_stream.Shared.{◌≡◌, arith, refl, some}
use light_stream.Core.Error.{ok, err}
use light_stream.Core.Operations.Fence.{HeldExportFence}
use light_stream.Storage.Result.{ApplyResult, noop}
use light_stream.Storage.State.{GroupDb, GroupState, Applied, data_group}
use light_stream.Storage.Dispatch.{
  GroupCommand, create_bookmark, replay_included_command, answer_if, hold_back, apply_command,
  CommandFenceClass-discrete,
}
use light_stream.Storage.Dispatch.Frozen.{IsFrozen}
use light_stream.Storage.Dispatch.Fence.{apply_command-IsFrozen}
use light_stream.Examples.{group_db, partition_zero, entry_log, data_state}

abbrev db : GroupDb
db = group_db data_group

abbrev held : HeldExportFence
held = record {
  token = record { epoch = 1; export = 3; request_digest = 4 };
  cut = record { group = 2; term = 1; leader = 1; applied_index = 5 };
}

abbrev fenced_state : GroupState
fenced_state = record data_state {
  mutation_fence = some (record { through_epoch = 1; held = some held });
}

abbrev command : GroupCommand
command = create_bookmark 9 partition_zero "start" 0

abbrev applied : Applied ApplyResult
applied = apply_command db fenced_state entry_log command fenced_state

abbrev result_of : Applied ApplyResult → ApplyResult
result_of (ok (result, write)) = result
result_of (err e) = noop

abbrev state_of : Applied ApplyResult → GroupState
state_of (ok (result, write)) = write
state_of (err e) = fenced_state

applied_run : applied ≡ ok (result_of applied, state_of applied)
unfolding apply_command hold_back replay_included_command answer_if CommandFenceClass-discrete
applied_run = refl

apply_command-IsFrozen_example : IsFrozen fenced_state (state_of applied)
apply_command-IsFrozen_example =
    apply_command-IsFrozen db fenced_state entry_log command held (result_of applied)
      (state_of applied) refl (λ e. ground arith) applied_run
