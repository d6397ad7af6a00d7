-- ===== src/Examples/Floors.antt =====
-- The floor of a partition moves.
use light_stream.Shared.{◌≡◌, refl, some, arith, ℕ_discrete}
use light_stream.Core.Error.{ok, err}
use light_stream.Core.Replay.{RetentionRequest}
use light_stream.Storage.Result.{ApplyResult, noop}
use light_stream.Storage.State.{GroupDb, GroupState, Applied, data_group, no_retention}
use light_stream.Storage.Mutations.{
  prior_mutation_result, store_mutation_result, put_mutation_receipt, drop_mutation_receipt,
}
use light_stream.Storage.Sessions.{advance_window, is_expired}
use light_stream.Storage.Retention.{ClockObservation, advance_floor, safe_lease_clock}
use light_stream.Storage.Leases.{advance_lease_clock}
use light_stream.Storage.Floor.{
  floor_byte_position, put_floor, move_floor, advance_retention, apply_advance_retention,
}
use light_stream.Storage.Floor.Commands.{AreRetained}
use light_stream.Storage.Floor.Advance.{advance_to, retention_command-AreRetained}
use light_stream.Examples.{group_db, partition_zero, entry_log, mutation_one, data_state}

abbrev db : GroupDb
db = group_db data_group

-- Three records, of which the first is below the floor.
abbrev floor_state : GroupState
floor_state = record data_state {
  next_offset = λ k. some 3;
  retention = λ k. some (record no_retention { logical_floor = 1; floor_byte_position = 10 });
  records = λ k. some (record {
    payload_key = record { log = entry_log; slot = 0 };
    payload_bytes = 10;
    cumulative_end_bytes = 30;
  });
}

floor_state-AreRetained : AreRetained floor_state
floor_state-AreRetained p = record {
  cursor_le = omega arith;
  floor_le = omega arith;
  fits = omega arith;
  stored = λ offset a b e. ground arith;
}

abbrev request : RetentionRequest
request = record { request = mutation_one; partition = partition_zero; target_floor = 2 }

abbrev observation : ClockObservation
observation = record { lower_bound = 100; upper_bound = 110 }

abbrev advanced : Applied ApplyResult
advanced = apply_advance_retention db floor_state request observation floor_state

abbrev result_of : Applied ApplyResult → ApplyResult
result_of (ok (result, write)) = result
result_of (err e) = noop

abbrev state_of : Applied ApplyResult → GroupState
state_of (ok (result, write)) = write
state_of (err e) = floor_state

advanced_run : advanced ≡ ok (result_of advanced, state_of advanced)
unfolding apply_advance_retention advance_retention move_floor put_floor floor_byte_position
    advance_floor advance_lease_clock safe_lease_clock prior_mutation_result store_mutation_result
    put_mutation_receipt drop_mutation_receipt advance_window is_expired ℕ_discrete
advanced_run = refl

retention_command-AreRetained_example : AreRetained (state_of advanced)
retention_command-AreRetained_example =
    retention_command-AreRetained db floor_state (advance_to request observation)
      (result_of advanced) (state_of advanced) floor_state-AreRetained advanced_run
