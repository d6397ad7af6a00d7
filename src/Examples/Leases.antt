-- ===== src/Examples/Leases.antt =====
-- Replay leases, and a pass over a partition in which they stand.
use light_stream.Shared.{
  ℕ, ◌+◌, ◌*◌, ◌≡◌, refl, some, [], ◌∷◌, arith, String, ℕ_discrete, lookup, nat_eq,
}
use light_stream.Core.Identity.{
  ReplayLeaseId, ReplayLeaseLifecycle-discrete, PartitionKey-discrete, active,
}
use light_stream.Core.Error.{Result, ok, err}
use light_stream.Core.Replay.{ReplayLease, contains}
use light_stream.Storage.Result.{ApplyResult, noop}
use light_stream.Storage.State.{GroupDb, GroupState, Applied, data_group, no_retention}
use light_stream.Storage.Retention.{
  ClockObservation, SafeLeaseClock, PartitionRetentionState, safe_lease_clock,
  lease_is_effectively_active,
}
use light_stream.Storage.Leases.{
  advance_lease_clock, is_fenced, expire_one, expire_if_due, expire_each, write_expiry,
  expire_due_leases,
}
use light_stream.Storage.Leases.Accounts.{HasBudget, after_expiry, expire_due_pointwise}
use light_stream.Storage.Leases.Budget.{maintain, lease_command-HasBudget}
use light_stream.Storage.Reclaim.{
  Reclamation, Pass, ranges_of, find_range, drop_record, reclaim_owned, reclaim_record, reclaim_at,
  reclaim_turn, go_on, reclaim, reclaim_from, maintain_clocked, apply_maintain_retention,
}
use light_stream.Storage.Reclaim.Progress.{Ends, reclaim_from-Ends}
use light_stream.Storage.Reclaim.Limits.{KeepsLimits, reclaim_from_limits}
use light_stream.Storage.Reclaim.Payloads.{Owns, reclaim_from_payloads}
use light_stream.Storage.Reclaim.Maintain.{Maintains, apply_maintain_deletes}
use light_stream.Examples.{group_db, partition_zero, entry_log, mutation_one, data_state}

abbrev db : GroupDb
db = group_db data_group

abbrev lease_on : ReplayLeaseId → ℕ → ℕ → ReplayLease
lease_on id start expires_at = record {
  id = id;
  request = record {
    request = mutation_one;
    cluster = 1;
    range = record { partition = partition_zero; start = start; end = start + 1 };
    duration = 50;
    max_bytes = 100;
  };
  protected_bytes = 10;
  generation = 1;
  expires_at = expires_at;
  hard_expires_at = 1000;
  lifecycle = active;
}

-- The floor is at 3. The lease on offset 0 runs out at 50, that on offset 1 at 500.
abbrev leased_state : GroupState
leased_state = record data_state {
  retention = λ k. some (record no_retention { logical_floor = 3; reclaim_cursor = 0 });
  records = λ k. some (record {
    payload_key = record { log = entry_log; slot = k.offset };
    payload_bytes = 10;
    cumulative_end_bytes = 10 * k.offset + 10;
  });
  leases = (4, lease_on 4 0 50) ∷ (5, lease_on 5 1 500) ∷ [];
  lease_budget = some (record { active_leases = 2; reserved_bytes = 20 });
}

abbrev observation : ClockObservation
observation = record { lower_bound = 100; upper_bound = 110 }

abbrev clock : SafeLeaseClock
clock = record { lower_bound = 100; upper_bound = 110 }

abbrev maintained_state : Applied ApplyResult
maintained_state =
    apply_maintain_retention db leased_state partition_zero 0 10 100 observation leased_state

abbrev result_of : Applied ApplyResult → ApplyResult
result_of (ok (result, write)) = result
result_of (err e) = noop

abbrev state_of : Applied ApplyResult → GroupState
state_of (ok (result, write)) = write
state_of (err e) = leased_state

leased_state-HasBudget : HasBudget leased_state
unfolding ReplayLeaseLifecycle-discrete ℕ_discrete
leased_state-HasBudget = ((refl, refl, (refl, refl, tt)), (refl, refl))

maintained_run : maintained_state ≡ ok (result_of maintained_state, state_of maintained_state)
unfolding apply_maintain_retention maintain_clocked reclaim_from reclaim go_on reclaim_turn
    reclaim_at reclaim_record reclaim_owned drop_record find_range ranges_of contains
    expire_due_leases expire_each expire_if_due expire_one write_expiry is_fenced
    advance_lease_clock safe_lease_clock lease_is_effectively_active ℕ_discrete
    ReplayLeaseLifecycle-discrete PartitionKey-discrete
maintained_run = refl

apply_maintain_deletes_example :
    (r : PartitionRetentionState) × Maintains leased_state clock partition_zero
      (record { partition = partition_zero; offset = 0 })
      (result_of maintained_state)
      (state_of maintained_state)
      r
unfolding advance_lease_clock safe_lease_clock
apply_maintain_deletes_example =
    apply_maintain_deletes db leased_state partition_zero 0 10 100 observation clock
      (record { partition = partition_zero; offset = 0 }) (result_of maintained_state)
      (state_of maintained_state) (omega arith) (omega arith) (omega arith) (omega arith) refl refl
      maintained_run

lease_command-HasBudget_example : HasBudget (state_of maintained_state)
lease_command-HasBudget_example =
    lease_command-HasBudget db leased_state (maintain partition_zero 0 10 100 observation)
      (result_of maintained_state) (state_of maintained_state) leased_state-HasBudget tt
      maintained_run

expire_due_pointwise_example :
    lookup 4 (expire_due_leases leased_state clock leased_state).1.leases
    ≡ some (after_expiry clock (lease_on 4 0 50))
unfolding ℕ_discrete
expire_due_pointwise_example = expire_due_pointwise leased_state clock 4 leased_state-HasBudget.0

-- The pass over the partition, which may reclaim two records.
abbrev limits : Reclamation
limits = record {
  partition = partition_zero;
  max_records = 2;
  max_payload_bytes = 100;
  active_ranges = [];
}

abbrev floor_three : PartitionRetentionState
floor_three = record no_retention { logical_floor = 3 }

abbrev pass : Pass
pass = record { retention = floor_three; examined = 0; reclaimed_bytes = 0; write = leased_state }

abbrev reclaimed : Result String Pass
reclaimed = reclaim_from db leased_state limits floor_three leased_state

abbrev pass_of : Result String Pass → Pass
pass_of (ok p) = p
pass_of (err e) = pass

reclaimed_run : reclaimed ≡ ok (pass_of reclaimed)
unfolding reclaim_from reclaim go_on reclaim_turn reclaim_at reclaim_record reclaim_owned
    drop_record find_range PartitionKey-discrete ℕ_discrete
reclaimed_run = refl

reclaim_from-Ends_example :
    (reclaim db leased_state limits 8 pass ≡ reclaimed) × Ends db leased_state limits reclaimed
reclaim_from-Ends_example =
    reclaim_from-Ends db leased_state limits floor_three leased_state 8 (omega arith) (omega arith)

reclaim_from_limits_example : KeepsLimits leased_state limits floor_three (pass_of reclaimed)
reclaim_from_limits_example =
    reclaim_from_limits db leased_state limits floor_three leased_state (pass_of reclaimed)
      (omega arith) (omega arith) reclaimed_run

reclaim_from_payloads_example :
    Owns db leased_state leased_state (record { log = entry_log; slot = 0 }) (pass_of reclaimed)
reclaim_from_payloads_example =
    reclaim_from_payloads db leased_state limits floor_three leased_state
      (record { log = entry_log; slot = 0 }) (pass_of reclaimed) reclaimed_run
