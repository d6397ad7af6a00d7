-- ===== src/Storage/Leases/Budget.antt =====
-- crates/light-stream-storage/src/lib.rs: the lease budget of a group through the lease commands.
use light_stream.Shared.{ℕ, ◌≡◌, inl, inr, Option-cases, none, nat_eq, lookup, arith}
use light_stream.Core.Identity.{partition_key_eq, lifecycle_eq, mutation_request_eq, PartitionKey}
use light_stream.Core.Error.{ok, Result-cases}
use light_stream.Core.Replay.{ReplayLeaseRequest, LeaseRenewal, LeaseRelease}
use light_stream.Storage.Result.{ApplyResult}
use light_stream.Storage.State.{GroupDb, GroupState, WriteBatch, Applied}
use light_stream.Storage.Mutations.{prior_mutation_result, store_mutation_result}
use light_stream.Storage.Retention.{ClockObservation}
use light_stream.Storage.Leases.{advance_lease_clock}
use light_stream.Storage.Leases.Accounts.{HasBudget}
use light_stream.Storage.Leases.Commands.{
  admit_clocked, apply_admit_replay_lease, renew_clocked, apply_renew_replay_lease, release_clocked,
  apply_release_replay_lease,
}
use light_stream.Storage.Leases.Changes.{renew_clocked-HasBudget, release_clocked-HasBudget}
use light_stream.Storage.Reclaim.{apply_maintain_retention}
use light_stream.Storage.Leases.Admission.{admit_clocked-HasBudget}
use light_stream.Storage.Leases.Maintained.{maintain-HasBudget}

-- The commands that change leases, with their observations of the clock.
pub data LeaseCommand : Type 0 where
  admit_lease : ReplayLeaseRequest → ClockObservation → LeaseCommand
  renew_lease : LeaseRenewal → ClockObservation → LeaseCommand
  release_lease_of : LeaseRelease → ClockObservation → LeaseCommand
  maintain : PartitionKey → ℕ → ℕ → ℕ → ClockObservation → LeaseCommand

abbrev pub run_lease_command : GroupDb → GroupState → LeaseCommand → Applied ApplyResult
run_lease_command db s (admit_lease request o) = apply_admit_replay_lease db s request o s
run_lease_command db s (renew_lease request o) = apply_renew_replay_lease db s request o s
run_lease_command db s (release_lease_of request o) = apply_release_replay_lease db s request o s
run_lease_command db s (maintain p cursor max_records max_payload_bytes o) =
    apply_maintain_retention db s p cursor max_records max_payload_bytes o s

-- The digest that names a new lease is not the name of a stored one.
abbrev pub IsFresh : GroupDb → GroupState → LeaseCommand → Type 0
IsFresh db s (admit_lease request o) = lookup (db.replay_lease_id request.request) s.leases ≡ none
IsFresh db s other = Unit {0}

admit-HasBudget :
    (db : GroupDb) (s : GroupState) (request : ReplayLeaseRequest) (o : ClockObservation)
    (result : ApplyResult) (write : WriteBatch)
    → HasBudget s
    → lookup (db.replay_lease_id request.request) s.leases ≡ none
    → apply_admit_replay_lease db s request o s ≡ ok (result, write)
    → HasBudget write
admit-HasBudget db s request o result write v f h =
    elim (Option-cases
      (prior_mutation_result s request.request (db.admission_fingerprint request))) [
        | inr (r, e) ↦ unfold apply_admit_replay_lease in ground arith
        | inl e ↦ elim (Result-cases (advance_lease_clock s o)) [
          | inr (m, g) ↦
              unfold apply_admit_replay_lease admit_clocked store_mutation_result in ground arith
          | inl (clock, g) ↦
              let kept = admit_clocked-HasBudget db s request clock v f in
              unfold apply_admit_replay_lease store_mutation_result in ground arith
        ]
      ]

renew-HasBudget :
    (db : GroupDb) (s : GroupState) (request : LeaseRenewal) (o : ClockObservation)
    (result : ApplyResult) (write : WriteBatch)
    → HasBudget s
    → apply_renew_replay_lease db s request o s ≡ ok (result, write)
    → HasBudget write
renew-HasBudget db s request o result write v h =
    elim (Option-cases (prior_mutation_result s request.request (db.renewal_fingerprint request))) [
      | inr (r, e) ↦ unfold apply_renew_replay_lease in ground arith
      | inl e ↦ elim (Result-cases (advance_lease_clock s o)) [
        | inr (m, g) ↦
            unfold apply_renew_replay_lease renew_clocked store_mutation_result in ground arith
        | inl (clock, g) ↦
            let kept = renew_clocked-HasBudget s request clock v in
            unfold apply_renew_replay_lease store_mutation_result in ground arith
      ]
    ]

release-HasBudget :
    (db : GroupDb) (s : GroupState) (request : LeaseRelease) (o : ClockObservation)
    (result : ApplyResult) (write : WriteBatch)
    → HasBudget s
    → apply_release_replay_lease db s request o s ≡ ok (result, write)
    → HasBudget write
release-HasBudget db s request o result write v h =
    elim (Option-cases (prior_mutation_result s request.request (db.release_fingerprint request))) [
      | inr (r, e) ↦ unfold apply_release_replay_lease in ground arith
      | inl e ↦ elim (Result-cases (advance_lease_clock s o)) [
        | inr (m, g) ↦
            unfold apply_release_replay_lease release_clocked store_mutation_result in ground arith
        | inl (clock, g) ↦
            let kept = release_clocked-HasBudget s request clock v in
            unfold apply_release_replay_lease store_mutation_result in ground arith
      ]
    ]

-- The lease budget agrees with the stored leases, which are kept once each under their identities:
-- it counts those that are stored as active, and sums up the bytes that they protect. Admitting,
-- renewing and releasing a lease and maintaining a partition keep it so, also when they refuse or
-- expire other leases, if the digest that names an admitted lease is not the name of a stored one.
pub lease_command-HasBudget :
    (db : GroupDb) (s : GroupState) (command : LeaseCommand) (result : ApplyResult)
    (write : WriteBatch)
    → HasBudget s
    → IsFresh db s command
    → run_lease_command db s command ≡ ok (result, write)
    → HasBudget write
lease_command-HasBudget db s (admit_lease request o) result write v f h =
    admit-HasBudget db s request o result write v f h
lease_command-HasBudget db s (renew_lease request o) result write v f h =
    renew-HasBudget db s request o result write v h
lease_command-HasBudget db s (release_lease_of request o) result write v f h =
    release-HasBudget db s request o result write v h
lease_command-HasBudget db s (maintain p cursor max_records max_payload_bytes o) result write v f
      h =
    maintain-HasBudget db s p cursor max_records max_payload_bytes o result write v h
