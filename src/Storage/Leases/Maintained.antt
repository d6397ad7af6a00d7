-- ===== src/Storage/Leases/Maintained.antt =====
-- crates/light-stream-storage/src/lib.rs, `apply_maintain_retention`: the lease budget when a partition
-- is maintained.
use light_stream.Shared.{ℕ, ◌≡◌, inl, inr, nat_eq, arith}
use light_stream.Core.Identity.{partition_key_eq, lifecycle_eq, mutation_request_eq, PartitionKey}
use light_stream.Core.Error.{ok, Result-cases}
use light_stream.Storage.Result.{ApplyResult}
use light_stream.Storage.State.{GroupDb, GroupState, WriteBatch}
use light_stream.Storage.Retention.{ClockObservation, SafeLeaseClock}
use light_stream.Storage.Leases.{advance_lease_clock, expire_due_leases}
use light_stream.Storage.Leases.Accounts.{HasBudget, expire_due-HasBudget}
use light_stream.Storage.Reclaim.{
  drop_record, reclaim_from, maintain_clocked, apply_maintain_retention,
}
use light_stream.Storage.Reclaim.Untouched.{pass_leaves}
use light_stream.Storage.Reclaim.Maintain.{
  reclamation, retention_at_start, maintain_clocked_lem, maintain_clocked_err,
}

maintain_clocked-HasBudget :
    (db : GroupDb) (s : GroupState) (p : PartitionKey) (max_records max_payload_bytes : ℕ)
    (clock : SafeLeaseClock) (result : ApplyResult) (write : WriteBatch)
    → HasBudget s
    → maintain_clocked db s p max_records max_payload_bytes clock s ≡ ok (result, write)
    → HasBudget write
maintain_clocked-HasBudget db s p max_records max_payload_bytes clock result write v h =
    let after = expire_due-HasBudget s clock v in
    elim (Result-cases (
      reclaim_from db s (reclamation s p max_records max_payload_bytes clock)
        (retention_at_start s p clock) (expire_due_leases s clock s).1)) [
          | inl (q, e) ↦
              let run = maintain_clocked_lem db s p max_records max_payload_bytes clock q e in
              let c = reclamation s p max_records max_payload_bytes clock in
              let r = retention_at_start s p clock in
              let before = (expire_due_leases s clock s).1 in
              let leases =
                pass_leaves (λ w. w.leases) db s c
                  (λ c' entry cursor o w. unfold drop_record in ground arith) r before q e in
              let budget =
                pass_leaves (λ w. w.lease_budget) db s c
                  (λ c' entry cursor o w. unfold drop_record in ground arith) r before q e in
              ground arith
          | inr (m, e) ↦
              let run = maintain_clocked_err db s p max_records max_payload_bytes clock m e in
              ground arith
        ]

pub maintain-HasBudget :
    (db : GroupDb) (s : GroupState) (p : PartitionKey) (cursor max_records max_payload_bytes : ℕ)
    (o : ClockObservation) (result : ApplyResult) (write : WriteBatch)
    → HasBudget s
    → apply_maintain_retention db s p cursor max_records max_payload_bytes o s ≡ ok (result, write)
    → HasBudget write
maintain-HasBudget db s p cursor max_records max_payload_bytes o result write v h =
    elim (Result-cases (advance_lease_clock s o)) [
      | inr (m, e) ↦ unfold apply_maintain_retention in ground arith
      | inl (clock, e) ↦
          unfold apply_maintain_retention in
          ground (
            arith,
            maintain_clocked-HasBudget db s p max_records max_payload_bytes clock result write v,
          )
    ]
