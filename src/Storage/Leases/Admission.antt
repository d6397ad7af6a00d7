-- ===== src/Storage/Leases/Admission.antt =====
-- crates/light-stream-storage/src/lib.rs, `apply_admit_replay_lease`: the lease budget when a lease is
-- admitted.
use light_stream.Shared.{
  ℕ, ◌+◌, ◌≡◌, refl, ◌∙◌, ap, inl, inr, Option-cases, none, nat_eq, lookup, saturating_add,
  checked_add, arith,
}
use light_stream.Core.Identity.{
  partition_key_eq, lifecycle_eq, active, mutation_request_eq, ReplayLeaseId,
}
use light_stream.Core.Error.{ok, Result-cases}
use light_stream.Core.Replay.{ReplayLeaseRequest, ReplayLease}
use light_stream.Storage.State.{GroupDb, GroupState, WriteBatch, unwrap_or}
use light_stream.Storage.Retention.{
  SafeLeaseClock, AdmissionState, default_limits, LeaseBudget, admit,
}
use light_stream.Storage.Leases.{stored_retention, Expiry, expire_due_leases, replay_range_bytes}
use light_stream.Storage.Leases.Table.{IsKeyed, put-IsKeyed, total-put, count_weight, bytes_weight}
use light_stream.Storage.Leases.Accounts.{
  IsBudgeted, HasBudget, expire_due-Accounts, expire_due-HasBudget, expire_due_put,
  expire_due_pointwise,
}
use light_stream.Storage.Leases.Commands.{put_admitted, admit_expired, admit_clocked}

-- What an admission says of the lease.
admit_lem :
    (id : ReplayLeaseId) (request : ReplayLeaseRequest) (bytes : ℕ) (state : AdmissionState)
    (lease : ReplayLease)
    → state.limits ≡ default_limits
    → admit id request bytes state ≡ ok lease
    → (lease.id ≡ id)
      × (lease.lifecycle ≡ active)
      × (saturating_add state.budget.active_leases 1 ≡ state.budget.active_leases + 1)
      × (saturating_add state.budget.reserved_bytes lease.protected_bytes
          ≡ state.budget.reserved_bytes + lease.protected_bytes)
unfolding admit
admit_lem id request bytes state lease l h =
    elim (Option-cases (checked_add state.clock.upper_bound request.duration)) [
      | inl e ↦ ground arith
      | inr (a, e) ↦
          elim (Option-cases
            (checked_add state.clock.upper_bound state.limits.max_lease_lifetime_ms)) [
              | inl f ↦ ground arith
              | inr (b, f) ↦ ground arith
            ]
    ]

put_admitted-HasBudget :
    (budget : LeaseBudget) (clock : SafeLeaseClock) (request : ReplayLeaseRequest)
    (lease : ReplayLease) (write : WriteBatch)
    → IsKeyed write.leases
    → IsBudgeted budget write.leases
    → lookup lease.id write.leases ≡ none
    → lease.lifecycle ≡ active
    → saturating_add budget.active_leases 1 ≡ budget.active_leases + 1
    → saturating_add budget.reserved_bytes lease.protected_bytes
      ≡ budget.reserved_bytes + lease.protected_bytes
    → HasBudget (put_admitted budget clock request lease write)
put_admitted-HasBudget budget clock request lease write k v h a e f = ground (
  arith,
  put-IsKeyed lease write.leases k,
  total-put count_weight lease.id lease write.leases,
  total-put bytes_weight lease.id lease write.leases,
)

admit_expired-HasBudget :
    (db : GroupDb) (s : GroupState) (request : ReplayLeaseRequest) (clock : SafeLeaseClock)
    (x : Expiry) (write : WriteBatch)
    → HasBudget write
    → IsBudgeted x.budget write.leases
    → lookup (db.replay_lease_id request.request) write.leases ≡ none
    → HasBudget (admit_expired db s request clock x write).1
admit_expired-HasBudget db s request clock x write v b h =
    let retention = stored_retention s request.range.partition in
    elim (Result-cases (replay_range_bytes s request retention)) [
      | inr (m, e) ↦ unfold admit_expired in ground arith
      | inl (bytes, e) ↦
          let state : AdmissionState = record {
            floor = retention.logical_floor;
            tail = unwrap_or (s.next_offset request.range.partition) 0;
            clock = clock;
            limits = default_limits;
            budget = x.budget;
          } in
          elim (Result-cases (admit (db.replay_lease_id request.request) request bytes state)) [
            | inr (m, f) ↦ unfold admit_expired in ground arith
            | inl (lease, f) ↦
                let sound =
                  admit_lem (db.replay_lease_id request.request) request bytes state lease refl f in
                let kept =
                  put_admitted-HasBudget x.budget clock request lease write v.0 b
                    (ap (λ i. lookup i write.leases) sound.0 ∙ h) sound.1 sound.2 sound.3 in
                unfold admit_expired in ground arith
          ]
    ]

pub admit_clocked-HasBudget :
    (db : GroupDb) (s : GroupState) (request : ReplayLeaseRequest) (clock : SafeLeaseClock)
    → HasBudget s
    → lookup (db.replay_lease_id request.request) s.leases ≡ none
    → HasBudget (admit_clocked db s request (ok clock) s).1
unfolding admit_clocked
admit_clocked-HasBudget db s request clock v h =
    admit_expired-HasBudget db s request clock (expire_due_leases s clock s).0
      (expire_due_leases s clock s).1 (expire_due-HasBudget s clock v)
      (ground (arith, expire_due-Accounts s clock v, expire_due_put s clock))
      (ground (arith, expire_due_pointwise s clock (db.replay_lease_id request.request) v.0))
