-- ===== src/Storage/Leases/Changes.antt =====
-- crates/light-stream-storage/src/lib.rs: the lease budget of a group through the lease commands.
use light_stream.Shared.{
  ℕ, ◌≡◌, ◌∙◌, ap, subst, inl, inr, true, Bool-cases, Option-cases, some, nat_eq, lookup, put,
  checked_add, ◌==◌, arith,
}
use light_stream.Core.Identity.{
  partition_key_eq, ReplayLeaseLifecycle, lifecycle_eq, mutation_request_eq, PartitionKey,
  ReplayLeaseId,
}
use light_stream.Core.Error.{ok, Result-cases}
use light_stream.Core.Replay.{ReplayLease, renewed, release_lease, LeaseRenewal, LeaseRelease}
use light_stream.Storage.State.{GroupState, WriteBatch}
use light_stream.Storage.Retention.{SafeLeaseClock, lease_is_effectively_active}
use light_stream.Storage.Leases.{Expiry, expire_due_leases}
use light_stream.Storage.Leases.Table.{
  IsKeyed, put-IsKeyed, lookup-id, total-put, count_weight, bytes_weight,
}
use light_stream.Storage.Leases.Accounts.{
  IsBudgeted, ended-IsBudgeted, HasBudget, expire_due-Accounts, expire_due-HasBudget,
  expire_due_put, expire_due_pointwise,
}
use light_stream.Storage.Leases.Commands.{
  renew_active, renew_clocked, reopen_released, release_active, release_clocked,
}

-- The lease that the command finds is found still when those that are due have expired.
found_after :
    (s : GroupState) (clock : SafeLeaseClock) (id : ReplayLeaseId) (lease : ReplayLease)
    → IsKeyed s.leases
    → lookup id s.leases ≡ some lease
    → lease_is_effectively_active lease clock ≡ true
    → (lookup id (expire_due_leases s clock s).1.leases ≡ some lease)
      × (lease.id ≡ id)
      × ((lease.lifecycle == ReplayLeaseLifecycle.active) ≡ true)
found_after s clock id lease v h a =
    let stored = lookup-id id lease s.leases v h in
    (
      ground (arith, expire_due_pointwise s clock id v),
      stored,
      unfold lease_is_effectively_active in ground arith,
    )

renewed_lem :
    (lease lease' : ReplayLease) (expires_at hard_expires_at : ℕ)
    → renewed lease expires_at hard_expires_at ≡ ok lease'
    → (lease'.id ≡ lease.id)
      × (lease'.lifecycle ≡ lease.lifecycle)
      × (lease'.protected_bytes ≡ lease.protected_bytes)
unfolding renewed
renewed_lem lease lease' expires_at hard_expires_at h = ground arith

put_renewed-HasBudget :
    (write : WriteBatch) (clock : SafeLeaseClock) (lease lease' : ReplayLease)
    → HasBudget write
    → lookup lease.id write.leases ≡ some lease
    → (lease'.id ≡ lease.id)
      × (lease'.lifecycle ≡ lease.lifecycle)
      × (lease'.protected_bytes ≡ lease.protected_bytes)
    → HasBudget
        (record write { leases = put lease.id lease' write.leases; lease_clock = some clock })
put_renewed-HasBudget write clock lease lease' v h e = (
  subst (λ i. IsKeyed (put i lease' write.leases)) e.0 (put-IsKeyed lease' write.leases v.0),
  (
    ground (arith, total-put count_weight lease.id lease' write.leases),
    ground (arith, total-put bytes_weight lease.id lease' write.leases),
  ),
)

renew_active-HasBudget :
    (request : LeaseRenewal) (clock : SafeLeaseClock) (lease : ReplayLease) (write : WriteBatch)
    → HasBudget write
    → lookup request.lease write.leases ≡ some lease
    → lease.id ≡ request.lease
    → HasBudget (renew_active request clock lease write).1
renew_active-HasBudget request clock lease write v h i =
    elim (Option-cases (checked_add clock.upper_bound request.duration)) [
      | inl e ↦ unfold renew_active in ground arith
      | inr (at, e) ↦ elim (Result-cases (renewed lease at lease.hard_expires_at)) [
        | inr (m, f) ↦ unfold renew_active in ground arith
        | inl (lease', f) ↦
            let kept =
              put_renewed-HasBudget write clock lease lease' v
                (ap (λ j. lookup j write.leases) i ∙ h)
                (renewed_lem lease lease' at lease.hard_expires_at f) in
            unfold renew_active in ground arith
      ]
    ]

pub renew_clocked-HasBudget :
    (s : GroupState) (request : LeaseRenewal) (clock : SafeLeaseClock)
    → HasBudget s
    → HasBudget (renew_clocked s request (ok clock) s).1
renew_clocked-HasBudget s request clock v =
    let after = expire_due-HasBudget s clock v in
    elim (Option-cases (lookup request.lease s.leases)) [
      | inl e ↦ unfold renew_clocked in ground arith
      | inr (lease, e) ↦ elim (Bool-cases (lease_is_effectively_active lease clock)) [
        | inr f ↦ unfold renew_clocked in ground arith
        | inl f ↦
            let found = found_after s clock request.lease lease v.0 e f in
            let kept =
              renew_active-HasBudget request clock lease (expire_due_leases s clock s).1 after
                found.0 found.1 in
            unfold renew_clocked in ground arith
      ]
    ]

reopen_leases :
    (s : GroupState) (p : PartitionKey) (start : ℕ) (x : Expiry) (write : WriteBatch)
    → (reopen_released s p start x write).leases ≡ write.leases
unfolding reopen_released
reopen_leases s p start x write = ground arith

release_active-HasBudget :
    (s : GroupState) (request : LeaseRelease) (clock : SafeLeaseClock) (lease : ReplayLease)
    (x : Expiry) (write : WriteBatch)
    → IsKeyed write.leases
    → IsBudgeted x.budget write.leases
    → lookup request.lease write.leases ≡ some lease
    → lease.id ≡ request.lease
    → (lease.lifecycle == ReplayLeaseLifecycle.active) ≡ true
    → HasBudget (release_active s request clock lease x write).1
unfolding release_active release_lease
release_active-HasBudget s request clock lease x write k b h i a =
    let range = lease.request.range in
    let same =
      reopen_leases s range.partition range.start x
        (record write { leases = put request.lease (release_lease lease) write.leases }) in
    let keyed = put-IsKeyed (release_lease lease) write.leases k in
    let found = ap (λ j. lookup j write.leases) i ∙ h in
    let ended = ended-IsBudgeted x.budget lease (release_lease lease) write.leases b found a in
    ground arith

pub release_clocked-HasBudget :
    (s : GroupState) (request : LeaseRelease) (clock : SafeLeaseClock)
    → HasBudget s
    → HasBudget (release_clocked s request (ok clock) s).1
release_clocked-HasBudget s request clock v =
    let after = expire_due-HasBudget s clock v in
    let budgeted = expire_due-Accounts s clock v in
    let same = expire_due_put s clock in
    elim (Option-cases (lookup request.lease s.leases)) [
      | inl e ↦ unfold release_clocked in ground arith
      | inr (lease, e) ↦ elim (Bool-cases (lease_is_effectively_active lease clock)) [
        | inr f ↦ unfold release_clocked in ground arith
        | inl f ↦
            let found = found_after s clock request.lease lease v.0 e f in
            let kept =
              release_active-HasBudget s request clock lease (expire_due_leases s clock s).0
                (expire_due_leases s clock s).1 after.0 (ground arith) found.0 found.1 found.2 in
            unfold release_clocked in ground arith
      ]
    ]
