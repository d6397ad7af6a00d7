-- ===== src/Storage/Leases/Expired.antt =====
-- crates/light-stream-storage/src/lib.rs, `expire_due_leases`: what the loop over the stored leases
-- gathers, described one lease at a time.
use light_stream.Shared.{
  ℕ, ◌≡◌, refl, sym, ap, ◌∙◌, inl, inr, Bool, true, false, Bool-cases, List, [], ◌∷◌, ◌++◌, nat_eq,
  ltb, min_of, lookup, lookup-put, ◌==◌, ◌&&◌, not, if◌then◌else◌, arith,
}
use light_stream.Core.Identity.{
  PartitionKey, partition_key_eq, ReplayLeaseId, ReplayLeaseLifecycle, lifecycle_eq,
}
use light_stream.Core.Replay.{ReplayLease}
use light_stream.Storage.State.{GroupState, WriteBatch, unwrap_or}
use light_stream.Storage.Retention.{
  SafeLeaseClock, PartitionRetentionState, lease_is_effectively_active,
}
use light_stream.Storage.Leases.{
  is_fenced, stored_retention, Expiry, reopen, expire_one, expire_if_due, expire_each,
  expire_due_leases, write_expiry, no_budget,
}

pub append_assoc {ℓ} : {A : Type ℓ} (xs ys zs : List A) → (xs ++ ys) ++ zs ≡ xs ++ (ys ++ zs)
append_assoc [] ys zs = refl
append_assoc (x ∷ xs) ys zs = ground (arith, append_assoc xs ys zs)

append_nil {ℓ} : {A : Type ℓ} (xs : List A) → xs ++ [] ≡ xs
append_nil [] = refl
append_nil (x ∷ xs) = ground (arith, append_nil xs)

-- The leases that are effectively active.
abbrev pub active_leases : SafeLeaseClock → List (ReplayLeaseId × ReplayLease) → List ReplayLease
active_leases clock [] = []
active_leases clock ((id, lease) ∷ ls) =
    if lease_is_effectively_active lease clock
    then lease ∷ active_leases clock ls
    else active_leases clock ls

-- A lease that is stored as active and has run out.
abbrev pub is_due : SafeLeaseClock → ReplayLease → Bool
is_due clock lease =
    lease.lifecycle == ReplayLeaseLifecycle.active && not (lease_is_effectively_active lease clock)

-- The cursor of a partition with a floor, after the leases that are due have gone.
abbrev pub reopened_cursor :
    SafeLeaseClock → PartitionKey → ℕ → List (ReplayLeaseId × ReplayLease) → ℕ → ℕ
reopened_cursor clock p floor [] cursor = cursor
reopened_cursor clock p floor ((id, lease) ∷ ls) cursor = reopened_cursor clock p floor ls (
    if is_due clock lease
      && (lease.request.range.partition == p && ltb lease.request.range.start floor)
    then min_of cursor lease.request.range.start
    else cursor)

-- The retention state of a partition that the loop has come to.
abbrev pub retention_in : GroupState → PartitionKey → Expiry → PartitionRetentionState
retention_in s p x = unwrap_or (lookup p x.retentions) (stored_retention s p)

expire_active :
    (s : GroupState) (clock : SafeLeaseClock) (ls : List (ReplayLeaseId × ReplayLease)) (x : Expiry)
    → (expire_each s clock ls x).active ≡ x.active ++ active_leases clock ls
unfolding expire_each expire_if_due expire_one
expire_active s clock [] x = sym (append_nil x.active)
expire_active s clock ((id, lease) ∷ ls) x =
    elim (Bool-cases (lease_is_effectively_active lease clock)) [
      | inl e ↦ ground (
        arith,
        expire_active s clock ls (record x { active = x.active ++ lease ∷ [] }),
        append_assoc x.active (lease ∷ []) (active_leases clock ls),
      )
      | inr e ↦ elim (Bool-cases (lease.lifecycle == ReplayLeaseLifecycle.active)) [
        | inl f ↦ ground (arith, expire_active s clock ls (expire_one s lease x))
        | inr f ↦ ground (arith, expire_active s clock ls x)
      ]
    ]

one_retention :
    (s : GroupState) (p : PartitionKey) (lease : ReplayLease) (x : Expiry)
    → is_fenced s ≡ false
    → retention_in s p (expire_one s lease x) ≡ (
        if lease.request.range.partition == p
        then reopen lease.request.range.start (retention_in s p x)
        else retention_in s p x)
unfolding expire_one
one_retention s p lease x h = ground (
  arith,
  lookup-put lease.request.range.partition p
      (reopen lease.request.range.start (
        unwrap_or (lookup lease.request.range.partition x.retentions)
          (stored_retention s lease.request.range.partition)))
      x.retentions,
)

-- A retention state whose cursor has gone back for the leases that are due.
abbrev pub reopened_by :
    SafeLeaseClock
    → PartitionKey
    → List (ReplayLeaseId × ReplayLease)
    → PartitionRetentionState
    → PartitionRetentionState
reopened_by clock p ls r = record r {
  reclaim_cursor = reopened_cursor clock p r.logical_floor ls r.reclaim_cursor;
}

if_due_retention :
    (s : GroupState) (clock : SafeLeaseClock) (p : PartitionKey) (id : ReplayLeaseId)
    (lease : ReplayLease) (x : Expiry)
    → is_fenced s ≡ false
    → retention_in s p (expire_if_due s clock lease x)
      ≡ reopened_by clock p ((id, lease) ∷ []) (retention_in s p x)
unfolding expire_if_due
if_due_retention s clock p id lease x h =
    elim (Bool-cases (lease_is_effectively_active lease clock)) [
      | inl e ↦ ground arith
      | inr e ↦ ground (arith, one_retention s p lease x h)
    ]

expire_retention :
    (s : GroupState) (clock : SafeLeaseClock) (p : PartitionKey)
    (ls : List (ReplayLeaseId × ReplayLease)) (x : Expiry)
    → is_fenced s ≡ false
    → retention_in s p (expire_each s clock ls x) ≡ reopened_by clock p ls (retention_in s p x)
unfolding expire_each
expire_retention s clock p [] x h = refl
expire_retention s clock p ((id, lease) ∷ ls) x h =
    expire_retention s clock p ls (expire_if_due s clock lease x) h
    ∙ ap (reopened_by clock p ls) (if_due_retention s clock p id lease x h)

pub expire_fenced :
    (s : GroupState) (clock : SafeLeaseClock) (ls : List (ReplayLeaseId × ReplayLease)) (x : Expiry)
    → is_fenced s ≡ true
    → (expire_each s clock ls x).retentions ≡ x.retentions
unfolding expire_each expire_if_due expire_one
expire_fenced s clock [] x h = refl
expire_fenced s clock ((id, lease) ∷ ls) x h =
    ground (arith, expire_fenced s clock ls (expire_if_due s clock lease x) h)

-- What the loop of the command does to a partition's retention state.
pub expire_due_retention :
    (s : GroupState) (clock : SafeLeaseClock) (p : PartitionKey) (write : WriteBatch)
    → retention_in s p (expire_due_leases s clock write).0 ≡ (
        if is_fenced s
        then stored_retention s p
        else reopened_by clock p s.leases (stored_retention s p))
unfolding expire_due_leases
expire_due_retention s clock p write =
    let start : Expiry = record {
      leases = write.leases;
      budget = unwrap_or s.lease_budget no_budget;
      active = [];
      retentions = [];
      reclaim_hints = [];
      expired_any = false;
    } in
    elim (Bool-cases (is_fenced s)) [
      | inl e ↦ ground (arith, expire_fenced s clock s.leases start e)
      | inr e ↦ ground (arith, expire_retention s clock p s.leases start e)
    ]

pub expire_due_active :
    (s : GroupState) (clock : SafeLeaseClock) (write : WriteBatch)
    → (expire_due_leases s clock write).0.active ≡ active_leases clock s.leases
unfolding expire_due_leases
expire_due_active s clock write = expire_active s clock s.leases (record {
  leases = write.leases;
  budget = unwrap_or s.lease_budget no_budget;
  active = [];
  retentions = [];
  reclaim_hints = [];
  expired_any = false;
})

-- The records are left alone.
pub expire_due_records :
    (s : GroupState) (clock : SafeLeaseClock) (write : WriteBatch)
    → (expire_due_leases s clock write).1.records ≡ write.records
unfolding expire_due_leases write_expiry
expire_due_records s clock write = ground arith
