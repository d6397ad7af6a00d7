-- ===== src/Storage/Floor/Lowered.antt =====
-- crates/light-stream-storage/src/lib.rs, `expire_due_leases`: a lease that runs out only takes the
-- cursor of its partition back.
use light_stream.Shared.{
  ℕ, ◌≤◌, ◌≡◌, refl, inl, inr, false, Bool-cases, Option, some, List, [], ◌∷◌, nat_eq, lookup, put,
  set_at, arith,
}
use light_stream.Core.Identity.{PartitionKey, partition_key_eq, ReplayLeaseId}
use light_stream.Core.Replay.{ReplayLease}
use light_stream.Storage.State.{GroupState, WriteBatch, unwrap_or, no_retention}
use light_stream.Storage.Retention.{SafeLeaseClock, PartitionRetentionState}
use light_stream.Storage.Leases.{
  stored_retention, Expiry, reopen, expire_one, expire_if_due, expire_each, put_retentions,
  write_expiry, expire_due_leases, no_budget,
}

-- A retention state with the stored floor, whose cursor is not past the stored one.
abbrev pub IsLowered : GroupState → PartitionKey → PartitionRetentionState → Type 0
IsLowered s p r =
    (r.logical_floor ≡ (stored_retention s p).logical_floor)
    × (r.reclaim_cursor ≤ (stored_retention s p).reclaim_cursor)

abbrev pub AreLowered : GroupState → List (PartitionKey × PartitionRetentionState) → Type 0
AreLowered s [] = Unit {0}
AreLowered s ((p, r) ∷ rs) = IsLowered s p r × AreLowered s rs

pub lookup-IsLowered :
    (s : GroupState) (p : PartitionKey) (rs : List (PartitionKey × PartitionRetentionState))
    → AreLowered s rs
    → IsLowered s p (unwrap_or (lookup p rs) (stored_retention s p))
lookup-IsLowered s p [] v = (refl, omega arith)
lookup-IsLowered s p ((q, r) ∷ rs) v = ground (arith, lookup-IsLowered s p rs)

put-AreLowered :
    (s : GroupState) (p : PartitionKey) (r : PartitionRetentionState)
    (rs : List (PartitionKey × PartitionRetentionState))
    → IsLowered s p r
    → AreLowered s rs
    → AreLowered s (put p r rs)
put-AreLowered s p r [] l v = (l, tt)
put-AreLowered s p r ((q, u) ∷ rs) l v = ground (arith, put-AreLowered s p r rs)

pub reopen-IsLowered :
    (s : GroupState) (p : PartitionKey) (start : ℕ) (r : PartitionRetentionState)
    → IsLowered s p r
    → IsLowered s p (reopen start r)
reopen-IsLowered s p start r v = ground arith

if_due-AreLowered :
    (s : GroupState) (clock : SafeLeaseClock) (lease : ReplayLease) (x : Expiry)
    → AreLowered s x.retentions
    → AreLowered s (expire_if_due s clock lease x).retentions
unfolding expire_if_due expire_one
if_due-AreLowered s clock lease x v =
    let range = lease.request.range in
    let found = lookup-IsLowered s range.partition x.retentions v in
    let r = unwrap_or (lookup range.partition x.retentions) (stored_retention s range.partition) in
    let lowered = reopen-IsLowered s range.partition range.start r found in
    ground (arith, put-AreLowered s range.partition (reopen range.start r) x.retentions lowered v)

each-AreLowered :
    (s : GroupState) (clock : SafeLeaseClock) (ls : List (ReplayLeaseId × ReplayLease)) (x : Expiry)
    → AreLowered s x.retentions
    → AreLowered s (expire_each s clock ls x).retentions
unfolding expire_each
each-AreLowered s clock [] x v = v
each-AreLowered s clock ((id, lease) ∷ ls) x v =
    each-AreLowered s clock ls (expire_if_due s clock lease x) (if_due-AreLowered s clock lease x v)

put_retentions-IsLowered :
    (s : GroupState) (p : PartitionKey) (rs : List (PartitionKey × PartitionRetentionState))
    (f : PartitionKey → Option PartitionRetentionState)
    → AreLowered s rs
    → IsLowered s p (unwrap_or (f p) no_retention)
    → IsLowered s p (unwrap_or (put_retentions rs f p) no_retention)
unfolding put_retentions
put_retentions-IsLowered s p [] f v l = l
put_retentions-IsLowered s p ((q, r) ∷ rs) f v l =
    put_retentions-IsLowered s p rs (set_at f q (some r)) v.1 (ground arith)

-- What expiry gathers, and what it puts, for every partition.
pub expire_due-AreLowered :
    (s : GroupState) (clock : SafeLeaseClock) (write : WriteBatch)
    → AreLowered s (expire_due_leases s clock write).0.retentions
unfolding expire_due_leases
expire_due-AreLowered s clock write =
    each-AreLowered s clock s.leases
      (record {
        leases = write.leases;
        budget = unwrap_or s.lease_budget no_budget;
        active = [];
        retentions = [];
        reclaim_hints = [];
        expired_any = false;
      })
      tt

write-IsLowered :
    (s : GroupState) (p : PartitionKey) (x : Expiry)
    → AreLowered s x.retentions
    → IsLowered s p (stored_retention (write_expiry s x s) p)
unfolding write_expiry
write-IsLowered s p x v = elim (Bool-cases x.expired_any) [
  | inl e ↦
      ground (arith, put_retentions-IsLowered s p x.retentions s.retention v (refl, omega arith))
  | inr e ↦ ground arith
]

pub expire_due-IsLowered :
    (s : GroupState) (clock : SafeLeaseClock) (p : PartitionKey)
    → IsLowered s p (stored_retention (expire_due_leases s clock s).1 p)
expire_due-IsLowered s clock p =
    let gathered = expire_due-AreLowered s clock s in
    unfold expire_due_leases in write-IsLowered s p (expire_due_leases s clock s).0 gathered
