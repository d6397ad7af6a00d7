-- ===== src/Storage/Leases/Accounts.antt =====
-- crates/light-stream-storage/src/lib.rs, `expire_due_leases`: the leases that are due become expired
-- and are taken off the budget, one by one.
use light_stream.Shared.{
  ◌-◌, ◌≡◌, refl, inl, inr, true, false, Bool-cases, Option, none, some, [], ◌∷◌, nat_eq, lookup,
  put, lookup-put, ◌==◌, if◌then◌else◌, arith,
}
use light_stream.Core.Identity.{ReplayLeaseId, ReplayLeaseLifecycle, lifecycle_eq}
use light_stream.Core.Replay.{ReplayLease, expire_lease}
use light_stream.Storage.State.{GroupState, unwrap_or}
use light_stream.Storage.Retention.{SafeLeaseClock, LeaseBudget, lease_is_effectively_active}
use light_stream.Storage.Leases.{
  no_budget, Expiry, expire_one, expire_if_due, expire_each, expire_due_leases, write_expiry,
}
use light_stream.Storage.Leases.Expired.{is_due}
use light_stream.Storage.Leases.Table.{
  Leases, IsKeyed, put-IsKeyed, AreStored, put-AreStored, IsKeyed-AreStored, total, total-put,
  count_weight, bytes_weight,
}

-- The budget counts the leases that are stored as active, and sums up their bytes.
abbrev pub IsBudgeted : LeaseBudget → Leases → Type 0
IsBudgeted b ls =
    (b.active_leases ≡ total count_weight ls) × (b.reserved_bytes ≡ total bytes_weight ls)

-- The budget after a lease that was active is stored as not active.
pub ended-IsBudgeted :
    (b : LeaseBudget) (lease ended : ReplayLease) (ls : Leases)
    → IsBudgeted b ls
    → lookup lease.id ls ≡ some lease
    → (lease.lifecycle == ReplayLeaseLifecycle.active) ≡ true
    → (ended.lifecycle == ReplayLeaseLifecycle.active) ≡ false
    → IsBudgeted
        (record {
          active_leases = b.active_leases - 1;
          reserved_bytes = b.reserved_bytes - lease.protected_bytes;
        })
        (put lease.id ended ls)
ended-IsBudgeted b lease ended ls v h a e =
    ground
      (arith, total-put count_weight lease.id ended ls, total-put bytes_weight lease.id ended ls)

-- What the loop keeps.
abbrev pub Accounts : Expiry → Type 0
Accounts x = IsKeyed x.leases × IsBudgeted x.budget x.leases

one-Accounts :
    (s : GroupState) (lease : ReplayLease) (x : Expiry)
    → Accounts x
    → lookup lease.id x.leases ≡ some lease
    → (lease.lifecycle == ReplayLeaseLifecycle.active) ≡ true
    → Accounts (expire_one s lease x)
unfolding expire_one expire_lease
one-Accounts s lease x v h a = (
  put-IsKeyed (expire_lease lease) x.leases v.0,
  ended-IsBudgeted x.budget lease (expire_lease lease) x.leases v.1 h a (ground arith),
)

if_due-Accounts :
    (s : GroupState) (clock : SafeLeaseClock) (lease : ReplayLease) (x : Expiry)
    → Accounts x
    → lookup lease.id x.leases ≡ some lease
    → Accounts (expire_if_due s clock lease x)
unfolding expire_if_due
if_due-Accounts s clock lease x v h = elim (Bool-cases (lease_is_effectively_active lease clock)) [
  | inl e ↦ ground arith
  | inr e ↦ elim (Bool-cases (lease.lifecycle == ReplayLeaseLifecycle.active)) [
    | inl f ↦ ground (arith, one-Accounts s lease x v h f)
    | inr f ↦ ground arith
  ]
]

if_due-AreStored :
    (s : GroupState) (clock : SafeLeaseClock) (id : ReplayLeaseId) (lease : ReplayLease)
    (ls : Leases) (x : Expiry)
    → IsKeyed ((id, lease) ∷ ls)
    → AreStored ls x.leases
    → AreStored ls (expire_if_due s clock lease x).leases
unfolding expire_if_due expire_one expire_lease
if_due-AreStored s clock id lease ls x k a =
    ground (arith, put-AreStored id (expire_lease lease) ls x.leases k.0 k.2 k.1 a)

pub each-Accounts :
    (s : GroupState) (clock : SafeLeaseClock) (ls : Leases) (x : Expiry)
    → IsKeyed ls
    → AreStored ls x.leases
    → Accounts x
    → Accounts (expire_each s clock ls x)
unfolding expire_each
each-Accounts s clock [] x k a v = v
each-Accounts s clock ((id, lease) ∷ ls) x k a v =
    each-Accounts s clock ls (expire_if_due s clock lease x) k.2
      (if_due-AreStored s clock id lease ls x k a.1) (if_due-Accounts s clock lease x v a.0)

-- A lease, after those that are due have expired.
abbrev pub after_expiry : SafeLeaseClock → ReplayLease → ReplayLease
after_expiry clock lease = if is_due clock lease then expire_lease lease else lease

abbrev pub expired_from :
    SafeLeaseClock → Option ReplayLease → Option ReplayLease → Option ReplayLease
expired_from clock none before = before
expired_from clock (some lease) before =
    if is_due clock lease then some (expire_lease lease) else before

if_due_leases :
    (s : GroupState) (clock : SafeLeaseClock) (lease : ReplayLease) (x : Expiry)
    (id : ReplayLeaseId)
    → lookup id (expire_if_due s clock lease x).leases
      ≡ expired_from clock (if lease.id == id then some lease else none) (lookup id x.leases)
unfolding expire_if_due expire_one expire_lease
if_due_leases s clock lease x id =
    ground (arith, lookup-put lease.id id (expire_lease lease) x.leases)

each_leases :
    (s : GroupState) (clock : SafeLeaseClock) (ls : Leases) (x : Expiry) (id : ReplayLeaseId)
    → IsKeyed ls
    → lookup id (expire_each s clock ls x).leases
      ≡ expired_from clock (lookup id ls) (lookup id x.leases)
unfolding expire_each
each_leases s clock [] x id k = refl
each_leases s clock ((j, lease) ∷ ls) x id k = ground (
  arith,
  each_leases s clock ls (expire_if_due s clock lease x) id k.2,
  if_due_leases s clock lease x id,
)

-- Nothing is put when no lease was due.
each_untouched :
    (s : GroupState) (clock : SafeLeaseClock) (ls : Leases) (x : Expiry)
    → (expire_each s clock ls x).expired_any ≡ false
    → (x.expired_any ≡ false)
      × ((expire_each s clock ls x).leases ≡ x.leases)
      × ((expire_each s clock ls x).budget ≡ x.budget)
unfolding expire_each expire_if_due expire_one
each_untouched s clock [] x h = (h, refl, refl)
each_untouched s clock ((id, lease) ∷ ls) x h =
    ground (arith, each_untouched s clock ls (expire_if_due s clock lease x))

-- The budget of a group.
abbrev pub budget_of : GroupState → LeaseBudget
budget_of s = unwrap_or s.lease_budget no_budget

abbrev pub expiry_start : GroupState → Expiry
expiry_start s = record {
  leases = s.leases;
  budget = budget_of s;
  active = [];
  retentions = [];
  reclaim_hints = [];
  expired_any = false;
}

-- What is gathered is what is put, also when nothing is put.
pub expire_due_put :
    (s : GroupState) (clock : SafeLeaseClock)
    → ((expire_due_leases s clock s).1.leases ≡ (expire_due_leases s clock s).0.leases)
      × (budget_of (expire_due_leases s clock s).1 ≡ (expire_due_leases s clock s).0.budget)
unfolding expire_due_leases write_expiry
expire_due_put s clock =
    elim (Bool-cases (expire_each s clock s.leases (expiry_start s)).expired_any) [
      | inl e ↦ ground arith
      | inr e ↦ ground (arith, each_untouched s clock s.leases (expiry_start s) e)
    ]

-- The leases are kept once each, with a budget that agrees with them.
abbrev pub HasBudget : GroupState → Type 0
HasBudget s = IsKeyed s.leases × IsBudgeted (budget_of s) s.leases

pub expire_due-Accounts :
    (s : GroupState) (clock : SafeLeaseClock)
    → HasBudget s
    → Accounts (expire_due_leases s clock s).0
unfolding expire_due_leases
expire_due-Accounts s clock v =
    each-Accounts s clock s.leases (expiry_start s) v.0 (IsKeyed-AreStored s.leases v.0) v

pub expire_due-HasBudget :
    (s : GroupState) (clock : SafeLeaseClock)
    → HasBudget s
    → HasBudget (expire_due_leases s clock s).1
expire_due-HasBudget s clock v =
    ground (arith, expire_due-Accounts s clock v, expire_due_put s clock)

-- A lease as it is found once the command has expired those that are due.
abbrev pub map_expiry : SafeLeaseClock → Option ReplayLease → Option ReplayLease
map_expiry clock none = none
map_expiry clock (some lease) = some (after_expiry clock lease)

-- Expiry is pointwise: each stored lease is found afterwards as it was, or expired when it is stored
-- as active and has run out; no other is found. The leases are keyed by their identities.
pub expire_due_pointwise :
    (s : GroupState) (clock : SafeLeaseClock) (id : ReplayLeaseId)
    → IsKeyed s.leases
    → lookup id (expire_due_leases s clock s).1.leases ≡ map_expiry clock (lookup id s.leases)
unfolding expire_due_leases
expire_due_pointwise s clock id v =
    ground (arith, expire_due_put s clock, each_leases s clock s.leases (expiry_start s) id v)
