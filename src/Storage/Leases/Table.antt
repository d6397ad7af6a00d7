-- ===== src/Storage/Leases/Table.antt =====
-- The stored leases as a table: keyed by their identities, and summed up by weights.
use light_stream.Shared.{
  ℕ, ◌+◌, ◌≡◌, inl, inr, Bool-cases, Option, none, some, List, [], ◌∷◌, nat_eq, lookup, put,
  lookup-put, ◌==◌, if◌then◌else◌, arith,
}
use light_stream.Core.Identity.{ReplayLeaseId, ReplayLeaseLifecycle, lifecycle_eq}
use light_stream.Core.Replay.{ReplayLease}

abbrev pub Leases : Type 0
Leases = List (ReplayLeaseId × ReplayLease)

-- Each lease is stored once, under its identity.
abbrev pub IsKeyed : Leases → Type 0
IsKeyed [] = Unit {0}
IsKeyed ((id, lease) ∷ ls) = (id ≡ lease.id) × (lookup id ls ≡ none) × IsKeyed ls

pub put-IsKeyed : (lease : ReplayLease) (ls : Leases) → IsKeyed ls → IsKeyed (put lease.id lease ls)
put-IsKeyed lease [] v = ground arith
put-IsKeyed lease ((id, l) ∷ ls) v = elim (Bool-cases (id == lease.id)) [
  | inl e ↦ ground arith
  | inr e ↦ ground (arith, put-IsKeyed lease ls, lookup-put lease.id id lease ls)
]

-- A lease that is found has the identity it is found by.
pub lookup-id :
    (id : ReplayLeaseId) (lease : ReplayLease) (ls : Leases)
    → IsKeyed ls
    → lookup id ls ≡ some lease
    → lease.id ≡ id
lookup-id id lease [] v h = ground arith
lookup-id id lease ((j, l) ∷ ls) v h = ground (arith, lookup-id id lease ls)

-- Each of some leases is found in a table by its identity.
abbrev pub AreStored : Leases → Leases → Type 0
AreStored [] table = Unit {0}
AreStored ((id, lease) ∷ ls) table = (lookup lease.id table ≡ some lease) × AreStored ls table

stored_put :
    (lease : ReplayLease) (ls table : Leases)
    → IsKeyed ls
    → lookup lease.id ls ≡ none
    → AreStored ls table
    → AreStored ls (put lease.id lease table)
stored_put lease [] table v h a = tt
stored_put lease ((id, l) ∷ ls) table v h a =
    ground (arith, stored_put lease ls table, lookup-put lease.id l.id lease table)

-- The others are found still when a lease changes.
pub put-AreStored :
    (id : ReplayLeaseId) (lease : ReplayLease) (ls table : Leases)
    → id ≡ lease.id
    → IsKeyed ls
    → lookup id ls ≡ none
    → AreStored ls table
    → AreStored ls (put lease.id lease table)
put-AreStored id lease ls table e v h a = stored_put lease ls table v (ground arith) a

stored_cons :
    (id : ReplayLeaseId) (lease : ReplayLease) (ls table : Leases)
    → IsKeyed ls
    → lookup id ls ≡ none
    → AreStored ls table
    → AreStored ls ((id, lease) ∷ table)
stored_cons id lease [] table v h a = tt
stored_cons id lease ((j, l) ∷ ls) table v h a = ground (arith, stored_cons id lease ls table)

pub IsKeyed-AreStored : (ls : Leases) → IsKeyed ls → AreStored ls ls
IsKeyed-AreStored [] v = tt
IsKeyed-AreStored ((id, lease) ∷ ls) v =
    ground (arith, stored_cons id lease ls ls, IsKeyed-AreStored ls)

-- The sum of a weight over a table.
module _ (w : ReplayLease → ℕ) where
  abbrev pub total : Leases → ℕ
  total [] = 0
  total ((id, lease) ∷ ls) = w lease + total ls

  abbrev pub weight_of : Option ReplayLease → ℕ
  weight_of none = 0
  weight_of (some lease) = w lease

  pub total-put :
      (id : ReplayLeaseId) (lease : ReplayLease) (ls : Leases)
      → total (put id lease ls) + weight_of (lookup id ls) ≡ total ls + w lease
  total-put id lease [] = ground arith
  total-put id lease ((j, l) ∷ ls) = ground (arith, total-put id lease ls)

-- Whether a lease counts as active, and the bytes that it then reserves.
abbrev pub count_weight : ReplayLease → ℕ
count_weight lease = if lease.lifecycle == ReplayLeaseLifecycle.active then 1 else 0

abbrev pub bytes_weight : ReplayLease → ℕ
bytes_weight lease =
    if lease.lifecycle == ReplayLeaseLifecycle.active then lease.protected_bytes else 0
