-- ===== src/Storage/Retention/Clock.antt =====
-- The lease clock and the leases that it admits.
use light_stream.Shared.{
  ℕ, ◌≤◌, ◌<◌, ◌≡◌, ◌⊎◌, inl, inr, Bool-cases, true, false, List, [], ◌∷◌, arith, u64_max,
  saturating_add,
}
use light_stream.Core.Identity.{ReplayLeaseId}
use light_stream.Core.Error.{ok, err}
use light_stream.Core.Replay.{ReplayLeaseRequest, ReplayLease}
use light_stream.Storage.Retention.{
  ClockObservation, SafeLeaseClock, AdmissionState, advance, admit, lease_is_effectively_active,
}

-- A clock whose bounds are in order.
abbrev pub IsOrdered : SafeLeaseClock → Type 0
IsOrdered c = c.lower_bound ≤ c.upper_bound

-- The observations that the clock accepts, one after another; a refused one leaves it as it is.
pub observe : SafeLeaseClock → List ClockObservation → SafeLeaseClock
observe c [] = c
observe c (o ∷ os) = observe (elim (advance c o) [ ok c' ↦ c' | err e ↦ c ]) os

-- Whatever is observed, a lease that has run out stays out: the clock's lower bound never goes
-- back, and the bounds stay in order when each observation has its bounds in order.
abbrev pub Grows : SafeLeaseClock → SafeLeaseClock → Type 0
Grows c d = (c.lower_bound ≤ d.lower_bound) × (c.upper_bound ≤ d.upper_bound)

abbrev pub AllOrdered : List ClockObservation → Type 0
AllOrdered [] = Unit {0}
AllOrdered (o ∷ os) = (o.lower_bound ≤ o.upper_bound) × AllOrdered os

-- Along any observations whose bounds are in order, an ordered clock stays ordered, neither of its
-- bounds goes back, and a lease was effectively active at the start or is not at the end.
pub observe_monotone :
    (c : SafeLeaseClock) (os : List ClockObservation) (l : ReplayLease)
    → IsOrdered c
    → AllOrdered os
    → IsOrdered (observe c os)
      × Grows c (observe c os)
      × ((lease_is_effectively_active l c ≡ true)
          ⊎ (lease_is_effectively_active l (observe c os) ≡ false))
unfolding observe advance lease_is_effectively_active
observe_monotone c [] l h k = elim (Bool-cases (lease_is_effectively_active l c)) [
  | inl e ↦ ground arith
  | inr e ↦ ground arith
]
observe_monotone c (o ∷ os) l h k =
    ground (arith, observe_monotone (elim (advance c o) [ ok c' ↦ c' | err e ↦ c ]) os l)

-- When the clock is ordered, the duration is nonzero and the limit of the duration is at most that of
-- the lifetime, an admitted lease covers committed records that retention has not passed. Its bytes are
-- within its request's bound, the limit of a lease and, added to the bytes that the group has reserved
-- by the saturating sum, the limit of the group; there was room for one more lease, and the requested
-- duration is within its limit. The lease is effectively active on the clock that admitted it and does
-- not outlive its hard expiry.
pub admit_sound :
    (id : ReplayLeaseId) (request : ReplayLeaseRequest) (bytes : ℕ) (s : AdmissionState)
    (l : ReplayLease)
    → IsOrdered s.clock
    → 0 < request.duration
    → s.limits.max_lease_duration_ms ≤ s.limits.max_lease_lifetime_ms
    → admit id request bytes s ≡ ok l
    → (s.floor ≤ l.request.range.start)
      × (l.request.range.end ≤ s.tail)
      × (l.protected_bytes ≤ l.request.max_bytes)
      × (l.protected_bytes ≤ s.limits.max_lease_bytes)
      × (s.budget.active_leases < s.limits.max_active_leases)
      × (saturating_add s.budget.reserved_bytes l.protected_bytes
          ≤ s.limits.max_group_reserved_lease_bytes)
      × (request.duration ≤ s.limits.max_lease_duration_ms)
      × (lease_is_effectively_active l s.clock ≡ true)
      × (l.expires_at ≤ l.hard_expires_at)
      × (l.hard_expires_at ≤ u64_max)
unfolding admit lease_is_effectively_active
admit_sound id request bytes s l o d m h = ground arith
