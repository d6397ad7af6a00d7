-- ===== src/Storage/Retention.antt =====
-- crates/light-stream-storage/src/retention.rs: the lease clock, the admission of a replay lease,
-- and the retention floor.
pub mod Clock
use light_stream.Shared.{
  ℕ, ◌+◌, ◌*◌, Bool, leb, ltb, max_of, min_of, checked_add, saturating_add, ◌==◌, ◌&&◌, ◌||◌,
  if◌then◌else◌,
}
use light_stream.Core.Identity.{RecordOffset, ReplayLeaseId, active, lifecycle_eq}
use light_stream.Core.Error.{
  DomainError, cursor_expired, invalid_range, resource_limit, lease_clock_unavailable, Result, ok,
  err, ok_or, ◌>>=◌,
}
use light_stream.Core.Replay.{ReplayLeaseRequest, ReplayLease, admitted}

pub record ClockObservation : Type 0 where
  pub lower_bound : ℕ
  pub upper_bound : ℕ

-- ClockObservation::new
unfoldable pub clock_observation : ℕ → ℕ → Result DomainError ClockObservation
clock_observation lower upper =
    if ltb upper lower
    then err lease_clock_unavailable
    else ok (record { lower_bound = lower; upper_bound = upper })

pub record SafeLeaseClock : Type 0 where
  pub lower_bound : ℕ
  pub upper_bound : ℕ

-- SafeLeaseClock::new, which never fails.
unfoldable pub safe_lease_clock : ClockObservation → Result DomainError SafeLeaseClock
safe_lease_clock o = ok (record { lower_bound = o.lower_bound; upper_bound = o.upper_bound })

-- SafeLeaseClock::advance
unfoldable pub advance : SafeLeaseClock → ClockObservation → Result DomainError SafeLeaseClock
advance c o =
    if ltb o.upper_bound c.lower_bound
    then err lease_clock_unavailable
    else ok (record {
      lower_bound = max_of c.lower_bound o.lower_bound;
      upper_bound = max_of c.upper_bound o.upper_bound;
    })

pub record RetentionLimits : Type 0 where
  pub max_lease_bytes : ℕ
  pub max_group_reserved_lease_bytes : ℕ
  pub max_active_leases : ℕ
  pub max_lease_duration_ms : ℕ
  pub max_lease_lifetime_ms : ℕ

-- RetentionLimits::default
abbrev pub default_limits : RetentionLimits
default_limits = record {
  max_lease_bytes = 512 * 1024 * 1024;
  max_group_reserved_lease_bytes = 4 * 1024 * 1024 * 1024;
  max_active_leases = 256;
  max_lease_duration_ms = 60_000;
  max_lease_lifetime_ms = 15 * 60_000;
}

pub record LeaseBudget : Type 0 where
  pub active_leases : ℕ
  pub reserved_bytes : ℕ

pub record AdmissionState : Type 0 where
  pub floor : RecordOffset
  pub tail : RecordOffset
  pub clock : SafeLeaseClock
  pub limits : RetentionLimits
  pub budget : LeaseBudget

pub record PartitionRetentionState : Type 0 where
  pub logical_floor : ℕ
  pub reclaim_cursor : ℕ
  pub logically_expired_bytes : ℕ
  pub raft_only_bytes : ℕ
  pub next_byte_position : ℕ
  pub floor_byte_position : ℕ

unfoldable pub admit :
    ReplayLeaseId → ReplayLeaseRequest → ℕ → AdmissionState → Result DomainError ReplayLease
admit id request protected_bytes state =
    if ltb request.range.start state.floor
    then err (cursor_expired request.range.start state.floor)
    else if ltb state.tail request.range.end
    then err (invalid_range "replay lease range extends past the committed tail")
    else if ltb state.limits.max_lease_duration_ms request.duration
    then err (resource_limit "replay_lease_duration_ms" state.limits.max_lease_duration_ms)
    else if ltb request.max_bytes protected_bytes
        || ltb state.limits.max_lease_bytes protected_bytes
    then err (
        resource_limit "replay_lease_bytes" (min_of request.max_bytes state.limits.max_lease_bytes))
    else if leb state.limits.max_active_leases state.budget.active_leases
    then err (resource_limit "active_replay_leases" state.limits.max_active_leases)
    else if ltb state.limits.max_group_reserved_lease_bytes
        (saturating_add state.budget.reserved_bytes protected_bytes)
    then err (resource_limit "group_replay_lease_bytes" state.limits.max_group_reserved_lease_bytes)
    else (ok_or (checked_add state.clock.upper_bound request.duration) lease_clock_unavailable
        >>= λ expires_at.
            ok_or (checked_add state.clock.upper_bound state.limits.max_lease_lifetime_ms)
              lease_clock_unavailable
            >>= λ hard_expires_at.
                ok (admitted id request protected_bytes expires_at hard_expires_at))

unfoldable pub lease_is_effectively_active : ReplayLease → SafeLeaseClock → Bool
lease_is_effectively_active lease clock =
    lease.lifecycle == active
    && (ltb clock.lower_bound lease.expires_at && ltb clock.lower_bound lease.hard_expires_at)

unfoldable pub advance_floor :
    RecordOffset → RecordOffset → RecordOffset → Result DomainError RecordOffset
advance_floor current requested tail =
    if ltb tail requested
    then err (invalid_range "retention floor cannot advance past the committed tail")
    else ok (max_of current requested)
