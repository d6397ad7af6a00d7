-- ===== src/Storage/Floor/Kept.antt =====
-- crates/light-stream-storage/src/lib.rs: what a partition retains, through expiry and the lease
-- commands.
use light_stream.Shared.{
  ℕ, ◌≤◌, ◌<◌, ◌≡◌, ◌≢◌, inl, inr, Option-cases, none, nat_eq, lookup, arith, u64_max, checked_add,
}
use light_stream.Core.Identity.{PartitionKey, partition_key_eq}
use light_stream.Core.Error.{Result-cases, ok}
use light_stream.Core.Replay.{ReplayLeaseRequest, ReplayLease, LeaseRenewal, LeaseRelease, renewed}
use light_stream.Storage.State.{GroupDb, GroupState, WriteBatch, unwrap_or}
use light_stream.Storage.Retention.{SafeLeaseClock, default_limits, admit}
use light_stream.Storage.Publish.Records.{record_key}
use light_stream.Storage.Leases.{
  stored_retention, Expiry, write_expiry, expire_due_leases, replay_range_bytes,
}
use light_stream.Storage.Leases.Commands.{
  admit_expired, admit_clocked, renew_active, renew_clocked, reopen_released, release_active,
  release_clocked,
}
use light_stream.Storage.Floor.Lowered.{
  IsLowered, AreLowered, lookup-IsLowered, reopen-IsLowered, expire_due-AreLowered,
  expire_due-IsLowered,
}

-- The offset after the last record of a partition.
abbrev pub tail_of : GroupState → PartitionKey → ℕ
tail_of s p = unwrap_or (s.next_offset p) 0

-- The cursor is not past the floor, nor the floor past the tail, and every record from the floor to the
-- tail is stored.
pub record IsRetained (s : GroupState) (p : PartitionKey) : Type 0 where
  pub cursor_le : (stored_retention s p).reclaim_cursor ≤ (stored_retention s p).logical_floor
  pub floor_le : (stored_retention s p).logical_floor ≤ tail_of s p
  pub fits : tail_of s p ≤ u64_max
  pub stored :
      (offset : ℕ)
      → (stored_retention s p).logical_floor ≤ offset
      → offset < tail_of s p
      → s.records (record_key p offset) ≢ none

-- Nothing that a partition's retention depends on has changed.
abbrev pub IsSame : GroupState → WriteBatch → Type 0
IsSame s write =
    (write.retention ≡ s.retention)
    × (write.next_offset ≡ s.next_offset)
    × (write.records ≡ s.records)

-- Only the cursor of a partition has changed, and it is not past where it was.
abbrev pub IsReopened : GroupState → PartitionKey → WriteBatch → Type 0
IsReopened s p write =
    IsLowered s p (stored_retention write p)
    × (write.next_offset ≡ s.next_offset)
    × (write.records ≡ s.records)

pub reopened-IsRetained :
    (s : GroupState) (p : PartitionKey) (write : WriteBatch)
    → IsReopened s p write
    → IsRetained s p
    → IsRetained write p
reopened-IsRetained s p write e v =
    let tail : tail_of write p ≡ tail_of s p = ground arith in
    record {
      cursor_le = omega (arith, e.0, v.cursor_le);
      floor_le = omega (arith, e.0, v.floor_le, tail);
      fits = omega (arith, v.fits, tail);
      stored = λ offset a b.
          let there = v.stored offset (omega (arith, e.0)) (omega (arith, tail)) in ground arith;
    }

pub same-IsReopened :
    (s : GroupState) (p : PartitionKey) (write write' : WriteBatch)
    → IsSame write write'
    → IsReopened s p write
    → IsReopened s p write'
same-IsReopened s p write write' e v = ground arith

pub expire_due-IsReopened :
    (s : GroupState) (clock : SafeLeaseClock) (p : PartitionKey)
    → IsReopened s p (expire_due_leases s clock s).1
expire_due-IsReopened s clock p = (
  expire_due-IsLowered s clock p,
  (unfold expire_due_leases write_expiry in ground arith),
  (unfold expire_due_leases write_expiry in ground arith),
)

admit_expired-IsSame :
    (db : GroupDb) (s : GroupState) (request : ReplayLeaseRequest) (clock : SafeLeaseClock)
    (x : Expiry) (write : WriteBatch)
    → IsSame write (admit_expired db s request clock x write).1
unfolding admit_expired
admit_expired-IsSame db s request clock x write =
    let retention = stored_retention s request.range.partition in
    elim (Result-cases (replay_range_bytes s request retention)) [
      | inr (m, e) ↦ ground arith
      | inl (bytes, e) ↦
          elim (Result-cases (
            admit (db.replay_lease_id request.request) request bytes (record {
              floor = retention.logical_floor;
              tail = unwrap_or (s.next_offset request.range.partition) 0;
              clock = clock;
              limits = default_limits;
              budget = x.budget;
            }))) [ inr (m, f) ↦ ground arith | inl (lease, f) ↦ ground arith ]
    ]

pub admit_clocked-IsReopened :
    (db : GroupDb) (s : GroupState) (request : ReplayLeaseRequest) (clock : SafeLeaseClock)
    (p : PartitionKey)
    → IsReopened s p (admit_clocked db s request (ok clock) s).1
unfolding admit_clocked
admit_clocked-IsReopened db s request clock p =
    same-IsReopened s p (expire_due_leases s clock s).1
      (admit_expired db s request clock (expire_due_leases s clock s).0
        (expire_due_leases s clock s).1).1
      (admit_expired-IsSame db s request clock (expire_due_leases s clock s).0
        (expire_due_leases s clock s).1)
      (expire_due-IsReopened s clock p)

renew_active-IsSame :
    (request : LeaseRenewal) (clock : SafeLeaseClock) (lease : ReplayLease) (write : WriteBatch)
    → IsSame write (renew_active request clock lease write).1
unfolding renew_active
renew_active-IsSame request clock lease write =
    elim (Option-cases (checked_add clock.upper_bound request.duration)) [
      | inl e ↦ ground arith
      | inr (at, e) ↦ elim (Result-cases (renewed lease at lease.hard_expires_at)) [
        | inr (m, f) ↦ ground arith
        | inl (lease', f) ↦ ground arith
      ]
    ]

pub renew_clocked-IsReopened :
    (s : GroupState) (request : LeaseRenewal) (clock : SafeLeaseClock) (p : PartitionKey)
    → IsReopened s p (renew_clocked s request (ok clock) s).1
renew_clocked-IsReopened s request clock p =
    let after = expire_due-IsReopened s clock p in
    elim (Option-cases (lookup request.lease s.leases)) [
      | inl e ↦ unfold renew_clocked in ground arith
      | inr (lease, e) ↦
          let same = renew_active-IsSame request clock lease (expire_due_leases s clock s).1 in
          let kept =
            same-IsReopened s p (expire_due_leases s clock s).1
              (renew_active request clock lease (expire_due_leases s clock s).1).1 same after in
          unfold renew_clocked in ground arith
    ]

release_active-IsReopened :
    (s : GroupState) (request : LeaseRelease) (clock : SafeLeaseClock) (lease : ReplayLease)
    (p : PartitionKey) (x : Expiry) (write : WriteBatch)
    → AreLowered s x.retentions
    → IsReopened s p write
    → IsReopened s p (release_active s request clock lease x write).1
unfolding release_active reopen_released
release_active-IsReopened s request clock lease p x write a v =
    let range = lease.request.range in
    let found = lookup-IsLowered s range.partition x.retentions a in
    let lowered =
      reopen-IsLowered s range.partition range.start
        (unwrap_or (lookup range.partition x.retentions) (stored_retention s range.partition))
        found in
    ground arith

pub release_clocked-IsReopened :
    (s : GroupState) (request : LeaseRelease) (clock : SafeLeaseClock) (p : PartitionKey)
    → IsReopened s p (release_clocked s request (ok clock) s).1
release_clocked-IsReopened s request clock p =
    let after = expire_due-IsReopened s clock p in
    elim (Option-cases (lookup request.lease s.leases)) [
      | inl e ↦ unfold release_clocked in ground arith
      | inr (lease, e) ↦
          let kept =
            release_active-IsReopened s request clock lease p (expire_due_leases s clock s).0
              (expire_due_leases s clock s).1 (expire_due-AreLowered s clock s) after in
          unfold release_clocked in ground arith
    ]
