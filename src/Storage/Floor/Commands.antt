-- ===== src/Storage/Floor/Commands.antt =====
-- crates/light-stream-storage/src/lib.rs: no record from the floor on is lost by a command on retention
-- or on leases.
use light_stream.Shared.{
  ℕ, ◌≤◌, ◌≡◌, subst, ap, inl, inr, Bool-cases, Option-cases, some, nat_eq, set_at, ◌==◌, ◌||◌,
  arith,
}
use light_stream.Core.Identity.{PartitionKey, partition_key_eq}
use light_stream.Core.Error.{DomainError, Result, Result-cases, ok, err}
use light_stream.Core.Replay.{ReplayLeaseRequest, LeaseRenewal, LeaseRelease}
use light_stream.Storage.Result.{ApplyResult, rejected}
use light_stream.Storage.State.{GroupDb, GroupState, WriteBatch, unwrap_or}
use light_stream.Storage.Mutations.{prior_mutation_result, store_mutation_result}
use light_stream.Storage.Retention.{ClockObservation, SafeLeaseClock}
use light_stream.Storage.Publish.Records.{record_key}
use light_stream.Storage.Leases.{advance_lease_clock, stored_retention, expire_due_leases}
use light_stream.Storage.Leases.Commands.{
  apply_admit_replay_lease, admit_clocked, apply_renew_replay_lease, renew_clocked,
  apply_release_replay_lease, release_clocked,
}
use light_stream.Storage.Reclaim.{
  Pass, drop_record, reclaim_from, maintain_clocked, apply_maintain_retention,
}
use light_stream.Storage.Reclaim.Untouched.{pass_leaves}
use light_stream.Storage.Reclaim.Maintain.{
  reclamation, retention_at_start, maintain_clocked_lem, maintain_clocked_err, pass_records,
}
use light_stream.Storage.Floor.Kept.{
  tail_of, IsRetained, IsReopened, expire_due-IsReopened, admit_clocked-IsReopened,
  renew_clocked-IsReopened, release_clocked-IsReopened,
}

-- Every partition is retained.
abbrev pub AreRetained : GroupState → Type 0
AreRetained s = (p : PartitionKey) → IsRetained s p

-- The state that a pass over a partition is put into.
abbrev put_pass : PartitionKey → SafeLeaseClock → Pass → WriteBatch
put_pass p clock q = record q.write {
  retention = set_at q.write.retention p (some q.retention);
  lease_clock = some clock;
}

-- What a pass leaves of the retention state of a partition.
pass_retention :
    (db : GroupDb) (s : GroupState) (p : PartitionKey) (max_records max_payload_bytes : ℕ)
    (clock : SafeLeaseClock) (q : Pass) (k : PartitionKey)
    → AreRetained s
    → reclaim_from db s
        (reclamation s p max_records max_payload_bytes clock)
        (retention_at_start s p clock)
        (expire_due_leases s clock s).1
      ≡ ok q
    → ((stored_retention (put_pass p clock q) k).logical_floor
        ≡ (stored_retention s k).logical_floor)
      × ((stored_retention (put_pass p clock q) k).reclaim_cursor
          ≤ (stored_retention s k).logical_floor)
      × (q.write.next_offset ≡ s.next_offset)
pass_retention db s p max_records max_payload_bytes clock q k v h =
    let vp = v p in
    let cursor = (v k).cursor_le in
    let after = expire_due-IsReopened s clock k in
    let c = reclamation s p max_records max_payload_bytes clock in
    let r = retention_at_start s p clock in
    let before = (expire_due_leases s clock s).1 in
    let retention =
      pass_leaves (λ w. w.retention) db s c (λ c' entry at o w. unfold drop_record in ground arith)
        r before q h in
    let offsets =
      pass_leaves (λ w. w.next_offset) db s c
        (λ c' entry at o w. unfold drop_record in ground arith) r before q h in
    let done =
      pass_records db s p max_records max_payload_bytes clock (record_key k 0) q
        (omega (arith, vp.floor_le, vp.fits)) vp.cursor_le h in
    elim (Bool-cases (k == p)) [ inl e ↦ ground arith | inr e ↦ ground arith ]

pass-IsRetained :
    (db : GroupDb) (s : GroupState) (p : PartitionKey) (max_records max_payload_bytes : ℕ)
    (clock : SafeLeaseClock) (q : Pass) (k : PartitionKey)
    → AreRetained s
    → reclaim_from db s
        (reclamation s p max_records max_payload_bytes clock)
        (retention_at_start s p clock)
        (expire_due_leases s clock s).1
      ≡ ok q
    → IsRetained (put_pass p clock q) k
pass-IsRetained db s p max_records max_payload_bytes clock q k v h =
    let vp = v p in
    let vk = v k in
    let put = pass_retention db s p max_records max_payload_bytes clock q k v h in
    let tail : tail_of (put_pass p clock q) k ≡ tail_of s k = ap (λ f. unwrap_or (f k) 0) put.2 in
    record {
      cursor_le = omega (arith, put);
      floor_le = omega (arith, put, tail, vk.floor_le);
      fits = omega (arith, tail, vk.fits);
      stored = λ offset a b.
          let there = vk.stored offset (omega (arith, put)) (omega (arith, tail)) in
          let done =
            pass_records db s p max_records max_payload_bytes clock (record_key k offset) q
              (omega (arith, vp.floor_le, vp.fits)) vp.cursor_le h in
          ground arith;
    }

pub admit-IsReopened :
    (db : GroupDb) (s : GroupState) (request : ReplayLeaseRequest) (o : ClockObservation)
    (result : ApplyResult) (write : WriteBatch) (k : PartitionKey)
    → apply_admit_replay_lease db s request o s ≡ ok (result, write)
    → IsReopened s k write
admit-IsReopened db s request o result write k h =
    elim (Option-cases
      (prior_mutation_result s request.request (db.admission_fingerprint request))) [
        | inr (r, e) ↦ unfold apply_admit_replay_lease in ground arith
        | inl e ↦ elim (Result-cases (advance_lease_clock s o)) [
          | inr (m, g) ↦
              unfold apply_admit_replay_lease admit_clocked store_mutation_result in ground arith
          | inl (clock, g) ↦
              let kept = admit_clocked-IsReopened db s request clock k in
              unfold apply_admit_replay_lease store_mutation_result in ground arith
        ]
      ]

pub renew-IsReopened :
    (db : GroupDb) (s : GroupState) (request : LeaseRenewal) (o : ClockObservation)
    (result : ApplyResult) (write : WriteBatch) (k : PartitionKey)
    → apply_renew_replay_lease db s request o s ≡ ok (result, write)
    → IsReopened s k write
renew-IsReopened db s request o result write k h =
    elim (Option-cases (prior_mutation_result s request.request (db.renewal_fingerprint request))) [
      | inr (r, e) ↦ unfold apply_renew_replay_lease in ground arith
      | inl e ↦ elim (Result-cases (advance_lease_clock s o)) [
        | inr (m, g) ↦
            unfold apply_renew_replay_lease renew_clocked store_mutation_result in ground arith
        | inl (clock, g) ↦
            let kept = renew_clocked-IsReopened s request clock k in
            unfold apply_renew_replay_lease store_mutation_result in ground arith
      ]
    ]

pub release-IsReopened :
    (db : GroupDb) (s : GroupState) (request : LeaseRelease) (o : ClockObservation)
    (result : ApplyResult) (write : WriteBatch) (k : PartitionKey)
    → apply_release_replay_lease db s request o s ≡ ok (result, write)
    → IsReopened s k write
release-IsReopened db s request o result write k h =
    elim (Option-cases (prior_mutation_result s request.request (db.release_fingerprint request))) [
      | inr (r, e) ↦ unfold apply_release_replay_lease in ground arith
      | inl e ↦ elim (Result-cases (advance_lease_clock s o)) [
        | inr (m, g) ↦
            unfold apply_release_replay_lease release_clocked store_mutation_result in ground arith
        | inl (clock, g) ↦
            let kept = release_clocked-IsReopened s request clock k in
            unfold apply_release_replay_lease store_mutation_result in ground arith
      ]
    ]

maintain_begun :
    (db : GroupDb) (s : GroupState) (p : PartitionKey) (max_records max_payload_bytes : ℕ)
    (clock : Result DomainError SafeLeaseClock) (result : ApplyResult) (write : WriteBatch)
    (k : PartitionKey)
    → AreRetained s
    → (elim clock [
      | err e ↦ ok (rejected e, s)
      | ok clock ↦ maintain_clocked db s p max_records max_payload_bytes clock s
    ])
      ≡ ok (result, write)
    → IsRetained write k
maintain_begun db s p max_records max_payload_bytes (err e) result write k v h =
    let same : s ≡ write = ground arith in subst (λ w. IsRetained w k) same (v k)
maintain_begun db s p max_records max_payload_bytes (ok clock) result write k v h =
    elim (Result-cases (
      reclaim_from db s (reclamation s p max_records max_payload_bytes clock)
        (retention_at_start s p clock) (expire_due_leases s clock s).1)) [
          | inl (q, e) ↦
              let run = maintain_clocked_lem db s p max_records max_payload_bytes clock q e in
              let same : put_pass p clock q ≡ write = ground arith in
              subst (λ w. IsRetained w k) same
                (pass-IsRetained db s p max_records max_payload_bytes clock q k v e)
          | inr (m, e) ↦
              let run = maintain_clocked_err db s p max_records max_payload_bytes clock m e in
              ground arith
        ]

pub maintain-IsRetained :
    (db : GroupDb) (s : GroupState) (p : PartitionKey) (cursor max_records max_payload_bytes : ℕ)
    (o : ClockObservation) (result : ApplyResult) (write : WriteBatch) (k : PartitionKey)
    → AreRetained s
    → apply_maintain_retention db s p cursor max_records max_payload_bytes o s ≡ ok (result, write)
    → IsRetained write k
maintain-IsRetained db s p cursor max_records max_payload_bytes o result write k v h =
    elim (Bool-cases (max_records == 0 || max_payload_bytes == 0)) [
      | inl a ↦
          let same : s ≡ write = unfold apply_maintain_retention in ground arith in
          subst (λ w. IsRetained w k) same (v k)
      | inr a ↦ elim (Bool-cases ((stored_retention s p).reclaim_cursor == cursor)) [
        | inr b ↦
            let same : s ≡ write = unfold apply_maintain_retention in ground arith in
            subst (λ w. IsRetained w k) same (v k)
        | inl b ↦
            maintain_begun db s p max_records max_payload_bytes (advance_lease_clock s o) result
              write k v (unfold apply_maintain_retention in ground arith)
      ]
    ]
