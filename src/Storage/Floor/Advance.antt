-- ===== src/Storage/Floor/Advance.antt =====
-- crates/light-stream-storage/src/lib.rs, `apply_advance_retention`: the floor moves between where it was
-- and the tail, and no record from the floor on is lost by a command on retention or on leases.
use light_stream.Shared.{
  ℕ, ◌≤◌, ◌≡◌, refl, subst, ap, inl, inr, Bool-cases, Option-cases, none, some, nat_eq, String,
  set_at, ◌==◌, arith,
}
use light_stream.Core.Identity.{MutationRequestId, PartitionKey, partition_key_eq}
use light_stream.Core.Error.{Result-cases, ok}
use light_stream.Core.Replay.{RetentionRequest}
use light_stream.Storage.Result.{ApplyResult, rejected}
use light_stream.Storage.State.{
  kind-cases, GroupDb, GroupState, WriteBatch, Applied, data_group, unwrap_or,
}
use light_stream.Storage.Mutations.{prior_mutation_result, store_mutation_result}
use light_stream.Storage.Retention.{ClockObservation, SafeLeaseClock, advance_floor}
use light_stream.Storage.Leases.{advance_lease_clock, stored_retention}
use light_stream.Storage.Leases.Budget.{
  LeaseCommand, admit_lease, renew_lease, release_lease_of, maintain, run_lease_command,
}
use light_stream.Storage.Floor.{
  floor_byte_position, put_floor, move_floor, advance_retention, apply_advance_retention,
}
use light_stream.Storage.Floor.Kept.{tail_of, IsRetained, IsReopened, reopened-IsRetained}
use light_stream.Storage.Floor.Commands.{
  AreRetained, admit-IsReopened, renew-IsReopened, release-IsReopened, maintain-IsRetained,
}

-- A floor that is accepted is not before the old one nor past the tail.
advance_floor_lem :
    (current requested tail floor : ℕ)
    → current ≤ tail
    → advance_floor current requested tail ≡ ok floor
    → (current ≤ floor) × (floor ≤ tail)
unfolding advance_floor
advance_floor_lem current requested tail floor v h = ground arith

put_floor_lem :
    (s : GroupState) (request : RetentionRequest) (clock : SafeLeaseClock) (floor position : ℕ)
    (write : WriteBatch) (k : PartitionKey)
    → (stored_retention s request.partition).logical_floor ≤ floor
    → floor ≤ tail_of s request.partition
    → (stored_retention s k).reclaim_cursor ≤ (stored_retention s k).logical_floor
    → (stored_retention s k).logical_floor ≤ tail_of s k
    → write.retention
      ≡ set_at s.retention request.partition (
          some (record (stored_retention s request.partition) {
            logical_floor = floor;
            floor_byte_position = position;
          }))
    → ((stored_retention s k).logical_floor ≤ (stored_retention write k).logical_floor)
      × ((stored_retention write k).logical_floor ≤ tail_of s k)
      × ((stored_retention write k).reclaim_cursor ≤ (stored_retention write k).logical_floor)
put_floor_lem s request clock floor position write k lo hi c f a =
    elim (Bool-cases (k == request.partition)) [ inl e ↦ ground arith | inr e ↦ ground arith ]

put_floor-IsRetained :
    (s : GroupState) (request : RetentionRequest) (clock : SafeLeaseClock) (floor position : ℕ)
    (write : WriteBatch) (k : PartitionKey)
    → AreRetained s
    → (stored_retention s request.partition).logical_floor ≤ floor
    → floor ≤ tail_of s request.partition
    → write.retention
      ≡ set_at s.retention request.partition (
          some (record (stored_retention s request.partition) {
            logical_floor = floor;
            floor_byte_position = position;
          }))
    → write.next_offset ≡ s.next_offset
    → write.records ≡ s.records
    → IsRetained write k
put_floor-IsRetained s request clock floor position write k v lo hi a b c =
    let vk = v k in
    let tail : tail_of write k ≡ tail_of s k = ap (λ f. unwrap_or (f k) 0) b in
    let grows =
      put_floor_lem s request clock floor position write k lo hi vk.cursor_le vk.floor_le a in
    record {
      cursor_le = omega (arith, grows);
      floor_le = omega (arith, grows, tail);
      fits = omega (arith, tail, vk.fits);
      stored = λ offset d e.
          let there = vk.stored offset (omega (arith, grows)) (omega (arith, tail)) in ground arith;
    }

-- The state as it was beside a stored answer.
stored-IsReopened :
    (db : GroupDb) (s : GroupState) (request : MutationRequestId) (fingerprint : String)
    (result : ApplyResult) (k : PartitionKey)
    → IsReopened s k (store_mutation_result db s request fingerprint result s)
unfolding store_mutation_result
stored-IsReopened db s request fingerprint result k = ((refl, omega arith), refl, refl)

advanced-IsRetained :
    (db : GroupDb) (s : GroupState) (request : RetentionRequest) (o : ClockObservation)
    (result : ApplyResult) (write : WriteBatch) (k : PartitionKey)
    → AreRetained s
    → db.identity.kind ≡ data_group
    → prior_mutation_result s request.request (db.retention_fingerprint request) ≡ none
    → apply_advance_retention db s request o s ≡ ok (result, write)
    → IsRetained write k
advanced-IsRetained db s request o result write k v d e h =
    let previous = stored_retention s request.partition in
    elim (Result-cases
      (advance_floor previous.logical_floor request.target_floor (tail_of s request.partition))) [
        | inr (m, f) ↦
            let same =
              stored-IsReopened db s request.request (db.retention_fingerprint request) (rejected m)
                k in
            let reopened : IsReopened s k write =
              unfold apply_advance_retention advance_retention in ground arith in
            reopened-IsRetained s k write reopened (v k)
        | inl (floor, f) ↦ elim (Result-cases (advance_lease_clock s o)) [
          | inr (m, g) ↦
              let same =
                stored-IsReopened db s request.request (db.retention_fingerprint request)
                  (rejected m) k in
              let reopened : IsReopened s k write =
                unfold apply_advance_retention advance_retention move_floor in ground arith in
              reopened-IsRetained s k write reopened (v k)
          | inl (clock, g) ↦
              elim (Option-cases (floor_byte_position s request.partition previous floor)) [
                | inl n ↦
                    let same : s ≡ write =
                      unfold apply_advance_retention advance_retention move_floor in ground arith in
                    subst (λ w. IsRetained w k) same (v k)
                | inr (position, n) ↦
                    let moved =
                      advance_floor_lem previous.logical_floor request.target_floor
                        (tail_of s request.partition) floor (v request.partition).floor_le f in
                    put_floor-IsRetained s request clock floor position write k v moved.0 moved.1
                      (unfold apply_advance_retention advance_retention move_floor put_floor
                          store_mutation_result in
                        ground arith)
                      (unfold apply_advance_retention advance_retention move_floor put_floor
                          store_mutation_result in
                        ground arith)
                      (unfold apply_advance_retention advance_retention move_floor put_floor
                          store_mutation_result in
                        ground arith)
              ]
        ]
      ]

advance-IsRetained :
    (db : GroupDb) (s : GroupState) (request : RetentionRequest) (o : ClockObservation)
    (result : ApplyResult) (write : WriteBatch) (k : PartitionKey)
    → AreRetained s
    → apply_advance_retention db s request o s ≡ ok (result, write)
    → IsRetained write k
advance-IsRetained db s request o result write k v h = elim (kind-cases db.identity.kind) [
  | inl d ↦
      let same : s ≡ write = unfold apply_advance_retention in ground arith in
      subst (λ w. IsRetained w k) same (v k)
  | inr d ↦
      elim (Option-cases
        (prior_mutation_result s request.request (db.retention_fingerprint request))) [
          | inr (r, e) ↦
              let same : s ≡ write = unfold apply_advance_retention in ground arith in
              subst (λ w. IsRetained w k) same (v k)
          | inl e ↦ advanced-IsRetained db s request o result write k v d e h
        ]
]

-- The commands that change what a partition retains.
pub data RetentionCommand : Type 0 where
  advance_to : RetentionRequest → ClockObservation → RetentionCommand
  on_lease : LeaseCommand → RetentionCommand

abbrev pub run_retention_command : GroupDb → GroupState → RetentionCommand → Applied ApplyResult
run_retention_command db s (advance_to request o) = apply_advance_retention db s request o s
run_retention_command db s (on_lease command) = run_lease_command db s command

lease-IsRetained :
    (db : GroupDb) (s : GroupState) (command : LeaseCommand) (result : ApplyResult)
    (write : WriteBatch) (k : PartitionKey)
    → AreRetained s
    → run_lease_command db s command ≡ ok (result, write)
    → IsRetained write k
lease-IsRetained db s (admit_lease request o) result write k v h =
    reopened-IsRetained s k write (admit-IsReopened db s request o result write k h) (v k)
lease-IsRetained db s (renew_lease request o) result write k v h =
    reopened-IsRetained s k write (renew-IsReopened db s request o result write k h) (v k)
lease-IsRetained db s (release_lease_of request o) result write k v h =
    reopened-IsRetained s k write (release-IsReopened db s request o result write k h) (v k)
lease-IsRetained db s (maintain p cursor max_records max_payload_bytes o) result write k v h =
    maintain-IsRetained db s p cursor max_records max_payload_bytes o result write k v h

-- In every partition the reclaim cursor is not past the floor, the floor is not past the tail, and
-- every record from the floor to the tail is stored. Advancing a floor, admitting, renewing and
-- releasing a lease and maintaining a partition keep all of it so, on every branch that applies.
pub retention_command-AreRetained :
    (db : GroupDb) (s : GroupState) (command : RetentionCommand) (result : ApplyResult)
    (write : WriteBatch)
    → AreRetained s
    → run_retention_command db s command ≡ ok (result, write)
    → AreRetained write
retention_command-AreRetained db s (advance_to request o) result write v h =
    λ k. advance-IsRetained db s request o result write k v h
retention_command-AreRetained db s (on_lease command) result write v h =
    λ k. lease-IsRetained db s command result write k v h
