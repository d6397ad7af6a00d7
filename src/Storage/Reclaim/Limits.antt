-- ===== src/Storage/Reclaim/Limits.antt =====
-- crates/light-stream-storage/src/lib.rs, `apply_maintain_retention`: the limits that its loop keeps to,
-- and the payloads that it gives up.
use light_stream.Shared.{
  ℕ, ◌-◌, ◌≤◌, ◌<◌, ◌≡◌, refl, sym, subst, ◌⊎◌, inl, inr, false, Option-cases, some, nat_eq, ltb,
  saturating_add, min_of, arith, Bool-cases, u64_max,
}
use light_stream.Core.Error.{ok}
use light_stream.Storage.Keys.{RecordKey, payload_key_eq}
use light_stream.Storage.State.{GroupDb, GroupState, WriteBatch, StoredRecord, PayloadOwners}
use light_stream.Storage.Retention.{PartitionRetentionState}
use light_stream.Storage.Publish.Records.{record_key}
use light_stream.Storage.Reclaim.{
  Reclamation, Pass, continued, find_range, at_cursor, next_examined, over_limit, reclaim_owned,
  reclaim_record, reclaim_at, reclaim_turn, reclaim_from,
}
use light_stream.Storage.Reclaim.Progress.{reclaim_rule}

-- How a turn that goes on may go: over a range, past an offset without a record, or past a record
-- that it deletes.
abbrev pub Jumps : Pass → Pass → Type 0
Jumps p q = (cursor : ℕ) × (q ≡ record p { retention = at_cursor cursor p.retention })

abbrev pub Skips : Reclamation → Pass → Pass → Type 0
Skips c p q =
    (p.examined < c.max_records)
    × ((cursor : ℕ) × (q ≡ record p {
      retention = at_cursor cursor p.retention;
      examined = next_examined p.examined;
    }))

abbrev pub Deletes : GroupDb → GroupState → Reclamation → Pass → Pass → Type 0
Deletes db s c p q =
    (p.examined < c.max_records)
    × ((entry : StoredRecord) × ((owners : PayloadOwners) × (s.records
              (record_key c.partition p.retention.reclaim_cursor)
            ≡ some entry)
          × (over_limit c entry p ≡ false)
          × (s.payload_owners entry.payload_key ≡ some owners)
          × (q ≡ reclaim_owned db c entry owners p)))

pub turn_goes :
    (db : GroupDb) (s : GroupState) (c : Reclamation) (p q : Pass)
    → reclaim_turn db s c p ≡ continued q
    → Jumps p q ⊎ (Skips c p q ⊎ Deletes db s c p q)
turn_goes db s c p q h =
    elim (Option-cases (find_range p.retention.reclaim_cursor c.active_ranges)) [
      | inr (r, e) ↦
          inl (
            min_of r.end p.retention.logical_floor,
            (unfold reclaim_turn reclaim_at in ground arith),
          )
      | inl e ↦
          elim (Option-cases (s.records (record_key c.partition p.retention.reclaim_cursor))) [
            | inl f ↦ inr (
                inl (
                  (unfold reclaim_turn in ground arith),
                  (
                    saturating_add p.retention.reclaim_cursor 1,
                    (unfold reclaim_turn reclaim_at reclaim_record in ground arith),
                  ),
                ))
            | inr (entry, f) ↦ elim (Option-cases (s.payload_owners entry.payload_key)) [
              | inl g ↦ unfold reclaim_turn reclaim_at reclaim_record in ground arith
              | inr (o, g) ↦ inr (
                  inr (
                    (unfold reclaim_turn in ground arith),
                    (
                      entry,
                      (
                        o,
                        f,
                        (unfold reclaim_turn reclaim_at reclaim_record in ground arith),
                        g,
                        (unfold reclaim_turn reclaim_at reclaim_record in ground arith),
                      ),
                    ),
                  ))
            ]
          ]
    ]

-- The bytes stay within the limit, or are those of one record.
abbrev pub KeepsBytes : GroupState → Reclamation → Pass → Type 0
KeepsBytes s c p =
    (p.reclaimed_bytes ≤ c.max_payload_bytes)
    ⊎ ((k : RecordKey) × ((entry : StoredRecord) × (s.records k ≡ some entry)
          × (p.reclaimed_bytes ≤ entry.payload_bytes)))

-- The limits of a pass that began with a retention state.
abbrev pub KeepsLimits : GroupState → Reclamation → PartitionRetentionState → Pass → Type 0
KeepsLimits s c r p =
    (p.examined ≤ c.max_records)
    × KeepsBytes s c p
    × (p.retention.logically_expired_bytes
        ≡ saturating_add r.logically_expired_bytes p.reclaimed_bytes)
    × (p.retention.raft_only_bytes ≤ saturating_add r.raft_only_bytes p.reclaimed_bytes)

-- Before the first record is examined nothing is reclaimed.
abbrev Begins : Pass → Type 0
Begins p = (0 < p.examined) ⊎ (p.reclaimed_bytes ≡ 0)

module _ (db : GroupDb) (s : GroupState) (c : Reclamation) (r : PartitionRetentionState) where
  owned-KeepsBytes :
      (p : Pass) (entry : StoredRecord) (o : PayloadOwners)
      → Begins p
      → s.records (record_key c.partition p.retention.reclaim_cursor) ≡ some entry
      → over_limit c entry p ≡ false
      → KeepsBytes s c (reclaim_owned db c entry o p)
  unfolding reclaim_owned
  owned-KeepsBytes p entry o b e f = elim (Bool-cases (ltb 0 p.examined)) [
    | inl g ↦ inl (ground arith)
    | inr g ↦ inr (record_key c.partition p.retention.reclaim_cursor, (entry, e, (ground arith)))
  ]

  Deletes-KeepsLimits :
      (p q : Pass)
      → Begins p × KeepsLimits s c r p
      → Deletes db s c p q
      → Begins q × KeepsLimits s c r q
  Deletes-KeepsLimits p q (b, v) (lt, (entry, (o, e, f, g, h))) =
      let bytes = owned-KeepsBytes p entry o b e f in
      subst (λ x. Begins x × KeepsLimits s c r x) (sym h)
        (unfold reclaim_owned in (ground arith, (ground arith, bytes, ground arith, ground arith)))

  turn-KeepsLimits :
      (p q : Pass)
      → Begins p × KeepsLimits s c r p
      → reclaim_turn db s c p ≡ continued q
      → Begins q × KeepsLimits s c r q
  turn-KeepsLimits p q v h = elim (turn_goes db s c p q h) [
    | inl (cursor, e) ↦ subst (λ x. Begins x × KeepsLimits s c r x) (sym e) v
    | inr (inl (lt, (cursor, e))) ↦
        subst (λ x. Begins x × KeepsLimits s c r x) (sym e) (ground arith)
    | inr (inr d) ↦ Deletes-KeepsLimits p q v d
  ]

-- A pass that ends without an error examines no more records than it may, and the payload bytes that
-- it reclaims stay within their limit or are at most those of one record, which alone may exceed it.
-- The partition's expired bytes grow by exactly the bytes that are reclaimed, and the bytes that only
-- the log holds by at most those; both counts saturate. The counts are u64 values.
pub reclaim_from_limits :
    (db : GroupDb) (s : GroupState) (c : Reclamation) (r : PartitionRetentionState)
    (write : WriteBatch) (q : Pass)
    → r.logically_expired_bytes ≤ u64_max
    → r.raft_only_bytes ≤ u64_max
    → reclaim_from db s c r write ≡ ok q
    → KeepsLimits s c r q
unfolding reclaim_from
reclaim_from_limits db s c r write q a b h =
    let start : Pass = record { retention = r; examined = 0; reclaimed_bytes = 0; write = write } in
    let kept =
      reclaim_rule db s c (λ x. Begins x × KeepsLimits s c r x) (turn-KeepsLimits db s c r)
        (r.logical_floor - r.reclaim_cursor) start q
        (inr refl, (omega arith, inl (omega arith), ground arith, ground arith)) h in
    kept.1
