-- ===== src/Storage/Reclaim/Payloads.antt =====
-- crates/light-stream-storage/src/lib.rs, `apply_maintain_retention`: the owners of the payloads of the
-- records that it deletes.
use light_stream.Shared.{
  ◌-◌, ◌≡◌, refl, sym, subst, ◌⊎◌, inl, inr, Bool-cases, Option, none, some, false, ◌==◌,
  if◌then◌else◌, arith,
}
use light_stream.Core.Error.{ok}
use light_stream.Storage.Keys.{PayloadKey, payload_key_eq}
use light_stream.Storage.State.{
  GroupDb, GroupState, WriteBatch, StoredRecord, PayloadOwners, reachable, set_applied_in,
}
use light_stream.Storage.Retention.{PartitionRetentionState}
use light_stream.Storage.Reclaim.{
  Reclamation, Pass, continued, drop_record, reclaim_owned, reclaim_turn, reclaim_from,
}
use light_stream.Storage.Reclaim.Progress.{reclaim_rule}
use light_stream.Storage.Reclaim.Limits.{turn_goes}

-- What is left of a payload when the applied state of the active bank has given it up.
abbrev pub left_over {ℓ} : {A : Type ℓ} → GroupDb → PayloadOwners → Option A → Option A
left_over db o x = if reachable (set_applied_in o db.active_bank false) then x else none

-- Owners and bytes of a payload are as they were, or the active bank has given it up.
abbrev pub Owns : GroupDb → GroupState → WriteBatch → PayloadKey → Pass → Type 0
Owns db s write k p =
    ((p.write.payload_owners k ≡ write.payload_owners k) × (p.write.payloads k ≡ write.payloads k))
    ⊎ ((o : PayloadOwners) × (s.payload_owners k ≡ some o)
        × (p.write.payload_owners k ≡ left_over db o (some (set_applied_in o db.active_bank false)))
        × (p.write.payloads k ≡ left_over db o (write.payloads k)))

module _ (db : GroupDb) (s : GroupState) (c : Reclamation) (write : WriteBatch)
    (k : PayloadKey) where
  owned-Owns :
      (p : Pass) (entry : StoredRecord) (o : PayloadOwners)
      → Owns db s write k p
      → s.payload_owners entry.payload_key ≡ some o
      → Owns db s write k (reclaim_owned db c entry o p)
  unfolding reclaim_owned drop_record
  owned-Owns p entry o v e = elim (Bool-cases (k == entry.payload_key)) [
    | inl f ↦ elim v [
      | inl u ↦ inr (o, (ground arith), (ground arith), (ground arith))
      | inr (o', a, b, d) ↦ inr (o, (ground arith), (ground arith), (ground arith))
    ]
    | inr f ↦ elim v [
      | inl u ↦ inl (ground arith)
      | inr (o', a, b, d) ↦ inr (o', a, (ground arith), (ground arith))
    ]
  ]

  turn-Owns :
      (p q : Pass) → Owns db s write k p → reclaim_turn db s c p ≡ continued q → Owns db s write k q
  turn-Owns p q v h = elim (turn_goes db s c p q h) [
    | inl (cursor, e) ↦ subst (Owns db s write k) (sym e) v
    | inr (inl (lt, (cursor, e))) ↦ subst (Owns db s write k) (sym e) v
    | inr (inr (lt, (entry, (o, a, b, g, e)))) ↦
        subst (Owns db s write k) (sym e) (owned-Owns p entry o v g)
  ]

-- A pass leaves the owners and the bytes of each payload as they were, or it clears the ownership of
-- the active bank; then it keeps the bytes when the log or the other bank still reaches the payload,
-- with its owners, and otherwise deletes both.
pub reclaim_from_payloads :
    (db : GroupDb) (s : GroupState) (c : Reclamation) (r : PartitionRetentionState)
    (write : WriteBatch) (k : PayloadKey) (q : Pass)
    → reclaim_from db s c r write ≡ ok q
    → Owns db s write k q
unfolding reclaim_from
reclaim_from_payloads db s c r write k q h =
    reclaim_rule db s c (Owns db s write k) (turn-Owns db s c write k)
      (r.logical_floor - r.reclaim_cursor)
      (record { retention = r; examined = 0; reclaimed_bytes = 0; write = write }) q
      (inl (refl, refl)) h
