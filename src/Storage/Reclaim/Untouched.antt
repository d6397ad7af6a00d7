-- ===== src/Storage/Reclaim/Untouched.antt =====
-- crates/light-stream-storage/src/lib.rs, `apply_maintain_retention`: what its loop leaves alone.
use light_stream.Shared.{ℕ, ◌-◌, ◌≡◌, refl, ap, ◌∙◌, inl, inr, false}
use light_stream.Core.Error.{ok}
use light_stream.Storage.State.{
  GroupDb, GroupState, WriteBatch, StoredRecord, PayloadOwners, set_applied_in,
}
use light_stream.Storage.Retention.{PartitionRetentionState}
use light_stream.Storage.Reclaim.{
  Reclamation, Pass, continued, drop_record, reclaim_owned, reclaim_turn, reclaim_from,
}
use light_stream.Storage.Reclaim.Progress.{reclaim_rule}
use light_stream.Storage.Reclaim.Limits.{turn_goes}

module _ {ℓ} {A : Type ℓ} (f : WriteBatch → A) where
  -- Dropping a record leaves a part of the batch alone.
  abbrev pub IsLeft : Type ℓ
  IsLeft =
      (c : Reclamation) (entry : StoredRecord) (cursor : ℕ) (o : PayloadOwners) (write : WriteBatch)
      → f (drop_record c entry cursor o write) ≡ f write

  turn_leaves :
      (db : GroupDb) (s : GroupState) (c : Reclamation)
      → IsLeft
      → (write : WriteBatch) (p q : Pass) → f p.write ≡ f write
      → reclaim_turn db s c p ≡ continued q
      → f q.write ≡ f write
  turn_leaves db s c left write p q v h = elim (turn_goes db s c p q h) [
    | inl (cursor, e) ↦ ap (λ x. f x.write) e ∙ v
    | inr (inl (lt, (cursor, e))) ↦ ap (λ x. f x.write) e ∙ v
    | inr (inr (lt, (entry, (o, a, b, g, e)))) ↦
        ap (λ x. f x.write) e
        ∙ (unfold reclaim_owned in
            left c entry p.retention.reclaim_cursor (set_applied_in o db.active_bank false) p.write
            ∙ v)
  ]

  -- So the whole loop leaves it alone.
  pub pass_leaves :
      (db : GroupDb) (s : GroupState) (c : Reclamation)
      → IsLeft
      → (r : PartitionRetentionState) (write : WriteBatch) (q : Pass)
      → reclaim_from db s c r write ≡ ok q
      → f q.write ≡ f write
  unfolding reclaim_from
  pass_leaves db s c left r write q h =
      reclaim_rule db s c (λ x. f x.write ≡ f write) (turn_leaves db s c left write)
        (r.logical_floor - r.reclaim_cursor)
        (record { retention = r; examined = 0; reclaimed_bytes = 0; write = write }) q refl h
