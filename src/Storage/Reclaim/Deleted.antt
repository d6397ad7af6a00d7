-- ===== src/Storage/Reclaim/Deleted.antt =====
-- crates/light-stream-storage/src/lib.rs, `apply_maintain_retention`: which records its loop deletes.
use light_stream.Shared.{
  ℕ, ◌≤◌, ◌<◌, ◌≡◌, refl, inl, inr, Bool, true, false, Option-cases, Option, none, some, List, [],
  ◌∷◌, ltb, leb, nat_eq, ◌==◌, ◌&&◌, ◌||◌, not, if◌then◌else◌, arith, u64_max,
}
use light_stream.Core.Identity.{partition_key_eq, RecordOffset}
use light_stream.Core.Error.{ok}
use light_stream.Core.Replay.{ReplayRange, contains}
use light_stream.Storage.Keys.{RecordKey, record_key_eq}
use light_stream.Storage.State.{GroupDb, GroupState, StoredRecord}
use light_stream.Storage.Publish.Records.{record_key}
use light_stream.Storage.Reclaim.{
  Reclamation, Pass, continued, find_range, drop_record, reclaim_owned, reclaim_record, reclaim_at,
  reclaim_turn, reclaim,
}
use light_stream.Storage.Reclaim.Progress.{turn-Proceeds, reclaim_rule}

-- Some range contains the offset.
abbrev pub is_covered : RecordOffset → List ReplayRange → Bool
is_covered offset [] = false
is_covered offset (r ∷ rs) = contains r offset || is_covered offset rs

pub find_range-none :
    (offset : ℕ) (rs : List ReplayRange)
    → find_range offset rs ≡ none
    → is_covered offset rs ≡ false
unfolding find_range
find_range-none offset [] h = refl
find_range-none offset (r ∷ rs) h = ground (arith, find_range-none offset rs)

pub covered_up_to :
    (offset later : ℕ) (rs : List ReplayRange) (r : ReplayRange)
    → find_range offset rs ≡ some r
    → offset ≤ later
    → later < r.end
    → is_covered later rs ≡ true
unfolding find_range contains
covered_up_to offset later [] r h a b = ground arith
covered_up_to offset later (x ∷ rs) r h a b = ground (arith, covered_up_to offset later rs r)

-- The records of the partition from one cursor to another that no range covers.
abbrev pub is_reclaimed : Reclamation → ℕ → ℕ → RecordKey → Bool
is_reclaimed c start end k =
    k.partition == c.partition
    && (leb start k.offset && (ltb k.offset end && not (is_covered k.offset c.active_ranges)))

abbrev pub without : Reclamation → ℕ → ℕ → RecordKey → Option StoredRecord → Option StoredRecord
without c start end k entry = if is_reclaimed c start end k then none else entry

module _ (db : GroupDb) (s : GroupState) (c : Reclamation) (k : RecordKey) where
  at_range :
      (p q : Pass) (r : ReplayRange)
      → p.retention.reclaim_cursor < p.retention.logical_floor
      → find_range p.retention.reclaim_cursor c.active_ranges ≡ some r
      → reclaim_at db s c (some r) p ≡ continued q
      → q.write.records k
        ≡ without c p.retention.reclaim_cursor q.retention.reclaim_cursor k (p.write.records k)
  at_range p q r lt e h =
      let upto = covered_up_to p.retention.reclaim_cursor k.offset c.active_ranges r e in
      unfold reclaim_at in ground (arith, upto)

  at_record :
      (p q : Pass)
      → p.retention.logical_floor ≤ u64_max
      → p.retention.reclaim_cursor < p.retention.logical_floor
      → find_range p.retention.reclaim_cursor c.active_ranges ≡ none
      → (leb p.retention.reclaim_cursor k.offset ≡ true → p.write.records k ≡ s.records k)
      → reclaim_at db s c none p ≡ continued q
      → q.write.records k
        ≡ without c p.retention.reclaim_cursor q.retention.reclaim_cursor k (p.write.records k)
  at_record p q w lt e same h =
      let bare = find_range-none p.retention.reclaim_cursor c.active_ranges e in
      elim (Option-cases (s.records (record_key c.partition p.retention.reclaim_cursor))) [
        | inl f ↦ unfold reclaim_at reclaim_record in ground arith
        | inr (entry, f) ↦ elim (Option-cases (s.payload_owners entry.payload_key)) [
          | inl g ↦ unfold reclaim_at reclaim_record in ground arith
          | inr (o, g) ↦ unfold reclaim_at reclaim_record reclaim_owned drop_record in ground arith
        ]
      ]

  turn_records :
      (p q : Pass)
      → p.retention.logical_floor ≤ u64_max
      → (leb p.retention.reclaim_cursor k.offset ≡ true → p.write.records k ≡ s.records k)
      → reclaim_turn db s c p ≡ continued q
      → q.write.records k
        ≡ without c p.retention.reclaim_cursor q.retention.reclaim_cursor k (p.write.records k)
  turn_records p q w same h =
      elim (Option-cases (find_range p.retention.reclaim_cursor c.active_ranges)) [
        | inl e ↦ unfold reclaim_turn in ground (arith, at_record p q w, same)
        | inr (r, e) ↦ unfold reclaim_turn in ground (arith, at_range p q r)
      ]

  -- What a pass that began with a cursor and a floor keeps to.
  abbrev Reclaims : ℕ → ℕ → Pass → Type 0
  Reclaims start floor p =
      (p.retention.logical_floor ≡ floor)
      × (start ≤ p.retention.reclaim_cursor)
      × (p.retention.reclaim_cursor ≤ floor)
      × (p.write.records k ≡ without c start p.retention.reclaim_cursor k (s.records k))

  turn-Reclaims :
      (start floor : ℕ) (p q : Pass)
      → floor ≤ u64_max
      → Reclaims start floor p
      → reclaim_turn db s c p ≡ continued q
      → Reclaims start floor q
  turn-Reclaims start floor p q w v h =
      let on = turn-Proceeds db s c p q (omega (arith, v)) h in
      let records = turn_records p q (omega (arith, v)) (λ e. ground arith) h in
      (omega (arith, on, v), omega (arith, on, v), omega (arith, on, v), ground arith)

  pub reclaim_records :
      (fuel : ℕ) (p q : Pass)
      → p.retention.logical_floor ≤ u64_max
      → p.retention.reclaim_cursor ≤ p.retention.logical_floor
      → p.write.records k ≡ s.records k
      → reclaim db s c fuel p ≡ ok q
      → Reclaims p.retention.reclaim_cursor p.retention.logical_floor q
  reclaim_records fuel p q w le same h =
      reclaim_rule db s c (Reclaims p.retention.reclaim_cursor p.retention.logical_floor)
        (λ a b v e. turn-Reclaims p.retention.reclaim_cursor p.retention.logical_floor a b w v e)
        fuel p q (refl, omega arith, le, ground arith) h
