-- ===== src/Storage/Reclaim/Progress.antt =====
-- crates/light-stream-storage/src/lib.rs, `apply_maintain_retention`: the loop over a partition ends.
use light_stream.Shared.{
  ℕ, zero, suc, ◌+◌, ◌-◌, ◌≤◌, ◌<◌, ◌≡◌, refl, ◌⊎◌, inl, inr, String, true, Option-cases, none,
  some, List, [], ◌∷◌, arith, u64_max, sym, subst, ◌∙◌,
}
use light_stream.Core.Error.{Result, ok, err}
use light_stream.Core.Replay.{ReplayRange, contains}
use light_stream.Storage.State.{GroupDb, GroupState, WriteBatch}
use light_stream.Storage.Retention.{PartitionRetentionState}
use light_stream.Storage.Publish.Records.{record_key}
use light_stream.Storage.Reclaim.{
  Reclamation, Pass, Turn, stopped, continued, failed, find_range, reclaim_owned, reclaim_record,
  reclaim_at, reclaim_turn, go_on, reclaim, reclaim_from,
}

pub Turn-cases :
    (t : Turn)
    → (t ≡ stopped) ⊎ (((q : Pass) × (t ≡ continued q)) ⊎ ((e : String) × (t ≡ failed e)))
Turn-cases stopped = inl refl
Turn-cases (continued q) = inr (inl (q, refl))
Turn-cases (failed e) = inr (inr (e, refl))

pub find_range-contains :
    (offset : ℕ) (rs : List ReplayRange) (r : ReplayRange)
    → find_range offset rs ≡ some r
    → contains r offset ≡ true
unfolding find_range
find_range-contains offset [] r h = ground arith
find_range-contains offset (x ∷ rs) r h = ground (arith, find_range-contains offset rs r)

-- What a turn that goes on does to the cursor.
abbrev pub Proceeds : Pass → Pass → Type 0
Proceeds p q =
    (q.retention.logical_floor ≡ p.retention.logical_floor)
    × (p.retention.reclaim_cursor < q.retention.reclaim_cursor)
    × (q.retention.reclaim_cursor ≤ p.retention.logical_floor)

record-Proceeds :
    (db : GroupDb) (s : GroupState) (c : Reclamation) (p q : Pass)
    → p.retention.logical_floor ≤ u64_max
    → p.retention.reclaim_cursor < p.retention.logical_floor
    → reclaim_at db s c none p ≡ continued q
    → Proceeds p q
record-Proceeds db s c p q w lt h =
    elim (Option-cases (s.records (record_key c.partition p.retention.reclaim_cursor))) [
      | inl e ↦ unfold reclaim_at reclaim_record in ground arith
      | inr (entry, e) ↦ elim (Option-cases (s.payload_owners entry.payload_key)) [
        | inl f ↦ unfold reclaim_at reclaim_record in ground arith
        | inr (o, f) ↦ unfold reclaim_at reclaim_record reclaim_owned in ground arith
      ]
    ]

pub turn-Proceeds :
    (db : GroupDb) (s : GroupState) (c : Reclamation) (p q : Pass)
    → p.retention.logical_floor ≤ u64_max
    → reclaim_turn db s c p ≡ continued q
    → Proceeds p q
turn-Proceeds db s c p q w h =
    elim (Option-cases (find_range p.retention.reclaim_cursor c.active_ranges)) [
      | inl e ↦ unfold reclaim_turn in ground (arith, record-Proceeds db s c p q)
      | inr (r, e) ↦
          let inside = find_range-contains p.retention.reclaim_cursor c.active_ranges r e in
          unfold reclaim_turn reclaim_at contains in ground arith
    ]

turn_fails :
    (db : GroupDb) (s : GroupState) (c : Reclamation) (p : Pass) (e : String)
    → reclaim_turn db s c p ≡ failed e
    → e ≡ "retained record payload is missing ownership"
unfolding reclaim_turn reclaim_at reclaim_record
turn_fails db s c p e h = ground arith

module _ (db : GroupDb) (s : GroupState) (c : Reclamation) where
  reclaim_stopped :
      (fuel : ℕ) (p : Pass) → reclaim_turn db s c p ≡ stopped → reclaim db s c (suc fuel) p ≡ ok p
  unfolding reclaim go_on
  reclaim_stopped fuel p e = ground arith

  reclaim_continued :
      (fuel : ℕ) (p q : Pass)
      → reclaim_turn db s c p ≡ continued q
      → reclaim db s c (suc fuel) p ≡ reclaim db s c fuel q
  unfolding reclaim go_on
  reclaim_continued fuel p q e = ground arith

  reclaim_failed :
      (fuel : ℕ) (p : Pass) (m : String)
      → reclaim_turn db s c p ≡ failed m
      → reclaim db s c (suc fuel) p ≡ err m
  unfolding reclaim go_on
  reclaim_failed fuel p m e = ground arith

  reclaim-zero : (p : Pass) → reclaim db s c zero p ≡ ok p
  unfolding reclaim
  reclaim-zero p = refl

  -- What holds at the start and is kept by each turn holds at the end.
  pub reclaim_rule {ℓ} :
      (P : Pass → Type ℓ)
      → ((p q : Pass) → P p → reclaim_turn db s c p ≡ continued q → P q)
      → (fuel : ℕ) (p q : Pass) → P p
      → reclaim db s c fuel p ≡ ok q
      → P q
  reclaim_rule P step zero p q v h =
      let same : p ≡ q = ground (arith, reclaim-zero p) in subst P same v
  reclaim_rule P step (suc fuel) p q v h = elim (Turn-cases (reclaim_turn db s c p)) [
    | inl e ↦ let same : p ≡ q = ground (arith, reclaim_stopped fuel p e) in subst P same v
    | inr (inl (r, e)) ↦
        reclaim_rule P step fuel r q (step p r v e) (sym (reclaim_continued fuel p r e) ∙ h)
    | inr (inr (m, e)) ↦ ground (arith, reclaim_failed fuel p m e)
  ]

  stopped_at_floor :
      (p : Pass)
      → p.retention.logical_floor ≤ p.retention.reclaim_cursor
      → reclaim_turn db s c p ≡ stopped
  unfolding reclaim_turn
  stopped_at_floor p h = ground arith

  -- How the loop may end: at a pass where its test or its limit of bytes stops it, or with the error.
  abbrev pub Ends : Result String Pass → Type 0
  Ends r =
      (r ≡ err "retained record payload is missing ownership")
      ⊎ ((q : Pass) × (r ≡ ok q) × (reclaim_turn db s c q ≡ stopped))

  pub reclaim-Ends :
      (fuel : ℕ) (p : Pass)
      → p.retention.logical_floor ≤ u64_max
      → p.retention.logical_floor ≤ p.retention.reclaim_cursor + fuel
      → Ends (reclaim db s c fuel p)
  reclaim-Ends zero p w h = inr (p, reclaim-zero p, stopped_at_floor p (omega arith))
  reclaim-Ends (suc fuel) p w h = elim (Turn-cases (reclaim_turn db s c p)) [
    | inl e ↦ inr (p, reclaim_stopped fuel p e, e)
    | inr (inl (r, e)) ↦
        let on = turn-Proceeds db s c p r w e in
        subst Ends (sym (reclaim_continued fuel p r e))
          (reclaim-Ends fuel r (omega (arith, on)) (omega (arith, on)))
    | inr (inr (m, e)) ↦ inl (ground (arith, reclaim_failed fuel p m e, turn_fails db s c p m e))
  ]

  pub reclaim_enough :
      (a b : ℕ) (p : Pass)
      → p.retention.logical_floor ≤ u64_max
      → p.retention.logical_floor ≤ p.retention.reclaim_cursor + a
      → p.retention.logical_floor ≤ p.retention.reclaim_cursor + b
      → reclaim db s c a p ≡ reclaim db s c b p
  reclaim_enough zero zero p w h k = refl
  reclaim_enough zero (suc b) p w h k =
      reclaim-zero p ∙ sym (reclaim_stopped b p (stopped_at_floor p (omega arith)))
  reclaim_enough (suc a) zero p w h k =
      reclaim_stopped a p (stopped_at_floor p (omega arith)) ∙ sym (reclaim-zero p)
  reclaim_enough (suc a) (suc b) p w h k = elim (Turn-cases (reclaim_turn db s c p)) [
    | inl e ↦ reclaim_stopped a p e ∙ sym (reclaim_stopped b p e)
    | inr (inl (r, e)) ↦
        let on = turn-Proceeds db s c p r w e in
        reclaim_continued a p r e
        ∙ (reclaim_enough a b r (omega (arith, on)) (omega (arith, on)) (omega (arith, on))
            ∙ sym (reclaim_continued b p r e))
    | inr (inr (m, e)) ↦ reclaim_failed a p m e ∙ sym (reclaim_failed b p m e)
  ]

-- The fuel that the command gives its loop is enough: with any more of it the result is the same, and
-- the loop ends either at a pass at which its test or its limit of bytes stops it, or with the error
-- that a retained record's payload is missing its ownership, when the floor is a u64.
pub reclaim_from-Ends :
    (db : GroupDb) (s : GroupState) (c : Reclamation) (retention : PartitionRetentionState)
    (write : WriteBatch) (fuel : ℕ)
    → retention.logical_floor ≤ u64_max
    → retention.logical_floor - retention.reclaim_cursor ≤ fuel
    → (reclaim db s c fuel
          (record { retention = retention; examined = 0; reclaimed_bytes = 0; write = write })
        ≡ reclaim_from db s c retention write)
      × Ends db s c (reclaim_from db s c retention write)
unfolding reclaim_from
reclaim_from-Ends db s c retention write fuel w h =
    let start : Pass = record {
      retention = retention;
      examined = 0;
      reclaimed_bytes = 0;
      write = write;
    } in
    (
      reclaim_enough db s c fuel (retention.logical_floor - retention.reclaim_cursor) start w
          (omega arith) (omega arith),
      reclaim-Ends db s c (retention.logical_floor - retention.reclaim_cursor) start w
          (omega arith),
    )
