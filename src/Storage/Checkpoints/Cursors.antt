-- ===== src/Storage/Checkpoints/Cursors.antt =====
-- A consumer's checkpoint moves forward within the committed records, one revision at a time.
use light_stream.Shared.{
  ℕ, ◌+◌, ◌≤◌, ◌<◌, ◌≡◌, ◌≢◌, ◌↔◌, refl, true, Option, some, none, arith, set_at,
}
use light_stream.Core.Error.{ok}
use light_stream.Core.Checkpoint.{CheckpointMutation, CommittedCheckpoint, advanced}
use light_stream.Storage.Keys.{ConsumerKey, consumer_key_eq}
use light_stream.Storage.Result.{ApplyResult, checkpoint}
use light_stream.Storage.State.{GroupDb, GroupState, unwrap_or}
use light_stream.Storage.Mutations.{store_mutation_result}
use light_stream.Storage.Checkpoints.{
  consumer_key, expectation_matches, advance_checkpoint, store_checkpoint_result, compare_and_set,
  apply_checkpoint_mutation,
}

-- No checkpoint is past the end of its partition.
abbrev pub IsCommitted : Option CommittedCheckpoint → ℕ → Type 0
IsCommitted none tail = Unit {0}
IsCommitted (some c) tail = c.cursor.next_offset ≤ tail

abbrev pub AreCommitted : GroupState → Type 0
AreCommitted s =
    (k : ConsumerKey) → IsCommitted (s.checkpoints k) (unwrap_or (s.next_offset k.partition) 0)

-- A checkpoint stays, is created with revision 1, or moves on by one revision without going back.
abbrev pub Advances : Option CommittedCheckpoint → Option CommittedCheckpoint → Type 0
Advances (some c) (some d) =
    (c.cursor.next_offset ≤ d.cursor.next_offset)
    × (c.revision ≤ d.revision)
    × (d.revision ≤ c.revision + 1)
Advances (some c) none = ⊥
Advances none (some d) = d.revision ≡ 1
Advances none none = Unit {0}

compare_and_set-AreCommitted :
    (db : GroupDb) (s : GroupState) (m : CheckpointMutation) (current : Option CommittedCheckpoint)
    (result : ApplyResult) (t : GroupState) (k : ConsumerKey)
    → s.checkpoints (consumer_key m.key) ≡ current
    → compare_and_set db s m current s ≡ ok (result, t)
    → IsCommitted (s.checkpoints k) (unwrap_or (s.next_offset k.partition) 0)
    → IsCommitted (t.checkpoints k) (unwrap_or (t.next_offset k.partition) 0)
      × Advances (s.checkpoints k) (t.checkpoints k)
unfolding compare_and_set store_checkpoint_result advance_checkpoint store_mutation_result
compare_and_set-AreCommitted db s m none result t k e h c = ground arith
compare_and_set-AreCommitted db s m (some current) result t k e h c = ground arith

Advances-refl : (c : Option CommittedCheckpoint) → Advances c c
Advances-refl none = tt
Advances-refl (some c) = omega arith

-- A checkpoint mutation that is applied, whatever it answers, leaves every checkpoint within the
-- committed records of its partition when all were so before, and every checkpoint of the group
-- stays, is created with revision 1, or moves to a cursor not before it, by at most one revision.
pub apply_checkpoint-AreCommitted :
    (db : GroupDb) (s : GroupState) (m : CheckpointMutation) (result : ApplyResult) (t : GroupState)
    → AreCommitted s
    → apply_checkpoint_mutation db s m s ≡ ok (result, t)
    → AreCommitted t × ((k : ConsumerKey) → Advances (s.checkpoints k) (t.checkpoints k))
apply_checkpoint-AreCommitted db s m result t c h = (λ k. (at k).0, λ k. (at k).1)
  where
    at :
        (k : ConsumerKey)
        → IsCommitted (t.checkpoints k) (unwrap_or (t.next_offset k.partition) 0)
          × Advances (s.checkpoints k) (t.checkpoints k)
    at k =
        unfold apply_checkpoint_mutation in
        ground (
          arith,
          c k,
          Advances-refl (s.checkpoints k),
          compare_and_set-AreCommitted db s m (s.checkpoints (consumer_key m.key)) result t k refl,
        )

abbrev pub NotBefore : Option CommittedCheckpoint → ℕ → Type 0
NotBefore none candidate = Unit {0}
NotBefore (some c) candidate =
    (c.cursor.next_offset ≤ candidate) × (c.revision < 18446744073709551615)

abbrev pub following : Option CommittedCheckpoint → ℕ
following none = 1
following (some c) = c.revision + 1

-- When the expectation holds and the candidate lies within the committed records.
abbrev pub MayAdvance : GroupState → CheckpointMutation → Option CommittedCheckpoint → Type 0
MayAdvance s m current =
    (expectation_matches m.expected current ≡ true)
    × (m.candidate.next_offset ≤ unwrap_or (s.next_offset m.key.partition) 0)
    × NotBefore current m.candidate.next_offset

-- The checkpoint of the candidate, one revision on.
abbrev pub candidate_checkpoint :
    CheckpointMutation → Option CommittedCheckpoint → CommittedCheckpoint
candidate_checkpoint m current = record {
  key = m.key;
  cursor = m.candidate;
  revision = following current;
}

abbrev candidate_state :
    GroupDb → GroupState → CheckpointMutation → Option CommittedCheckpoint → GroupState
candidate_state db s m current =
    let stored = candidate_checkpoint m current in
    store_mutation_result db s m.request (db.checkpoint_fingerprint m)
      (checkpoint (advanced m.request current stored))
      (record s { checkpoints = set_at s.checkpoints (consumer_key m.key) (some stored) })

-- The candidate is stored and answered, and the checkpoints of other consumers stay.
abbrev pub StoresCandidate :
    GroupDb → GroupState → CheckpointMutation → Option CommittedCheckpoint → Type 0
StoresCandidate db s m current =
    (t : GroupState) × (compare_and_set db s m current s
      ≡ ok (checkpoint (advanced m.request current (candidate_checkpoint m current)), t))
    × (t.checkpoints (consumer_key m.key) ≡ some (candidate_checkpoint m current))
    × ((k : ConsumerKey) → k ≢ consumer_key m.key → t.checkpoints k ≡ s.checkpoints k)

-- A mutation that is compared with the current checkpoint is answered by an advance from it to the
-- candidate, under the revision after the current one or 1, with the candidate stored for its consumer
-- and the checkpoints of the others left, exactly if the expectation holds, the candidate is neither
-- past the tail nor before the current position, and the revision has not reached its end.
pub compare_and_set_iff :
    (db : GroupDb) (s : GroupState) (m : CheckpointMutation) (current : Option CommittedCheckpoint)
    → StoresCandidate db s m current ↔ MayAdvance s m current
unfolding compare_and_set store_checkpoint_result advance_checkpoint store_mutation_result
compare_and_set_iff db s m none = (
  (λ (t, h, g, o). ground arith),
  λ h. (candidate_state db s m none, (ground arith), (ground arith), λ k n. ground arith),
)
compare_and_set_iff db s m (some c) = (
  (λ (t, h, g, o). ground arith),
  λ h. (candidate_state db s m (some c), (ground arith), (ground arith), λ k n. ground arith),
)
