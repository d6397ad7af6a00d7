-- ===== src/Storage/Checkpoints/Retries.antt =====
-- A repeated checkpoint mutation.
use light_stream.Shared.{ℕ, ◌+◌, ◌<◌, ◌≡◌, refl, Option, some, none, arith, set_at}
use light_stream.Core.Error.{ok, checkpoint_ahead_of_tail, checkpoint_regression}
use light_stream.Core.Checkpoint.{CheckpointMutation, CommittedCheckpoint, conflict}
use light_stream.Storage.Keys.{consumer_key_eq}
use light_stream.Storage.Result.{ApplyResult, checkpoint, rejected}
use light_stream.Storage.State.{GroupDb, GroupState, unwrap_or}
use light_stream.Storage.Sessions.Window.{IsWindow}
use light_stream.Storage.Mutations.{mutation_session, prior_mutation_result, store_mutation_result}
use light_stream.Storage.Mutations.Replay.{prior-store}
use light_stream.Storage.Checkpoints.{
  consumer_key, advance_checkpoint, store_checkpoint_result, compare_and_set,
  apply_checkpoint_mutation,
}

store-bootstrap :
    (db : GroupDb) (s w : GroupState) (m : CheckpointMutation) (r : ApplyResult)
    → (store_mutation_result db s m.request (db.checkpoint_fingerprint m) r w).bootstrap
      ≡ w.bootstrap
unfolding store_mutation_result
store-bootstrap db s w m r = refl

module _ (db : GroupDb) (s : GroupState) (m : CheckpointMutation) (p : 0 < db.receipt_window)
    (w : IsWindow db.receipt_window (mutation_session s m.request)) where
  -- The batch with the checkpoint under a revision.
  abbrev with_revision : ℕ → GroupState
  with_revision rev = record s {
    checkpoints =
        set_at s.checkpoints (consumer_key m.key)
          (some (record { key = m.key; cursor = m.candidate; revision = rev }));
  }

  -- The receipt answers the repeated request, whatever the batch holds beside it.
  answered :
      (r : ApplyResult) (write : GroupState)
      → prior_mutation_result s m.request (db.checkpoint_fingerprint m) ≡ none
      → prior_mutation_result
          (store_mutation_result db s m.request (db.checkpoint_fingerprint m) r write)
          m.request
          (db.checkpoint_fingerprint m)
        ≡ some r
  answered r write n = ground (
    arith,
    prior-store db s m.request (db.checkpoint_fingerprint m) (db.checkpoint_fingerprint m) r write p
        w n,
  )

  abbrev IsStored : ApplyResult → GroupState → Type 0
  IsStored r t =
      (prior_mutation_result t m.request (db.checkpoint_fingerprint m) ≡ some r)
      × (t.bootstrap ≡ s.bootstrap)

  result-IsStored :
      (result r : ApplyResult) (t : GroupState)
      → prior_mutation_result s m.request (db.checkpoint_fingerprint m) ≡ none
      → store_checkpoint_result db s m result s ≡ ok (r, t)
      → IsStored r t
  unfolding store_checkpoint_result
  result-IsStored result r t n h =
      ground (arith, answered result s n, store-bootstrap db s s m result)

  advance-IsStored :
      (current : Option CommittedCheckpoint) (revision : ℕ) (r : ApplyResult) (t : GroupState)
      → prior_mutation_result s m.request (db.checkpoint_fingerprint m) ≡ none
      → advance_checkpoint db s m current revision s ≡ ok (r, t)
      → IsStored r t
  unfolding advance_checkpoint
  advance-IsStored current revision r t n h = ground (
    arith,
    answered r (with_revision revision) n,
    store-bootstrap db s (with_revision revision) m r,
  )

  compare_and_set-IsStored :
      (current : Option CommittedCheckpoint) (r : ApplyResult) (t : GroupState)
      → prior_mutation_result s m.request (db.checkpoint_fingerprint m) ≡ none
      → compare_and_set db s m current s ≡ ok (r, t)
      → IsStored r t
  unfolding compare_and_set
  compare_and_set-IsStored none r t n h =
      let tail = unwrap_or (s.next_offset m.key.partition) 0 in
      let candidate = m.candidate.next_offset in
      ground (
        arith,
        result-IsStored (checkpoint (conflict m.request none)) r t n,
        result-IsStored (rejected (checkpoint_ahead_of_tail candidate tail)) r t n,
        advance-IsStored none 1 r t n,
      )
  compare_and_set-IsStored (some c) r t n h =
      let tail = unwrap_or (s.next_offset m.key.partition) 0 in
      let candidate = m.candidate.next_offset in
      ground (
        arith,
        result-IsStored (checkpoint (conflict m.request (some c))) r t n,
        result-IsStored (rejected (checkpoint_ahead_of_tail candidate tail)) r t n,
        result-IsStored (rejected (checkpoint_regression c.cursor.next_offset candidate)) r t n,
        advance-IsStored (some c) (c.revision + 1) r t n,
      )

  -- A checkpoint mutation that was applied, with any answer, gives the same answer when it is
  -- applied again to the state that it left, and changes nothing more: if the receipt window is not
  -- empty and the session of the request is well formed.
  pub apply_checkpoint_again :
      (r : ApplyResult) (t : GroupState)
      → apply_checkpoint_mutation db s m s ≡ ok (r, t)
      → apply_checkpoint_mutation db t m t ≡ ok (r, t)
  unfolding apply_checkpoint_mutation
  apply_checkpoint_again r t h =
      ground (arith, compare_and_set-IsStored (s.checkpoints (consumer_key m.key)) r t)
