-- ===== src/Examples/Mutations.antt =====
-- Checkpoint mutations and their receipts.
use light_stream.Shared.{◌≡◌, ◌↔◌, refl, arith, some, none, [], ◌∷◌, ℕ_discrete}
use light_stream.Core.Error.{ok, err}
use light_stream.Core.Checkpoint.{CheckpointKey, CheckpointMutation, missing, checked_next}
use light_stream.Storage.Keys.{ConsumerKey}
use light_stream.Storage.Result.{ApplyResult, noop}
use light_stream.Storage.State.{GroupDb, GroupState, SessionState, Applied, data_group}
use light_stream.Storage.Sessions.{advance_window, is_expired}
use light_stream.Storage.Sessions.Window.{IsWindow, advance_window-IsWindow}
use light_stream.Storage.Mutations.{
  prior_mutation_result, store_mutation_result, put_mutation_receipt, drop_mutation_receipt,
}
use light_stream.Storage.Checkpoints.{
  apply_checkpoint_mutation, checkpoint_bootstrapped, compare_and_set, expectation_matches,
  next_revision, advance_checkpoint,
}
use light_stream.Storage.Checkpoints.Cursors.{
  AreCommitted, Advances, MayAdvance, StoresCandidate, apply_checkpoint-AreCommitted,
  compare_and_set_iff,
}
use light_stream.Storage.Checkpoints.Retries.{apply_checkpoint_again}
use light_stream.Examples.{group_db, partition_zero, mutation_one, data_state}

abbrev db : GroupDb
db = group_db data_group

abbrev tail_state : GroupState
tail_state = record data_state { next_offset = λ k. some 10 }

abbrev key : CheckpointKey
key = record { cluster = 1; partition = partition_zero; consumer = "billing" }

abbrev mutation : CheckpointMutation
mutation = record {
  request = mutation_one;
  key = key;
  expected = missing;
  candidate = record { cluster = 1; partition = partition_zero; next_offset = 4 };
}

abbrev applied : Applied ApplyResult
applied = apply_checkpoint_mutation db tail_state mutation tail_state

abbrev result_of : Applied ApplyResult → ApplyResult
result_of (ok (result, write)) = result
result_of (err e) = noop

abbrev state_of : Applied ApplyResult → GroupState
state_of (ok (result, write)) = write
state_of (err e) = tail_state

applied_run : applied ≡ ok (result_of applied, state_of applied)
unfolding apply_checkpoint_mutation checkpoint_bootstrapped compare_and_set expectation_matches
    next_revision checked_next advance_checkpoint store_mutation_result put_mutation_receipt
    drop_mutation_receipt prior_mutation_result is_expired advance_window ℕ_discrete
applied_run = refl

no-IsWindow : IsWindow 2 (record { highest_sequence = none; retained_sequences = [] })
no-IsWindow = record { rising = tt; bounded = refl; fits = omega arith }

apply_checkpoint-AreCommitted_example :
    AreCommitted (state_of applied)
    × ((k : ConsumerKey) → Advances (tail_state.checkpoints k) ((state_of applied).checkpoints k))
apply_checkpoint-AreCommitted_example =
    apply_checkpoint-AreCommitted db tail_state mutation (result_of applied) (state_of applied)
      (λ k. tt) applied_run

compare_and_set_iff_example :
    StoresCandidate db tail_state mutation none ↔ MayAdvance tail_state mutation none
compare_and_set_iff_example = compare_and_set_iff db tail_state mutation none

apply_checkpoint_again_example :
    apply_checkpoint_mutation db (state_of applied) mutation (state_of applied)
    ≡ ok (result_of applied, state_of applied)
apply_checkpoint_again_example =
    apply_checkpoint_again db tail_state mutation (omega arith) no-IsWindow (result_of applied)
      (state_of applied) applied_run

abbrev full_session : SessionState
full_session = record { highest_sequence = some 7; retained_sequences = 4 ∷ 7 ∷ [] }

advance_window-IsWindow_example :
    IsWindow 2 (record { highest_sequence = some 9; retained_sequences = 7 ∷ 9 ∷ [] })
unfolding advance_window is_expired
advance_window-IsWindow_example =
    advance_window-IsWindow 2 full_session 9
      (record {
        rising = (omega arith, tt);
        bounded = (omega arith, (omega arith, tt));
        fits = omega arith;
      })
      refl
