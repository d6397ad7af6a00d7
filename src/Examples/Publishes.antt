-- ===== src/Examples/Publishes.antt =====
-- Publishes to the data group.
use light_stream.Shared.{
  true, false, ◌⊎◌, ℕ_discrete, some, none, [], ◌∷◌, refl, ◌≡◌, ◌<◌, String-discrete, arith, inr,
}
use light_stream.Core.Identity.{
  PartitionKey-discrete, ProducerRequestId-discrete, ProducerRequestId,
}
use light_stream.Core.Error.{export_in_progress, bookmark_name_conflict, ok, err}
use light_stream.Core.Cursor.{committed_range, offset_checked_add}
use light_stream.Core.Publish.{PublishBatch, PublishReceipt, payload_bytes, ReplicatedPublishBatch}
use light_stream.Storage.Keys.{ReceiptKey-discrete, ProducerSessionKey-discrete}
use light_stream.Storage.State.{data_group, GroupState, Applied, WriteBatch}
use light_stream.Storage.Sessions.{advance_window, is_expired}
use light_stream.Core.Identity.{definite_no_commit}
use light_stream.Storage.Publish.Replay.{replay_one, stored_session}
use light_stream.Storage.Publish.Replay.Agrees.{replay-apply_one}
use light_stream.Storage.Publish.{
  receipt_key, PublishApplyTxn, publish_txn, prior_outcome, session, store_outcome, drop_outcome,
  advance_session, bookmark_of_name,
}
use light_stream.Storage.Publish.Records.{write_record, write_records, record_key}
use light_stream.Storage.Publish.Records.Written.{stored_record}
use light_stream.Storage.Publish.Apply.{
  Published, apply_one, publish_new, publish_named, publish_offset, publish_range, publish_bookmark,
  publish_records, commit_records, reject, publish_each, apply_publish_many, finish,
  read_next_offset, read_retention, added_payload_bytes,
}
use light_stream.Storage.Result.{ApplyResult, PublishManyResult, published_many}
use light_stream.Storage.Publish.Apply.Offsets.{
  byte_position, stored_offset, stored_position, IsUntouched,
}
use light_stream.Storage.Publish.Apply.Contiguous.{AreContiguous, apply_publish_many-AreContiguous}
use light_stream.Storage.Publish.Apply.Summed.{AreSummed, apply_publish_many-AreSummed}
use light_stream.Storage.Publish.Apply.Again.{apply_one_again}
use light_stream.Storage.Publish.Apply.Appends.{
  IsNew, apply_one_offsets, apply_one_stores, apply_one_others, apply_one_rejects,
}
use light_stream.Examples.{group_db, partition_zero, entry_log, data_state}

abbrev first_request : ProducerRequestId
first_request = record { principal = "producer"; session = 1; sequence = 1 }

abbrev first_batch : PublishBatch
first_batch = record {
  cluster = 1;
  partition = partition_zero;
  request = first_request;
  records = (1 ∷ 2 ∷ []) ∷ (3 ∷ []) ∷ [];
  bookmark = none;
}

abbrev first_receipt : PublishReceipt
first_receipt = record {
  request = first_request;
  range = record { partition = partition_zero; first = 0; count = 2 };
  bookmark = none;
}

abbrev before : PublishApplyTxn
before = publish_txn entry_log data_state

abbrev published : Published
published = apply_one (group_db data_group) data_state before 0 0 first_batch

abbrev txn_of : Published → PublishApplyTxn
txn_of (ok (result, txn)) = txn
txn_of (err e) = before

abbrev after : PublishApplyTxn
after = txn_of published

published_run : published ≡ ok (ok first_receipt, after)
unfolding apply_one prior_outcome session publish_new publish_named publish_offset publish_range
    publish_bookmark publish_records commit_records committed_range offset_checked_add
    added_payload_bytes write_records write_record read_next_offset read_retention is_expired
    ℕ_discrete
published_run = refl

first-IsNew : IsNew (group_db data_group) data_state before first_batch
unfolding prior_outcome
first-IsNew = refl

apply_one_offsets_example :
    (first_request ≡ first_batch.request)
    × (first_receipt.range ≡ record {
      partition = partition_zero;
      first = read_next_offset data_state before partition_zero;
      count = 2;
    })
    × (0 < 2)
    × (read_next_offset data_state after partition_zero ≡ 2)
    × (byte_position data_state after partition_zero ≡ 3)
    × (stored_offset after partition_zero ≡ 2)
    × (stored_position after partition_zero ≡ 3)
unfolding ℕ_discrete read_next_offset read_retention payload_bytes PartitionKey-discrete
apply_one_offsets_example =
    apply_one_offsets (group_db data_group) data_state before after 0 0 first_batch first_receipt
      partition_zero published_run first-IsNew

apply_one_stores_example :
    (after.write.records (record_key partition_zero 1)
      ≡ some (stored_record entry_log 1 (3 ∷ []) 3))
    × (stored_position after partition_zero ≡ 3)
unfolding read_next_offset read_retention payload_bytes
apply_one_stores_example =
    apply_one_stores (group_db data_group) data_state before after 0 0 first_batch first_receipt 1
      (3 ∷ []) published_run first-IsNew refl

apply_one_others_example : after.write.records (record_key partition_zero 9) ≡ none
apply_one_others_example =
    apply_one_others (group_db data_group) data_state before after 0 0 first_batch first_receipt
      (record_key partition_zero 9) published_run first-IsNew (inr (inr (omega arith)))

-- A state in which every bookmark name is used.
abbrev named_state : GroupState
named_state = record data_state { bookmark_names = λ k. some 9 }

abbrev named_batch : PublishBatch
named_batch = record first_batch { bookmark = some "daily" }

abbrev refused : Published
refused = apply_one (group_db data_group) named_state before 0 0 named_batch

refused_run : refused ≡ ok (err bookmark_name_conflict, txn_of refused)
unfolding apply_one prior_outcome session publish_new publish_named bookmark_of_name reject
    is_expired ℕ_discrete
refused_run = refl

apply_one_rejects_example : IsUntouched named_state before (txn_of refused) partition_zero
apply_one_rejects_example =
    apply_one_rejects (group_db data_group) named_state before (txn_of refused) 0 0 named_batch
      bookmark_name_conflict partition_zero refused_run

apply_one_again_example :
    (apply_one (group_db data_group) data_state after 3 7 first_batch
      ≡ ok (ok first_receipt, after))
    × ((later : GroupState) (other : PublishApplyTxn)
        → later.receipts (receipt_key partition_zero first_request)
          ≡ after.write.receipts (receipt_key partition_zero first_request)
        → other.outcomes (receipt_key partition_zero first_request) ≡ none
        → apply_one (group_db data_group) later other 3 7 first_batch
          ≡ ok (ok first_receipt, other))
unfolding session is_expired
apply_one_again_example =
    apply_one_again (group_db data_group) data_state before after 0 0 3 7 first_batch
      (ok first_receipt) (omega arith) (record { rising = tt; bounded = refl; fits = omega arith })
      refl refl first-IsNew published_run

abbrev second_batch : PublishBatch
second_batch = record first_batch {
  request = record { principal = "producer"; session = 2; sequence = 1 };
}

abbrev entry : ReplicatedPublishBatch
entry = record { requests = first_batch ∷ second_batch ∷ [] }

abbrev applied : Applied ApplyResult
applied = apply_publish_many (group_db data_group) data_state entry_log entry data_state

abbrev outcomes_of : Applied ApplyResult → PublishManyResult
outcomes_of (ok (published_many m, write)) = m
outcomes_of _ = record { outcomes = [] }

abbrev write_of : Applied ApplyResult → WriteBatch
write_of (ok (result, write)) = write
write_of (err e) = data_state

applied_run : applied ≡ ok (published_many (outcomes_of applied), write_of applied)
unfolding apply_publish_many publish_each finish store_outcome advance_session drop_outcome
    advance_window PartitionKey-discrete ProducerRequestId-discrete ReceiptKey-discrete
    String-discrete ProducerSessionKey-discrete apply_one prior_outcome session publish_new
    publish_named publish_offset publish_range publish_bookmark publish_records commit_records
    committed_range offset_checked_add added_payload_bytes write_records write_record
    read_next_offset read_retention is_expired ℕ_discrete
applied_run = refl

-- No record of any partition is stored yet.
no-AreContiguous : AreContiguous (λ q. 0) data_state
no-AreContiguous k = (ground arith, omega arith)

apply_publish_many-AreContiguous_example : AreContiguous (λ q. 0) (write_of applied)
apply_publish_many-AreContiguous_example =
    apply_publish_many-AreContiguous (group_db data_group) data_state (write_of applied) entry_log
      entry (published_many (outcomes_of applied)) (λ q. 0) no-AreContiguous applied_run

no-AreSummed : AreSummed data_state
no-AreSummed q = ((λ o a h. ground arith), λ o a b h k. ground arith)

apply_publish_many-AreSummed_example : AreSummed (write_of applied)
apply_publish_many-AreSummed_example =
    apply_publish_many-AreSummed (group_db data_group) data_state (write_of applied) entry_log entry
      (published_many (outcomes_of applied)) no-AreSummed applied_run

-- The state that the first publish leaves.
abbrev published_state : GroupState
published_state = after.write

replay-apply_one_example :
    (((replay_one (group_db data_group) published_state 4 first_batch).1 ≡ true)
      × ((t : PublishApplyTxn) × (apply_one
              (group_db data_group)
              published_state
              (publish_txn entry_log published_state)
              0
              0
              first_batch
            ≡ ok ((replay_one (group_db data_group) published_state 4 first_batch).0, t))
          × (t.write ≡ published_state)))
    ⊎ ((replay_one (group_db data_group) published_state 4 first_batch
          ≡ (err (export_in_progress 4 definite_no_commit), false))
        × (prior_outcome
              (group_db data_group)
              published_state
              (publish_txn entry_log published_state)
              first_batch
              (receipt_key first_batch.partition first_batch.request)
              "producer"
            ≡ none)
        × (is_expired (stored_session published_state first_batch).highest_sequence 1 ≡ false))
replay-apply_one_example =
    replay-apply_one (group_db data_group) published_state 4 entry_log published_state 0 0
      first_batch refl
