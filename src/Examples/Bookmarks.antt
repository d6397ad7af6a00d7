-- ===== src/Examples/Bookmarks.antt =====
-- A bookmark of a partition.
use light_stream.Shared.{◌≡◌, refl, some, arith}
use light_stream.Core.Error.{ok, err}
use light_stream.Storage.Result.{ApplyResult, noop}
use light_stream.Storage.State.{GroupDb, GroupState, Applied, data_group}
use light_stream.Storage.Bookmarks.{
  put_new_bookmark, create_free, create_within, create_bookmark_record, apply_create_bookmark,
}
use light_stream.Storage.Bookmarks.Index.{
  IsMarked, create_bookmark, run_bookmark_command, bookmark_command-IsMarked,
}
use light_stream.Examples.{group_db, partition_zero, data_state}

abbrev db : GroupDb
db = group_db data_group

abbrev ten_records : GroupState
ten_records = record data_state { next_offset = λ k. some 10 }

ten_records-IsMarked : IsMarked ten_records
ten_records-IsMarked = record {
  identified = λ id b h. ground arith;
  named = λ id b h l. ground arith;
  ordered = λ id b h l. ground arith;
  live = λ k id h. ground arith;
  in_place = λ k b h. ground arith;
  published = λ id b h. ground arith;
}

abbrev marked : Applied ApplyResult
marked = run_bookmark_command db ten_records (create_bookmark 9 partition_zero "start" 4)

abbrev result_of : Applied ApplyResult → ApplyResult
result_of (ok (result, write)) = result
result_of (err e) = noop

abbrev state_of : Applied ApplyResult → GroupState
state_of (ok (result, write)) = write
state_of (err e) = ten_records

marked_run : marked ≡ ok (result_of marked, state_of marked)
unfolding apply_create_bookmark create_bookmark_record create_within create_free put_new_bookmark
marked_run = refl

bookmark_command-IsMarked_example : IsMarked (state_of marked)
bookmark_command-IsMarked_example =
    bookmark_command-IsMarked db ten_records (create_bookmark 9 partition_zero "start" 4)
      (result_of marked) (state_of marked) (λ p. omega arith) ten_records-IsMarked marked_run
