-- ===== src/Examples/Fetches.antt =====
-- A partition with one record is read.
use light_stream.Shared.{
  ◌≤◌, ◌<◌, ◌≡◌, ◌⊎◌, inl, refl, some, none, [], ◌∷◌, arith, ℕ_discrete, ◌==◌, if◌then◌else◌,
}
use light_stream.Core.Error.{ok}
use light_stream.Core.Cursor.{FetchPage}
use light_stream.Storage.Keys.{record_key_eq}
use light_stream.Storage.State.{GroupDb, GroupState, StoredRecord, data_group}
use light_stream.Storage.Publish.Records.{record_key}
use light_stream.Storage.Floor.Kept.{tail_of, IsRetained}
use light_stream.Storage.Fetch.{Items, check_fetch, fetch}
use light_stream.Storage.Fetch.Pages.{IsBounded, HasPayloads, Yields, IsPage, fetch_page}
use light_stream.Examples.{group_db, partition_zero, entry_log, data_state}

abbrev db : GroupDb
db = group_db data_group

abbrev only : StoredRecord
only = record {
  payload_key = record { log = entry_log; slot = 0 };
  payload_bytes = 2;
  cumulative_end_bytes = 2;
}

abbrev one_record : GroupState
one_record = record data_state {
  next_offset = λ p. some 1;
  records = λ k. if k == record_key partition_zero 0 then some only else none;
  payloads = λ k. some (7 ∷ 8 ∷ []);
}

abbrev items : Items
items = (record_key partition_zero 0, only) ∷ []

one_record-IsRetained : IsRetained one_record partition_zero
one_record-IsRetained = record {
  cursor_le = omega arith;
  floor_le = omega arith;
  fits = omega arith;
  stored = λ offset a b. ground arith;
}

one_record-IsBounded : IsBounded one_record partition_zero
one_record-IsBounded offset h = ground arith

one_record-HasPayloads : HasPayloads one_record
one_record-HasPayloads k stored h = ground arith

items-Yields : Yields one_record partition_zero 0 items
items-Yields = inl (
  refl,
  omega arith,
  (ground arith),
  (λ offset a b. absurd (omega arith)),
  λ offset a. ground arith,
)

fetch_page_example :
    (page : FetchPage) × (fetch db one_record items 1 partition_zero 0 10 ≡ ok page)
    × IsPage one_record partition_zero 0 10 page
    × ((tail_of one_record partition_zero ≤ 0) ⊎ (0 < page.next_offset))
unfolding check_fetch ℕ_discrete
fetch_page_example =
    fetch_page db one_record items 1 partition_zero 0 10 refl (omega arith) one_record-IsRetained
      one_record-IsBounded one_record-HasPayloads items-Yields
