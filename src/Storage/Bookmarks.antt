-- ===== src/Storage/Bookmarks.antt =====
-- crates/light-stream-storage/src/lib.rs: the commands on bookmarks of partitions and of streams.
pub mod Streams
pub mod Index
use light_stream.Shared.{
  ℕ, String, Bool, true, false, Option, some, none, nat_eq, string_eq, set_at, ltb, saturating_add,
  ◌==◌, ◌&&◌, not, if◌then◌else◌,
}
use light_stream.Core.Identity.{
  PartitionKey, partition_key_eq, BookmarkId, BookmarkName, RecordOffset,
}
use light_stream.Core.Error.{
  identity_mismatch, invalid_range, bookmark_not_found, bookmark_name_conflict, ok,
}
use light_stream.Core.Bookmark.{
  CommittedBookmark, published_bookmark, mark_deleted, deleted, bookmark_lifecycle_eq,
}
use light_stream.Storage.Keys.{
  BookmarkNameKey, bookmark_name_key_eq, BookmarkOrderKey, bookmark_order_key_eq,
}
use light_stream.Storage.Result.{ApplyResult, bookmark, rejected}
use light_stream.Storage.State.{
  GroupDb, GroupState, WriteBatch, Applied, control, data_group, unwrap_or,
}

-- The keys under which a bookmark is found by its name and in its order.
abbrev pub name_key_of : PartitionKey → BookmarkName → BookmarkNameKey
name_key_of partition name = record { partition = partition; name = name }

abbrev pub order_key_of : PartitionKey → ℕ → BookmarkOrderKey
order_key_of partition publication = record { partition = partition; publication = publication }

-- The publication after the stored one.
abbrev pub next_publication : GroupState → PartitionKey → ℕ
next_publication s partition = saturating_add (unwrap_or (s.bookmark_publications partition) 0) 1

-- The puts of a new bookmark.
unfoldable pub put_new_bookmark : PartitionKey → CommittedBookmark → WriteBatch → WriteBatch
put_new_bookmark partition b write = record write {
  bookmark_ids = set_at write.bookmark_ids b.id (some b);
  bookmark_names = set_at write.bookmark_names (name_key_of partition b.name) (some b.id);
  bookmark_order = set_at write.bookmark_order (order_key_of partition b.publication) (some b);
  bookmark_publications = set_at write.bookmark_publications partition (some b.publication);
}

-- An identity that is taken: the same bookmark again, or a conflict.
unfoldable pub repeat_bookmark :
    CommittedBookmark → PartitionKey → BookmarkName → RecordOffset → ApplyResult
repeat_bookmark existing partition name offset =
    if existing.name == name
      && (existing.cursor.partition == partition && existing.cursor.next_offset == offset)
    then bookmark existing
    else rejected bookmark_name_conflict

-- An identity that is free.
unfoldable pub create_free :
    GroupDb
    → GroupState
    → BookmarkId
    → PartitionKey
    → BookmarkName
    → RecordOffset
    → WriteBatch
    → Applied ApplyResult
create_free db s id partition name offset write =
    elim (s.bookmark_names (name_key_of partition name)) [
      | some other ↦ ok (rejected bookmark_name_conflict, write)
      | none ↦
          (let b =
              published_bookmark id name
                (record {
                  cluster = db.identity.cluster_id;
                  partition = partition;
                  next_offset = offset;
                })
                (next_publication s partition) in
            ok (bookmark b, put_new_bookmark partition b write))
    ]

-- From the guards on.
unfoldable pub create_within :
    GroupDb
    → GroupState
    → BookmarkId
    → PartitionKey
    → BookmarkName
    → RecordOffset
    → RecordOffset
    → WriteBatch
    → Applied ApplyResult
create_within db s id partition name offset maximum write =
    if ltb maximum offset
    then ok (rejected (invalid_range (db.past_tail_message offset maximum)), write)
    else elim (s.bookmark_ids id) [
      | some existing ↦ ok (repeat_bookmark existing partition name offset, write)
      | none ↦ create_free db s id partition name offset write
    ]

unfoldable pub create_bookmark_record :
    GroupDb
    → GroupState
    → BookmarkId
    → PartitionKey
    → BookmarkName
    → RecordOffset
    → RecordOffset
    → WriteBatch
    → Applied ApplyResult
create_bookmark_record db s id partition name offset maximum write = elim db.identity.kind [
  | control ↦ ok (rejected (identity_mismatch "bookmark command reached the control group"), write)
  | data_group ↦ create_within db s id partition name offset maximum write
]

unfoldable pub apply_create_bookmark :
    GroupDb
    → GroupState
    → BookmarkId
    → PartitionKey
    → BookmarkName
    → RecordOffset
    → WriteBatch
    → Applied ApplyResult
apply_create_bookmark db s id partition name offset write =
    create_bookmark_record db s id partition name offset (unwrap_or (s.next_offset partition) 0)
      write

-- The deletes and the put of a bookmark that goes.
unfoldable pub drop_bookmark :
    PartitionKey → BookmarkId → CommittedBookmark → WriteBatch → WriteBatch
drop_bookmark partition id b write = record write {
  bookmark_names = set_at write.bookmark_names (name_key_of partition b.name) none;
  bookmark_order = set_at write.bookmark_order (order_key_of partition b.publication) none;
  bookmark_ids = set_at write.bookmark_ids id (some (mark_deleted b));
}

unfoldable pub apply_delete_bookmark :
    GroupState → PartitionKey → BookmarkId → WriteBatch → Applied ApplyResult
apply_delete_bookmark s partition id write = elim (s.bookmark_ids id) [
  | none ↦ ok (rejected bookmark_not_found, write)
  | some b ↦
      if not (b.cursor.partition == partition)
      then ok (rejected (identity_mismatch "bookmark belongs to another partition"), write)
      else if b.lifecycle == deleted
      then ok (bookmark b, write)
      else ok (bookmark (mark_deleted b), drop_bookmark partition id b write)
]
