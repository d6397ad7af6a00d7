-- ===== src/Storage/Bookmarks/Streams.antt =====
-- crates/light-stream-storage/src/lib.rs: `apply_create_stream_bookmark` and
-- `apply_delete_stream_bookmark`.
use light_stream.Shared.{
  ℕ, Bool, some, none, List, [], ◌∷◌, nat_eq, string_eq, set_at, saturating_add, length, lookup,
  ◌==◌, ◌&&◌, not, if◌then◌else◌,
}
use light_stream.Shared.BTreeSet
use light_stream.Core.Identity.{StreamId, PartitionId, BookmarkId, BookmarkName}
use light_stream.Core.Error.{
  identity_mismatch, invalid_range, bookmark_not_found, bookmark_name_conflict, stream_not_found,
  stream_not_active, ok,
}
use light_stream.Core.Cursor.{CommittedCursor}
use light_stream.Core.Bookmark.{
  StreamCursorVector, equal_vectors, CommittedStreamBookmark, published_stream_bookmark,
  mark_stream_deleted, deleted, bookmark_lifecycle_eq,
}
use light_stream.Core.Catalog.{PartitionPlacement, StreamDescriptor, active, stream_lifecycle_eq}
use light_stream.Storage.Keys.{
  StreamBookmarkNameKey, stream_bookmark_name_key_eq, StreamBookmarkOrderKey,
  stream_bookmark_order_key_eq,
}
use light_stream.Storage.Result.{ApplyResult, stream_bookmark, rejected}
use light_stream.Storage.State.{
  GroupDb, GroupState, WriteBatch, Applied, control, data_group, unwrap_or,
}

abbrev pub stream_name_key_of : StreamId → BookmarkName → StreamBookmarkNameKey
stream_name_key_of stream name = record { stream = stream; name = name }

abbrev pub stream_order_key_of : StreamId → ℕ → StreamBookmarkOrderKey
stream_order_key_of stream publication = record { stream = stream; publication = publication }

-- The partitions of the placements, and those of the positions.
unfoldable pub placed_partitions : List PartitionPlacement → List PartitionId
placed_partitions [] = []
placed_partitions (p ∷ ps) = BTreeSet.insert p.partition (placed_partitions ps)

unfoldable pub cursor_partitions : List CommittedCursor → List PartitionId
cursor_partitions [] = []
cursor_partitions (c ∷ cs) = BTreeSet.insert c.partition.partition (cursor_partitions cs)

-- One position for every partition of the stream.
abbrev pub covers_stream : StreamDescriptor → StreamCursorVector → Bool
covers_stream stream vector =
    let actual = cursor_partitions vector.positions in
    BTreeSet.equal (placed_partitions stream.placements) actual
    && length actual == length vector.positions

-- The puts of a new bookmark.
unfoldable pub put_stream_bookmark : CommittedStreamBookmark → WriteBatch → WriteBatch
put_stream_bookmark b write = record write {
  stream_bookmark_ids = set_at write.stream_bookmark_ids b.id (some b);
  stream_bookmark_names =
      set_at write.stream_bookmark_names (stream_name_key_of b.vector.stream b.name) (some b.id);
  stream_bookmark_order =
      set_at write.stream_bookmark_order (stream_order_key_of b.vector.stream b.publication)
        (some b);
  stream_bookmark_publications =
      set_at write.stream_bookmark_publications b.vector.stream (some b.publication);
}

-- An identity that is free.
unfoldable pub create_stream_free :
    GroupState → BookmarkId → BookmarkName → StreamCursorVector → WriteBatch → Applied ApplyResult
create_stream_free s id name vector write =
    elim (s.stream_bookmark_names (stream_name_key_of vector.stream name)) [
      | some other ↦ ok (rejected bookmark_name_conflict, write)
      | none ↦
          (let publication =
              saturating_add (unwrap_or (s.stream_bookmark_publications vector.stream) 0) 1 in
            let b = published_stream_bookmark id name vector publication in
            ok (stream_bookmark b, put_stream_bookmark b write))
    ]

-- An active stream.
unfoldable pub create_on_stream :
    GroupState
    → BookmarkId
    → BookmarkName
    → StreamCursorVector
    → StreamDescriptor
    → WriteBatch
    → Applied ApplyResult
create_on_stream s id name vector stream write =
    if not (stream.lifecycle == active)
    then ok (rejected stream_not_active, write)
    else if not (covers_stream stream vector)
    then ok (
      rejected
          (invalid_range "stream bookmark must contain one position for every stream partition"),
      write,
    )
    else elim (s.stream_bookmark_ids id) [
      | some existing ↦
          if existing.name == name && equal_vectors existing.vector vector
          then ok (stream_bookmark existing, write)
          else ok (rejected bookmark_name_conflict, write)
      | none ↦ create_stream_free s id name vector write
    ]

unfoldable pub apply_create_stream_bookmark :
    GroupDb
    → GroupState
    → BookmarkId
    → BookmarkName
    → StreamCursorVector
    → WriteBatch
    → Applied ApplyResult
apply_create_stream_bookmark db s id name vector write = elim db.identity.kind [
  | data_group ↦ ok (rejected (identity_mismatch "stream bookmark reached a data group"), write)
  | control ↦
      if not (vector.cluster == db.identity.cluster_id)
      then ok (
        rejected (identity_mismatch "stream bookmark cluster does not match the control group"),
        write,
      )
      else elim (lookup vector.stream s.streams) [
        | none ↦ ok (rejected stream_not_found, write)
        | some stream ↦ create_on_stream s id name vector stream write
      ]
]

-- The deletes and the put of a bookmark that goes.
unfoldable pub drop_stream_bookmark :
    StreamId → BookmarkId → CommittedStreamBookmark → WriteBatch → WriteBatch
drop_stream_bookmark stream id b write = record write {
  stream_bookmark_names =
      set_at write.stream_bookmark_names (stream_name_key_of stream b.name) none;
  stream_bookmark_order =
      set_at write.stream_bookmark_order (stream_order_key_of stream b.publication) none;
  stream_bookmark_ids = set_at write.stream_bookmark_ids id (some (mark_stream_deleted b));
}

unfoldable pub apply_delete_stream_bookmark :
    GroupState → StreamId → BookmarkId → WriteBatch → Applied ApplyResult
apply_delete_stream_bookmark s stream id write = elim (s.stream_bookmark_ids id) [
  | none ↦ ok (rejected bookmark_not_found, write)
  | some b ↦
      if not (b.vector.stream == stream)
      then ok (rejected bookmark_not_found, write)
      else if b.lifecycle == deleted
      then ok (stream_bookmark b, write)
      else ok (stream_bookmark (mark_stream_deleted b), drop_stream_bookmark stream id b write)
]
