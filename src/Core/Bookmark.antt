-- ===== src/Core/Bookmark.antt =====
-- crates/light-stream-core/src/bookmark.rs: the bookmarks of partitions and of streams.
use light_stream.Shared.{
  ℕ, Eq, ℕ_discrete, nat_eq, List, [], ◌∷◌, Bool, true, false, ◌==◌, ◌&&◌, not, if◌then◌else◌,
}
use light_stream.Shared.BTreeSet
use light_stream.Core.Error.{DomainError, invalid_range, Result, ok, err}
use light_stream.Core.Identity.{
  ClusterId, StreamId, PartitionKey-discrete, BookmarkId, BookmarkName,
}
use light_stream.Core.Cursor.{CommittedCursor}

pub data BookmarkLifecycle : Type 0 where
  available deleted : BookmarkLifecycle

unfoldable pub BookmarkLifecycle-discrete : Discrete BookmarkLifecycle
BookmarkLifecycle-discrete = hlevel

instance abbrev pub bookmark_lifecycle_eq : Eq BookmarkLifecycle
bookmark_lifecycle_eq = record { decide_eq = BookmarkLifecycle-discrete }

pub record CommittedBookmark : Type 0 where
  pub id : BookmarkId
  pub name : BookmarkName
  pub cursor : CommittedCursor
  pub publication : ℕ
  pub lifecycle : BookmarkLifecycle

-- CommittedBookmark::published
abbrev pub published_bookmark : BookmarkId → BookmarkName → CommittedCursor → ℕ → CommittedBookmark
published_bookmark id name cursor publication = record {
  id = id;
  name = name;
  cursor = cursor;
  publication = publication;
  lifecycle = available;
}

-- CommittedBookmark::mark_deleted
abbrev pub mark_deleted : CommittedBookmark → CommittedBookmark
mark_deleted b = record b { lifecycle = deleted }

pub record StreamCursorVector : Type 0 where
  pub cluster : ClusterId
  pub stream : StreamId
  pub positions : List CommittedCursor

-- The loop over the positions, with the partitions that it has met.
unfoldable pub check_positions :
    ClusterId → StreamId → List ℕ → List CommittedCursor → Result DomainError (List ℕ)
check_positions cluster stream met [] = ok met
check_positions cluster stream met (cursor ∷ cursors) =
    let rest =
      check_positions cluster stream (BTreeSet.insert cursor.partition.partition met) cursors in
    if not (cursor.cluster == cluster)
    then err (invalid_range "every cursor must belong to the vector cluster")
    else if not (cursor.partition.stream == stream)
    then err (invalid_range "every cursor must belong to the vector stream")
    else if BTreeSet.contains met cursor.partition.partition
    then err (invalid_range "a stream cursor vector cannot repeat a partition")
    else rest

-- StreamCursorVector::new
unfoldable pub stream_cursor_vector :
    StreamId → List CommittedCursor → Result DomainError StreamCursorVector
stream_cursor_vector stream [] =
    err (invalid_range "a stream cursor vector needs at least one partition")
stream_cursor_vector stream (first ∷ cursors) =
    elim (check_positions first.cluster stream [] (first ∷ cursors)) [
      | err e ↦ err e
      | ok met ↦
          ok (record { cluster = first.cluster; stream = stream; positions = first ∷ cursors })
    ]

pub record CommittedStreamBookmark : Type 0 where
  pub id : BookmarkId
  pub name : BookmarkName
  pub vector : StreamCursorVector
  pub publication : ℕ
  pub lifecycle : BookmarkLifecycle

-- CommittedStreamBookmark::published
abbrev pub published_stream_bookmark :
    BookmarkId → BookmarkName → StreamCursorVector → ℕ → CommittedStreamBookmark
published_stream_bookmark id name vector publication = record {
  id = id;
  name = name;
  vector = vector;
  publication = publication;
  lifecycle = available;
}

-- CommittedStreamBookmark::mark_deleted
abbrev pub mark_stream_deleted : CommittedStreamBookmark → CommittedStreamBookmark
mark_stream_deleted b = record b { lifecycle = deleted }

unfoldable pub CommittedCursor-discrete : Discrete CommittedCursor
unfolding PartitionKey-discrete
CommittedCursor-discrete = hlevel ℕ_discrete

instance abbrev pub committed_cursor_eq : Eq CommittedCursor
committed_cursor_eq = record { decide_eq = CommittedCursor-discrete }

unfoldable pub equal_positions : List CommittedCursor → List CommittedCursor → Bool
equal_positions [] [] = true
equal_positions (c ∷ cs) (d ∷ ds) = c == d && equal_positions cs ds
equal_positions _ _ = false

-- The derived equality of vectors.
abbrev pub equal_vectors : StreamCursorVector → StreamCursorVector → Bool
equal_vectors v w =
    v.cluster == w.cluster && (v.stream == w.stream && equal_positions v.positions w.positions)
