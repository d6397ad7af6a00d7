-- ===== src/Storage/Bookmarks/Index.antt =====
-- crates/light-stream-storage/src/lib.rs: the names and the order of the bookmarks of partitions.
use light_stream.Shared.{
  ℕ, ◌+◌, ◌≤◌, ◌<◌, ◌≡◌, refl, subst, inl, inr, Bool, false, Bool-cases, Option-cases, none, some,
  nat_eq, string_eq, ltb, u64_max, ◌==◌, arith,
}
use light_stream.Core.Identity.{
  PartitionKey, partition_key_eq, BookmarkId, BookmarkName, RecordOffset,
}
use light_stream.Core.Error.{ok}
use light_stream.Core.Bookmark.{
  CommittedBookmark, published_bookmark, deleted, bookmark_lifecycle_eq,
}
use light_stream.Storage.Keys.{
  BookmarkNameKey, bookmark_name_key_eq, BookmarkOrderKey, bookmark_order_key_eq,
}
use light_stream.Storage.Result.{ApplyResult}
use light_stream.Storage.State.{GroupDb, GroupState, WriteBatch, Applied, kind-cases, unwrap_or}
use light_stream.Storage.Bookmarks.{
  name_key_of, order_key_of, next_publication, put_new_bookmark, create_free, create_within,
  create_bookmark_record, apply_create_bookmark, drop_bookmark, apply_delete_bookmark,
}

abbrev pub is_gone : CommittedBookmark → Bool
is_gone b = b.lifecycle == deleted

abbrev pub name_of : CommittedBookmark → BookmarkNameKey
name_of b = name_key_of b.cursor.partition b.name

abbrev pub place_of : CommittedBookmark → BookmarkOrderKey
place_of b = order_key_of b.cursor.partition b.publication

-- The last publication of a partition.
abbrev pub last_publication : GroupState → PartitionKey → ℕ
last_publication s p = unwrap_or (s.bookmark_publications p) 0

-- The bookmarks are stored under their identities, and those that are not deleted are exactly what the
-- names and the places in the order stand for.
pub record IsMarked (s : GroupState) : Type 0 where
  pub identified :
      (id : BookmarkId) (b : CommittedBookmark) → s.bookmark_ids id ≡ some b → b.id ≡ id
  pub named :
      (id : BookmarkId) (b : CommittedBookmark)
      → s.bookmark_ids id ≡ some b
      → is_gone b ≡ false
      → s.bookmark_names (name_of b) ≡ some id
  pub ordered :
      (id : BookmarkId) (b : CommittedBookmark)
      → s.bookmark_ids id ≡ some b
      → is_gone b ≡ false
      → s.bookmark_order (place_of b) ≡ some b
  pub live :
      (k : BookmarkNameKey) (id : BookmarkId)
      → s.bookmark_names k ≡ some id
      → (b : CommittedBookmark) × (s.bookmark_ids id ≡ some b)
        × (name_of b ≡ k)
        × (is_gone b ≡ false)
  pub in_place :
      (k : BookmarkOrderKey) (b : CommittedBookmark)
      → s.bookmark_order k ≡ some b
      → (s.bookmark_ids b.id ≡ some b) × (place_of b ≡ k) × (is_gone b ≡ false)
  pub published :
      (id : BookmarkId) (b : CommittedBookmark)
      → s.bookmark_ids id ≡ some b
      → b.publication ≤ last_publication s b.cursor.partition

put_new-IsMarked :
    (s : GroupState) (p : PartitionKey) (b : CommittedBookmark)
    → IsMarked s
    → s.bookmark_ids b.id ≡ none
    → s.bookmark_names (name_of b) ≡ none
    → b.cursor.partition ≡ p
    → is_gone b ≡ false
    → b.publication ≡ last_publication s p + 1
    → IsMarked (put_new_bookmark p b s)
unfolding put_new_bookmark
put_new-IsMarked s p b v f n e g l = record {
  identified = λ id c h. let old = v.identified id c in ground arith;
  named = λ id c h k. let old = v.named id c in ground arith;
  ordered = λ id c h k. let old = v.ordered id c in let before = v.published id c in ground arith;
  live = λ k id h. elim (Bool-cases (k == name_key_of p b.name)) [
    | inl q ↦ (b, (ground arith), (ground arith), (ground arith))
    | inr q ↦
        let (c, p0, p1, p2) = v.live k id (ground arith) in
        (c, (ground arith), (ground arith), (ground arith))
  ];
  in_place = λ k c h. let old = v.in_place k c in ground arith;
  published = λ id c h. let old = v.published id c in ground arith;
}

drop-IsMarked :
    (s : GroupState) (p : PartitionKey) (id : BookmarkId) (b : CommittedBookmark)
    → IsMarked s
    → s.bookmark_ids id ≡ some b
    → b.cursor.partition ≡ p
    → is_gone b ≡ false
    → IsMarked (drop_bookmark p id b s)
unfolding drop_bookmark
drop-IsMarked s p id b v h e g =
    let own = v.identified id b h in
    let name = v.named id b h g in
    let place = v.ordered id b h g in
    let before = v.published id b h in
    record {
      identified = λ j c k. let old = v.identified j c in ground arith;
      named = λ j c k l. let old = v.named j c in ground arith;
      ordered = λ j c k l. let old = v.ordered j c in let other = v.identified j c in ground arith;
      live = λ n j k.
          let (c, p0, p1, p2) = v.live n j (ground arith) in
          (c, (ground arith), (ground arith), (ground arith));
      in_place = λ n c k. let old = v.in_place n c in ground arith;
      published = λ j c k. let old = v.published j c in ground arith;
    }

create-IsMarked :
    (db : GroupDb) (s : GroupState) (id : BookmarkId) (p : PartitionKey) (name : BookmarkName)
    (offset maximum : RecordOffset) (result : ApplyResult) (write : WriteBatch)
    → IsMarked s
    → last_publication s p < u64_max
    → create_bookmark_record db s id p name offset maximum s ≡ ok (result, write)
    → IsMarked write
create-IsMarked db s id p name offset maximum result write v room h =
    elim (kind-cases db.identity.kind) [
      | inl d ↦
          let same : s ≡ write = unfold create_bookmark_record in ground arith in
          subst IsMarked same v
      | inr d ↦ elim (Option-cases (s.bookmark_ids id)) [
        | inr (b, e) ↦
            let same : s ≡ write = unfold create_bookmark_record create_within in ground arith in
            subst IsMarked same v
        | inl e ↦ elim (Option-cases (s.bookmark_names (name_key_of p name))) [
          | inr (other, f) ↦
              let same : s ≡ write =
                unfold create_bookmark_record create_within create_free in ground arith in
              subst IsMarked same v
          | inl f ↦ elim (Bool-cases (ltb maximum offset)) [
            | inl g ↦
                let same : s ≡ write =
                  unfold create_bookmark_record create_within in ground arith in
                subst IsMarked same v
            | inr g ↦
                let b =
                  published_bookmark id name
                    (record {
                      cluster = db.identity.cluster_id;
                      partition = p;
                      next_offset = offset;
                    })
                    (next_publication s p) in
                let same : put_new_bookmark p b s ≡ write =
                  unfold create_bookmark_record create_within create_free in ground arith in
                subst IsMarked same
                  (put_new-IsMarked s p b v e f refl (ground arith) (ground arith))
          ]
        ]
      ]
    ]

delete-IsMarked :
    (s : GroupState) (p : PartitionKey) (id : BookmarkId) (result : ApplyResult)
    (write : WriteBatch)
    → IsMarked s
    → apply_delete_bookmark s p id s ≡ ok (result, write)
    → IsMarked write
delete-IsMarked s p id result write v h = elim (Option-cases (s.bookmark_ids id)) [
  | inl e ↦
      let same : s ≡ write = unfold apply_delete_bookmark in ground arith in subst IsMarked same v
  | inr (b, e) ↦ elim (Bool-cases (b.cursor.partition == p)) [
    | inr f ↦
        let same : s ≡ write = unfold apply_delete_bookmark in ground arith in subst IsMarked same v
    | inl f ↦ elim (Bool-cases (is_gone b)) [
      | inl g ↦
          let same : s ≡ write = unfold apply_delete_bookmark in ground arith in
          subst IsMarked same v
      | inr g ↦
          let same : drop_bookmark p id b s ≡ write =
            unfold apply_delete_bookmark in ground arith in
          subst IsMarked same (drop-IsMarked s p id b v e (ground arith) g)
    ]
  ]
]

-- The commands on the bookmarks of a partition.
pub data BookmarkCommand : Type 0 where
  create_bookmark : BookmarkId → PartitionKey → BookmarkName → RecordOffset → BookmarkCommand
  delete_bookmark : PartitionKey → BookmarkId → BookmarkCommand

abbrev pub run_bookmark_command : GroupDb → GroupState → BookmarkCommand → Applied ApplyResult
run_bookmark_command db s (create_bookmark id p name offset) =
    apply_create_bookmark db s id p name offset s
run_bookmark_command db s (delete_bookmark p id) = apply_delete_bookmark s p id s

-- The bookmarks are stored under their identities with publications up to the partition's last one,
-- and those that are not deleted are exactly what the names and the places in the order stand for:
-- creating and deleting a bookmark keep this so, on every branch that applies, as long as no partition
-- has used up the publication numbers of a u64.
pub bookmark_command-IsMarked :
    (db : GroupDb) (s : GroupState) (command : BookmarkCommand) (result : ApplyResult)
    (write : WriteBatch)
    → ((p : PartitionKey) → last_publication s p < u64_max)
    → IsMarked s
    → run_bookmark_command db s command ≡ ok (result, write)
    → IsMarked write
bookmark_command-IsMarked db s (create_bookmark id p name offset) result write room v h =
    create-IsMarked db s id p name offset (unwrap_or (s.next_offset p) 0) result write v (room p)
      (unfold apply_create_bookmark in h)
bookmark_command-IsMarked db s (delete_bookmark p id) result write room v h =
    delete-IsMarked s p id result write v h
