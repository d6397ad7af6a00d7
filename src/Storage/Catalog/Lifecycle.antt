-- ===== src/Storage/Catalog/Lifecycle.antt =====
-- crates/light-stream-storage/src/lib.rs: the lifecycle of a stream through the commands of the catalog.
use light_stream.Shared.{
  ℕ, ◌≡◌, refl, Option, some, [], ◌∷◌, ◌++◌, true, false, nat_eq, string_eq, arith,
}
use light_stream.Shared.BTreeSet
use light_stream.Core.Identity.{GroupId}
use light_stream.Core.Catalog.{
  create_stream_spec_eq, stream_lifecycle_eq, StreamDescriptor, preparing, active, deleting,
  deleted,
}
use light_stream.Core.Operations.Selection.{sort_streams}
use light_stream.Storage.Catalog.Changes.{
  changed, groups_of, contains_group, ready_change, activate_change, begin_delete_change,
  finish_delete_change,
}
use light_stream.Storage.Catalog.Names.{is_deleted}

-- The steps of a lifecycle, under a command that may report a group as ready. A report joins a group of
-- the placements to the ready ones, no other step changes them, and a stream becomes active when the
-- groups of its placements are those that are ready.
pub data Moves (reported : Option GroupId) : StreamDescriptor → StreamDescriptor → Type 0 where
  readied :
      {d d' : StreamDescriptor} (group : GroupId)
      → reported ≡ some group
      → d.lifecycle ≡ preparing
      → d'.lifecycle ≡ preparing
      → contains_group group (groups_of d.placements) ≡ true
      → d'.ready_groups ≡ sort_streams (d.ready_groups ++ group ∷ [])
      → Moves reported d d'
  activated :
      {d d' : StreamDescriptor}
      → d.lifecycle ≡ preparing
      → d'.lifecycle ≡ active
      → BTreeSet.from_list (groups_of d.placements) ≡ BTreeSet.from_list d.ready_groups
      → d'.ready_groups ≡ d.ready_groups
      → Moves reported d d'
  began :
      {d d' : StreamDescriptor}
      → d.lifecycle ≡ active
      → d'.lifecycle ≡ deleting
      → d'.ready_groups ≡ d.ready_groups
      → Moves reported d d'
  finished :
      {d d' : StreamDescriptor}
      → d.lifecycle ≡ deleting
      → d'.lifecycle ≡ deleted
      → d'.ready_groups ≡ d.ready_groups
      → Moves reported d d'

-- A step of a stream whose identity, cluster, name and placements stay, at a revision.
abbrev pub Advances : Option GroupId → ℕ → StreamDescriptor → StreamDescriptor → Type 0
Advances reported revision d d' =
    Moves reported d d'
    × (d'.stream ≡ d.stream)
    × (d'.name ≡ d.name)
    × (d'.placements ≡ d.placements)
    × (d'.revision ≡ revision)
    × (d'.cluster ≡ d.cluster)

pub ready_lem :
    (group : GroupId) (revision : ℕ) (d d' : StreamDescriptor)
    → ready_change group revision d ≡ changed d'
    → Advances (some group) revision d d'
unfolding ready_change
ready_lem group revision d d' h = (
  readied group refl (ground arith) (ground arith) (ground arith) (ground arith),
  (ground arith),
  (ground arith),
  (ground arith),
  (ground arith),
  (ground arith),
)

pub activate_lem :
    (reported : Option GroupId) (revision : ℕ) (d d' : StreamDescriptor)
    → activate_change revision d ≡ changed d'
    → Advances reported revision d d'
unfolding activate_change
activate_lem reported revision d d' h = (
  activated (ground arith) (ground arith)
      (BTreeSet.equal→eq (BTreeSet.from_list (groups_of d.placements))
        (BTreeSet.from_list d.ready_groups) (ground arith))
      (ground arith),
  (ground arith),
  (ground arith),
  (ground arith),
  (ground arith),
  (ground arith),
)

pub begin_lem :
    (reported : Option GroupId) (revision : ℕ) (d d' : StreamDescriptor)
    → begin_delete_change revision d ≡ changed d'
    → Advances reported revision d d' × (is_deleted d' ≡ false)
unfolding begin_delete_change
begin_lem reported revision d d' h = (
  (
    began (ground arith) (ground arith) (ground arith),
    (ground arith),
    (ground arith),
    (ground arith),
    (ground arith),
    (ground arith),
  ),
  (ground arith),
)

pub finish_lem :
    (reported : Option GroupId) (revision : ℕ) (d d' : StreamDescriptor)
    → finish_delete_change revision d ≡ changed d'
    → Advances reported revision d d'
unfolding finish_delete_change
finish_lem reported revision d d' h = (
  finished (ground arith) (ground arith) (ground arith),
  (ground arith),
  (ground arith),
  (ground arith),
  (ground arith),
  (ground arith),
)

-- A stream that moves was not deleted.
pub moves_live :
    (reported : Option GroupId) (d d' : StreamDescriptor)
    → Moves reported d d'
    → is_deleted d ≡ false
moves_live reported d d' (readied g r e f i j) = ground arith
moves_live reported d d' (activated e f g k) = ground arith
moves_live reported d d' (began e f k) = ground arith
moves_live reported d d' (finished e f k) = ground arith
