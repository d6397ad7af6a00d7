-- ===== src/Core/Operations/Receipt/Released.antt =====
-- Where the released groups of an export come from: an observation of each of them.
use light_stream.Shared.BTreeSet
use light_stream.Shared.{
  ◌≤◌, ◌<◌, length, ◌≡◌, refl, ◌⊎◌, inl, inr, Bool, Bool-cases, List, ◌==◌, btree_values,
  btree_insert, true, false, Option, some, none, arith, nat_eq,
}
use light_stream.Core.Identity.{GroupId}
use light_stream.Core.Error.{ok, Result-cases}
use light_stream.Core.Operations.{ExportSpec, ExportEpoch, GroupCut, quiescent_cut}
use light_stream.Core.Operations.Fence.{ExportFenceObservation, HeldExportFence}
use light_stream.Core.Operations.Active.{
  ActiveExportPhase, ActiveExport, PreparingExport, preparing, releasing, aborting,
  preparing_export, record_fence, record_fence_in, observe_fence, insert_fence,
  begin_materialization, publish_artifact, request_completion, request_abort, record_release,
}
use light_stream.Core.Operations.Active.Phases.{
  IsValid, Reach-Keeps, preparing_export-IsValid, Reach, here, next, Transition, fence, release,
  transition,
}
use light_stream.Core.Operations.Receipt.{released_in}

-- The group is among the released ones of a phase.
abbrev pub has_released : ActiveExportPhase → GroupId → Bool
has_released (releasing r) g = BTreeSet.contains r.released_groups g
has_released (aborting b) g = BTreeSet.contains b.released_groups g
has_released phase g = false

-- An observation of the group that holds no fence and has released the epoch.
abbrev pub ShowsRelease : ExportFenceObservation → ExportEpoch → GroupId → Type 0
ShowsRelease o epoch g = (o.group ≡ g) × (epoch ≤ o.through_epoch) × (o.held ≡ none)

groups_released :
    (phase : ActiveExportPhase) (groups : List GroupId) (g : GroupId)
    → released_in phase ≡ some groups
    → BTreeSet.contains groups g ≡ true
    → has_released phase g ≡ true
groups_released (releasing r) groups g e k = unfold released_in in ground arith
groups_released (aborting r) groups g e k = unfold released_in in ground arith
groups_released phase groups g e k = unfold released_in in ground arith

-- On the way from one export to another, such an observation was recorded.
abbrev pub WasReleased : ActiveExport → ActiveExport → GroupId → Type 0
WasReleased a d g =
    (b : ActiveExport) × (c : ActiveExport) × (o : ExportFenceObservation) × Reach a b
    × (record_release b o ≡ ok c)
    × Reach c d
    × ShowsRelease o a.spec.epoch g

release_released :
    (b c : ActiveExport) (o : ExportFenceObservation) (g : GroupId) (phase : ActiveExportPhase)
    → b.phase ≡ phase
    → record_release b o ≡ ok c
    → has_released c.phase g ≡ true
    → (has_released b.phase g ≡ true) ⊎ ShowsRelease o b.spec.epoch g
unfolding record_release
release_released b c o g (releasing r) e h k =
    let i = BTreeSet.contains-insert o.group g r.released_groups in
    elim (Bool-cases (g == o.group)) [
      | inl f ↦ inr (ground arith, ground arith, ground arith)
      | inr f ↦ inl (ground arith)
    ]
release_released b c o g (aborting r) e h k =
    let i = BTreeSet.contains-insert o.group g r.released_groups in
    elim (Bool-cases (g == o.group)) [
      | inl f ↦ inr (ground arith, ground arith, ground arith)
      | inr f ↦ inl (ground arith)
    ]
release_released b c o g phase e h k = ground arith

insert_released :
    (b c : ActiveExport) (p : PreparingExport) (group g : GroupId) (cut : GroupCut)
    → insert_fence b p group cut ≡ ok c
    → has_released c.phase g ≡ false
unfolding insert_fence
insert_released b c p group g cut h =
    elim (Result-cases
      (quiescent_cut p.control_cut (btree_values (btree_insert group cut p.fenced_groups)))) [
        | inl (q, e) ↦ ground arith
        | inr (x, e) ↦ ground arith
      ]

observe_released :
    (b c : ActiveExport) (p : PreparingExport) (group g : GroupId) (held : Option HeldExportFence)
    → b.phase ≡ preparing p
    → observe_fence b p group held ≡ ok c
    → has_released c.phase g ≡ false
unfolding observe_fence
observe_released b c p group g (some held) e h =
    ground (arith, insert_released b c p group g held.cut)
observe_released b c p group g none e h = ground arith

fence_released :
    (b c : ActiveExport) (o : ExportFenceObservation) (g : GroupId) (phase : ActiveExportPhase)
    → b.phase ≡ phase
    → record_fence_in b phase o ≡ ok c
    → has_released c.phase g ≡ true
    → has_released b.phase g ≡ true
unfolding record_fence_in
fence_released b c o g (preparing p) e h k =
    ground (arith, observe_released b c p o.group g o.held e)
fence_released b c o g phase e h k = ground arith

-- A step records the release of a group, or its group was released before.
step_released :
    (b c : ActiveExport) (t : Transition) (g : GroupId) (phase : ActiveExportPhase)
    → b.phase ≡ phase
    → transition t b ≡ ok c
    → has_released c.phase g ≡ true
    → (has_released b.phase g ≡ true)
      ⊎ ((o : ExportFenceObservation) × (record_release b o ≡ ok c) × ShowsRelease o b.spec.epoch g)
unfolding begin_materialization publish_artifact request_completion request_abort record_fence
step_released b c (release o) g phase e h k = elim (release_released b c o g phase e h k) [
  | inl f ↦ inl f
  | inr f ↦ inr (o, h, f)
]
step_released b c (fence o) g phase e h k = inl (fence_released b c o g b.phase refl h k)
step_released b c t g phase e h k = inl (ground arith)

-- A released group of an export that began without one was observed on the way.
released_on_way :
    (a d : ActiveExport) (g : GroupId)
    → IsValid a
    → has_released a.phase g ≡ false
    → Reach a d
    → has_released d.phase g ≡ true
    → WasReleased a d g
released_on_way a d g v n here k = ground arith
released_on_way a d g v n (next {b = b} t r h) k = elim (step_released b d t g b.phase refl h k) [
  | inr (o, e, f) ↦
      let kept = (Reach-Keeps a b v r).spec in (b, d, o, r, e, here, (f.0, (ground arith), f.2))
  | inl f ↦
      let (x, y, o, before, e, after, shows) = released_on_way a b g v n r f in
      (x, y, o, before, e, next t after h, shows)
]

-- The released groups of an export from its beginning are the observed ones.
pub released_groups_lem :
    (spec : ExportSpec) (control : GroupCut) (a : ActiveExport) (groups : List GroupId)
    (g : GroupId)
    → 0 < length spec.configured_data_groups
    → Reach (preparing_export spec control) a
    → released_in a.phase ≡ some groups
    → BTreeSet.contains groups g ≡ true
    → WasReleased (preparing_export spec control) a g
released_groups_lem spec control a groups g n reach e k =
    released_on_way (preparing_export spec control) a g (preparing_export-IsValid spec control n)
      refl reach (groups_released a.phase groups g e k)
