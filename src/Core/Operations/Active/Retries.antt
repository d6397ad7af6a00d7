-- ===== src/Core/Operations/Active/Retries.antt =====
-- Repeating an operation of the export protocol.
use light_stream.Shared.BTreeSet
use light_stream.Shared.{
  ◌≡◌, refl, true, Option, some, none, arith, get-insert, btree_insert, btree_keys, keys-insert,
}
use light_stream.Core.Error.{ok}
use light_stream.Core.Operations.{group_cut_eq}
use light_stream.Core.Operations.Fence.{ExportFenceObservation, HeldExportFence}
use light_stream.Core.Operations.Active.{
  ActiveExportPhase, ActiveExport, PreparingExport, preparing, releasing, aborting, record_fence,
  record_fence_in, observe_fence, insert_fence, cut_of, begin_materialization, publish_artifact,
  request_completion, request_abort, record_release,
}
use light_stream.Core.Operations.Active.Groups.{insert-AreConfigured, quiescent_cut-values}
use light_stream.Core.Operations.Active.Phases.{IsValid, Transition, fence, release, transition}

insert_fence_again :
    (a b : ActiveExport) (p : PreparingExport) (o : ExportFenceObservation) (h : HeldExportFence)
    → a.phase ≡ preparing p
    → o.held ≡ some h
    → h.cut.group ≡ o.group
    → BTreeSet.contains a.spec.configured_data_groups o.group ≡ true
    → observe_fence a p o.group (some h) ≡ ok b
    → insert_fence a p h.cut.group h.cut ≡ ok b
    → IsValid a
    → record_fence_in b b.phase o ≡ ok b
unfolding insert_fence record_fence_in cut_of
insert_fence_again a b p o h e eh g c f i v = ground (
  arith,
  insert-AreConfigured a.spec.configured_data_groups h.cut p.fenced_groups,
  get-insert h.cut.group h.cut.group h.cut p.fenced_groups,
  keys-insert h.cut.group h.cut p.fenced_groups,
  BTreeSet.insert-IsSorted h.cut.group (btree_keys p.fenced_groups),
  quiescent_cut-values a.spec.configured_data_groups p.control_cut
      (btree_insert h.cut.group h.cut p.fenced_groups),
)

observe_fence_again :
    (a b : ActiveExport) (p : PreparingExport) (o : ExportFenceObservation)
    (held : Option HeldExportFence)
    → a.phase ≡ preparing p
    → o.held ≡ held
    → BTreeSet.contains a.spec.configured_data_groups o.group ≡ true
    → observe_fence a p o.group held ≡ ok b
    → IsValid a
    → record_fence_in b b.phase o ≡ ok b
unfolding observe_fence record_fence_in
observe_fence_again a b p o (some h) e eh c f v = ground (arith, insert_fence_again a b p o h e eh)
observe_fence_again a b p o none e eh c f v = cc

record_fence_again :
    (a b : ActiveExport) (o : ExportFenceObservation) (phase : ActiveExportPhase)
    → a.phase ≡ phase
    → IsValid a
    → record_fence_in a phase o ≡ ok b
    → record_fence_in b b.phase o ≡ ok b
unfolding record_fence_in
record_fence_again a b o (preparing p) e v h =
    ground (arith, observe_fence_again a b p o o.held e refl)
record_fence_again a b o phase e v h = ground arith

again :
    (t : Transition) (a b : ActiveExport) (phase : ActiveExportPhase)
    → a.phase ≡ phase
    → IsValid a
    → transition t a ≡ ok b
    → transition t b ≡ ok b
unfolding begin_materialization publish_artifact request_completion request_abort record_release
    record_fence
again (fence o) a b phase e v h = record_fence_again a b o a.phase refl v h
again (release o) a b (releasing r) e v h =
    ground (arith, BTreeSet.insert-insert o.group r.released_groups)
again (release o) a b (aborting r) e v h =
    ground (arith, BTreeSet.insert-insert o.group r.released_groups)
again t a b (preparing p) e v h = ground arith
again t a b phase e v h = ground arith

-- An operation that succeeded on a valid export succeeds again on the export that it left, and
-- leaves that as it is: a proposer that lost the answer may repeat it.
pub transition_again :
    (t : Transition) (a b : ActiveExport)
    → IsValid a
    → transition t a ≡ ok b
    → transition t b ≡ ok b
transition_again t a b v h = again t a b a.phase refl v h
