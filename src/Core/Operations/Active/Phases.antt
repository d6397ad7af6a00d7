-- ===== src/Core/Operations/Active/Phases.antt =====
-- The phases that an active export goes through.
use light_stream.Shared.BTreeSet
use light_stream.Shared.{
  ℕ, ◌≤◌, ◌<◌, length, ◌∙◌, ◌≡◌, refl, true, false, Option, some, none, List, arith, nat_eq,
  btree_insert, btree_keys, keys-insert,
}
use light_stream.Core.Identity.{GroupId}
use light_stream.Core.Error.{DomainError, Result, ok}
use light_stream.Core.Operations.{
  ExportSpec, GroupCut, QuiescentCut, ArtifactIdentity, ExportAbortReason,
}
use light_stream.Core.Operations.Fence.{ExportFenceObservation, HeldExportFence}
use light_stream.Core.Operations.Active.{
  ActiveExportPhase, ActiveExport, PreparingExport, preparing, frozen, materializing, available,
  releasing, aborting, preparing_export, cut_of, record_fence, record_fence_in, observe_fence,
  insert_fence, begin_materialization, publish_artifact, request_completion, request_abort,
  record_release,
}
use light_stream.Core.Operations.Active.Groups.{
  AreConfigured, AllIn, insert-AreConfigured, insert-AllIn, quiescent_cut-values,
}

-- A cut of every configured data group.
abbrev pub IsFullCut : List GroupId → QuiescentCut → Type 0
IsFullCut configured cut = btree_keys cut.data_cuts ≡ configured

-- What the deserialiser of an active export demands of its phase, and that the fenced groups are in
-- order.
abbrev pub IsValidPhase : List GroupId → ActiveExportPhase → Type 0
IsValidPhase configured (preparing p) =
    (BTreeSet.equal (btree_keys p.fenced_groups) configured ≡ false)
    × AreConfigured configured p.fenced_groups
    × BTreeSet.IsSorted (btree_keys p.fenced_groups)
IsValidPhase configured (frozen cut) = IsFullCut configured cut
IsValidPhase configured (materializing cut) = IsFullCut configured cut
IsValidPhase configured (available a) = IsFullCut configured a.cut
IsValidPhase configured (releasing r) =
    IsFullCut configured r.cut × AllIn configured r.released_groups
IsValidPhase configured (aborting b) = AllIn configured b.released_groups

abbrev pub IsValid : ActiveExport → Type 0
IsValid a = IsValidPhase a.spec.configured_data_groups a.phase

-- The operations that the control group applies to the active export.
pub data Transition : Type 0 where
  fence : ExportFenceObservation → Transition
  materialize : Transition
  publish : ArtifactIdentity → QuiescentCut → Transition
  complete : ArtifactIdentity → Transition
  abort : ExportAbortReason → Transition
  release : ExportFenceObservation → Transition

abbrev pub transition : Transition → ActiveExport → Result DomainError ActiveExport
transition (fence o) a = record_fence a o
transition materialize a = begin_materialization a
transition (publish artifact cut) a = publish_artifact a artifact cut
transition (complete artifact) a = request_completion a artifact
transition (abort reason) a = request_abort a reason
transition (release o) a = record_release a o

-- What any sequence of successful operations reaches.
pub data Reach (a : ActiveExport) : ActiveExport → Type 0 where
  here : Reach a a
  next : {b c : ActiveExport} (t : Transition) → Reach a b → transition t b ≡ ok c → Reach a c

-- How far an export has come; the two ways to end it are as far.
abbrev pub rank : ActiveExportPhase → ℕ
rank (preparing p) = 0
rank (frozen c) = 1
rank (materializing c) = 2
rank (available v) = 3
rank (releasing r) = 4
rank (aborting b) = 4

-- Where the cut and, once published, the artifact come from.
abbrev pub artifact_of : ActiveExportPhase → Option ArtifactIdentity
artifact_of (available v) = some v.artifact
artifact_of (releasing r) = some r.artifact
artifact_of phase = none

abbrev pub abort_of : ActiveExportPhase → Option ExportAbortReason
abort_of (aborting b) = some b.reason
abort_of phase = none

-- What was there is there, unless the export is aborted.
abbrev pub IsKept {ℓ} : {A : Type ℓ} → Option A → Option A → Option ExportAbortReason → Type ℓ
IsKept x y (some reason) = Unit
IsKept (some v) y none = y ≡ some v
IsKept none y none = Unit

-- What a step keeps: the specification, the order of the phases, and, unless it aborts the export,
-- a cut and an artifact that are there.
pub record Keeps (a b : ActiveExport) : Type 0 where
  pub valid : IsValid b
  pub spec : b.spec ≡ a.spec
  pub forward : rank a.phase ≤ rank b.phase
  pub cut : IsKept (cut_of a.phase) (cut_of b.phase) (abort_of b.phase)
  pub artifact : IsKept (artifact_of a.phase) (artifact_of b.phase) (abort_of b.phase)
  pub abort : IsKept (abort_of a.phase) (abort_of b.phase) none

insert_fence-Keeps :
    (a b : ActiveExport) (p : PreparingExport) (c : GroupCut)
    → a.phase ≡ preparing p
    → BTreeSet.contains a.spec.configured_data_groups c.group ≡ true
    → IsValidPhase a.spec.configured_data_groups (preparing p)
    → insert_fence a p c.group c ≡ ok b
    → Keeps a b
unfolding insert_fence cut_of
insert_fence-Keeps a b p c e h v f = ground (
  arith,
  insert-AreConfigured a.spec.configured_data_groups c p.fenced_groups h v.1,
  keys-insert c.group c p.fenced_groups,
  BTreeSet.insert-IsSorted c.group (btree_keys p.fenced_groups) v.2,
  quiescent_cut-values a.spec.configured_data_groups p.control_cut
      (btree_insert c.group c p.fenced_groups),
  BTreeSet.equal→eq (btree_keys (btree_insert c.group c p.fenced_groups))
      a.spec.configured_data_groups,
)

observe_fence-Keeps :
    (a b : ActiveExport) (p : PreparingExport) (group : GroupId) (held : Option HeldExportFence)
    → a.phase ≡ preparing p
    → BTreeSet.contains a.spec.configured_data_groups group ≡ true
    → IsValid a
    → observe_fence a p group held ≡ ok b
    → Keeps a b
unfolding observe_fence cut_of
observe_fence-Keeps a b p group (some held) e h v f =
    ground (arith, insert_fence-Keeps a b p held.cut e)
observe_fence-Keeps a b p group none e h v f = cc

record_fence-Keeps :
    (a b : ActiveExport) (o : ExportFenceObservation) (phase : ActiveExportPhase)
    → a.phase ≡ phase
    → IsValid a
    → record_fence_in a phase o ≡ ok b
    → Keeps a b
unfolding record_fence_in cut_of
record_fence-Keeps a b o (preparing p) e v h =
    ground (arith, observe_fence-Keeps a b p o.group o.held e)
record_fence-Keeps a b o phase e v h = ground arith

transition-Keeps :
    (a b : ActiveExport) (t : Transition) (phase : ActiveExportPhase)
    → a.phase ≡ phase
    → IsValid a
    → transition t a ≡ ok b
    → Keeps a b
unfolding begin_materialization publish_artifact request_completion request_abort record_release
    record_fence cut_of
transition-Keeps a b (fence o) phase e v h = record_fence-Keeps a b o a.phase refl v h
transition-Keeps a b (release o) (releasing r) e v h =
    ground (arith, insert-AllIn a.spec.configured_data_groups o.group r.released_groups)
transition-Keeps a b (release o) (aborting r) e v h =
    ground (arith, insert-AllIn a.spec.configured_data_groups o.group r.released_groups)
transition-Keeps a b t (preparing p) e v h = ground arith
transition-Keeps a b t phase e v h = ground arith

IsKept-refl {ℓ} : {A : Type ℓ} (x : Option A) (r : Option ExportAbortReason) → IsKept x x r
IsKept-refl x (some reason) = tt
IsKept-refl (some v) none = refl
IsKept-refl none none = tt

Keeps-refl : (a : ActiveExport) → IsValid a → Keeps a a
Keeps-refl a v = record {
  valid = v;
  spec = refl;
  forward = omega arith;
  cut = IsKept-refl (cut_of a.phase) (abort_of a.phase);
  artifact = IsKept-refl (artifact_of a.phase) (abort_of a.phase);
  abort = IsKept-refl (abort_of a.phase) none;
}

-- An abort is final, so what is kept without one is kept at every step before.
IsKept-trans {ℓ} :
    {A : Type ℓ} (x y z : Option A) (q r : Option ExportAbortReason)
    → IsKept q r none
    → IsKept x y q
    → IsKept y z r
    → IsKept x z r
IsKept-trans x y z q (some reason) k h g = tt
IsKept-trans none y z q none k h g = tt
IsKept-trans (some v) y z (some reason) none k h g = cc
IsKept-trans (some v) none z none none k h g = cc
IsKept-trans (some v) (some u) z none none k h g = g ∙ h

Keeps-trans : (a b c : ActiveExport) → Keeps a b → Keeps b c → Keeps a c
Keeps-trans a b c j k = record {
  valid = k.valid;
  spec = k.spec ∙ j.spec;
  forward = omega arith;
  cut =
      IsKept-trans (cut_of a.phase) (cut_of b.phase) (cut_of c.phase) (abort_of b.phase)
        (abort_of c.phase) k.abort j.cut k.cut;
  artifact =
      IsKept-trans (artifact_of a.phase) (artifact_of b.phase) (artifact_of c.phase)
        (abort_of b.phase) (abort_of c.phase) k.abort j.artifact k.artifact;
  abort =
      IsKept-trans (abort_of a.phase) (abort_of b.phase) (abort_of c.phase) none none tt j.abort
        k.abort;
}

-- However the operations succeed one after another from a valid export, the export stays valid and
-- keeps its specification, its phase never goes back, an abort and its reason are final, and a cut
-- or a published artifact stays what it is unless the export is aborted.
pub Reach-Keeps : (a b : ActiveExport) → IsValid a → Reach a b → Keeps a b
Reach-Keeps a b v here = Keeps-refl a v
Reach-Keeps a c v (next {b = b} t r h) =
    let k = Reach-Keeps a b v r in
    Keeps-trans a b c k (transition-Keeps b c t b.phase refl k.valid h)

-- An export begins valid, when it has a group to fence.
pub preparing_export-IsValid :
    (spec : ExportSpec) (control : GroupCut)
    → 0 < length spec.configured_data_groups
    → IsValid (preparing_export spec control)
preparing_export-IsValid spec control h = ground arith
