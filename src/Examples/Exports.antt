-- ===== src/Examples/Exports.antt =====
-- Exports of a control group with two data groups.
use light_stream.Shared.{◌≡◌, ◌≢◌, ◌≤◌, ◌⊎◌, refl, arith, some, none, [], ◌∷◌, ℕ_discrete}
use light_stream.Core.Identity.{GroupId}
use light_stream.Core.Error.{ok, err}
use light_stream.Core.Operations.{
  ExportDeadline, ExportIntent, ExportSpec, spec_token, GroupCut, QuiescentCut, collect_cuts,
  quiescent_cut, export_id_from_digest, ArtifactIdentity, ExportFenceToken-discrete,
  GroupCut-discrete, QuiescentCut-discrete, ArtifactIdentity-discrete,
}
use light_stream.Core.Operations.Fence.{
  MutationFenceState, no_fence, observation, acquire, release_for_group, IsValidFence, held_token,
  acquire_sound, acquire-acquire, Follows, release_final,
}
use light_stream.Core.Operations.Active.{
  ActiveExport, preparing_export, record_fence, record_fence_in, observe_fence, repeat_fence,
  insert_fence, begin_materialization, publish_artifact, request_completion, record_release,
}
use light_stream.Core.Operations.Active.Phases.{
  Transition, fence, materialize, publish, complete, release, transition, Reach, here, next, Keeps,
  Reach-Keeps, preparing_export-IsValid,
}
use light_stream.Core.Operations.Active.Retries.{transition_again}
use light_stream.Core.Operations.Receipt.{ExportReceipt, completed, export_receipt}
use light_stream.Shared.BTreeSet
use light_stream.Examples.{mutation_one}

abbrev pub intent : ExportIntent
intent = record {
  request = mutation_one;
  cluster = 1;
  selection = [];
  request_digest = 0;
  export = export_id_from_digest 0;
}

abbrev pub deadline : ExportDeadline
deadline = record { lower_bound_unix_ms = 10; upper_bound_unix_ms = 20 }

abbrev pub spec : ExportSpec
spec = record {
  intent = intent;
  epoch = 1;
  configured_data_groups = 2 ∷ 3 ∷ [];
  deadline = deadline;
}

abbrev pub cut_at : GroupId → GroupCut
cut_at group = record { group = group; term = 1; leader = 1; applied_index = 5 }

abbrev pub held_at : GroupId → MutationFenceState
held_at group = record {
  through_epoch = 0;
  held = some (record { token = spec_token spec; cut = cut_at group });
}

acquire_sound_example :
    IsValidFence (held_at 2)
    × ((held_at 2).through_epoch ≡ no_fence.through_epoch)
    × (((held_at 2).held ≡ none)
        ⊎ ((no_fence.held ≡ none)
            × ((held_at 2).held ≡ some (record { token = spec_token spec; cut = cut_at 2 }))))
    × ((1 ≤ 0) ⊎ (held_token (held_at 2).held ≡ some (spec_token spec)))
unfolding acquire
acquire_sound_example =
    acquire_sound no_fence (held_at 2) (spec_token spec) (cut_at 2) (observation (held_at 2) 2) tt
      refl

acquire-acquire_example :
    acquire (held_at 2) (spec_token spec) (cut_at 3) ≡ ok (held_at 2, observation (held_at 2) 2)
unfolding acquire
acquire-acquire_example =
    acquire-acquire no_fence (held_at 2) (spec_token spec) (cut_at 2) (cut_at 3)
      (observation (held_at 2) 2) (omega arith) refl

abbrev released : MutationFenceState
released = record { through_epoch = 1; held = none }

release_final_example :
    (released.held ≡ none)
    × (1 ≤ 1)
    × (0 ≤ 1)
    × (acquire released (spec_token spec) (cut_at 2) ≡ ok (released, observation released 2))
    × (release_for_group released (spec_token spec) 2 ≡ ok (released, observation released 2))
    × ((u : MutationFenceState)
        → Follows released u
        → (1 ≤ u.through_epoch) × (held_token u.held ≢ some (spec_token spec)))
unfolding release_for_group ExportFenceToken-discrete ℕ_discrete export_id_from_digest
release_final_example =
    release_final (held_at 2) released (spec_token spec) 2 (cut_at 2) (observation released 2) refl

abbrev pub fenced : GroupId → Transition
fenced group = fence (observation (held_at group) group)

abbrev released_at : GroupId → Transition
released_at group = release (observation released group)

abbrev artifact : ArtifactIdentity
artifact = record { length = 100; sha256 = 77 }

abbrev full_cut : QuiescentCut
full_cut = record { control = cut_at 1; data_cuts = (2, cut_at 2) ∷ (3, cut_at 3) ∷ [] }

abbrev step : Transition → ActiveExport → ActiveExport
step t a = elim (transition t a) [ ok b ↦ b | err e ↦ a ]

abbrev pub start : ActiveExport
start = preparing_export spec (cut_at 1)

abbrev one_fenced : ActiveExport
one_fenced = step (fenced 2) start

abbrev all_fenced : ActiveExport
all_fenced = step (fenced 3) one_fenced

abbrev materialized : ActiveExport
materialized = step materialize all_fenced

abbrev made : ActiveExport
made = step (publish artifact full_cut) materialized

abbrev ending : ActiveExport
ending = step (complete artifact) made

abbrev one_released : ActiveExport
one_released = step (released_at 2) ending

abbrev pub finished : ActiveExport
finished = step (released_at 3) one_released

whole_run : Reach start finished
unfolding record_fence record_fence_in observe_fence repeat_fence insert_fence quiescent_cut
    collect_cuts begin_materialization publish_artifact request_completion record_release
    ExportFenceToken-discrete GroupCut-discrete QuiescentCut-discrete ArtifactIdentity-discrete
    ℕ_discrete export_id_from_digest
whole_run =
    next (released_at 3)
      (next (released_at 2)
        (next (complete artifact)
          (next (publish artifact full_cut)
            (next materialize (next (fenced 3) (next (fenced 2) here refl) refl) refl) refl)
          refl)
        refl)
      refl

Reach-Keeps_example : Keeps start finished
Reach-Keeps_example =
    Reach-Keeps start finished (preparing_export-IsValid spec (cut_at 1) (omega arith)) whole_run

abbrev done_receipt : ExportReceipt
done_receipt = export_receipt spec (completed artifact)

transition_again_example : transition (fenced 2) one_fenced ≡ ok one_fenced
unfolding record_fence record_fence_in observe_fence repeat_fence insert_fence
    ExportFenceToken-discrete ℕ_discrete export_id_from_digest
transition_again_example =
    transition_again (fenced 2) start one_fenced
      (preparing_export-IsValid spec (cut_at 1) (omega arith)) refl
