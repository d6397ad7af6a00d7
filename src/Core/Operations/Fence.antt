-- ===== src/Core/Operations/Fence.antt =====
-- crates/light-stream-core/src/operations.rs: the mutation fence that a group holds for an export.
use light_stream.Shared.{
  ℕ, ◌≤◌, ◌<◌, ◌≡◌, ◌≢◌, ◌⊎◌, Bool, false, Option, some, none, nat_eq, arith, leb, max_of, ◌==◌,
  not, if◌then◌else◌,
}
use light_stream.Core.Identity.{GroupId}
use light_stream.Core.Error.{DomainError, export_conflict, invalid_identity, Result, ok, err}
use light_stream.Core.Operations.{ExportFenceToken, fence_token_eq, GroupCut}

pub record HeldExportFence : Type 0 where
  pub token : ExportFenceToken
  pub cut : GroupCut

pub record MutationFenceState : Type 0 where
  pub through_epoch : ℕ
  pub held : Option HeldExportFence

-- MutationFenceState::default
abbrev pub no_fence : MutationFenceState
no_fence = record { through_epoch = 0; held = none }

pub record ExportFenceObservation : Type 0 where
  pub group : GroupId
  pub through_epoch : ℕ
  pub held : Option HeldExportFence

-- MutationFenceState::observation
abbrev pub observation : MutationFenceState → GroupId → ExportFenceObservation
observation s group = record { group = group; through_epoch = s.through_epoch; held = s.held }

acquire_when_held :
    MutationFenceState
    → Option HeldExportFence
    → ExportFenceToken
    → GroupCut
    → Result DomainError (MutationFenceState × ExportFenceObservation)
acquire_when_held s (some held) token cut =
    if held.token == token then ok (s, observation s held.cut.group) else err export_conflict
acquire_when_held s none token cut =
    let s' : MutationFenceState = record s { held = some (record { token = token; cut = cut }) } in
    ok (s', observation s' cut.group)

-- MutationFenceState::acquire
unfoldable pub acquire :
    MutationFenceState
    → ExportFenceToken
    → GroupCut
    → Result DomainError (MutationFenceState × ExportFenceObservation)
unfolding acquire_when_held
acquire s token cut =
    if leb token.epoch s.through_epoch
    then ok (s, observation s cut.group)
    else acquire_when_held s s.held token cut

release_when_held :
    MutationFenceState
    → Option HeldExportFence
    → ExportFenceToken
    → Result DomainError MutationFenceState
release_when_held s (some held) token =
    if not (held.token == token)
    then err export_conflict
    else ok (record s { held = none; through_epoch = max_of s.through_epoch token.epoch })
release_when_held s none token =
    ok (record s { through_epoch = max_of s.through_epoch token.epoch })

-- MutationFenceState::release_for_group
unfoldable pub release_for_group :
    MutationFenceState
    → ExportFenceToken
    → GroupId
    → Result DomainError (MutationFenceState × ExportFenceObservation)
unfolding release_when_held
release_for_group s token group = elim (release_when_held s s.held token) [
  | ok s' ↦ ok (s', observation s' group)
  | err e ↦ err e
]

held_elsewhere : Option HeldExportFence → GroupId → Bool
held_elsewhere (some h) group = not (h.cut.group == group)
held_elsewhere none group = false

held_stale : Option HeldExportFence → ℕ → Bool
held_stale (some h) through = leb h.token.epoch through
held_stale none through = false

-- ExportFenceObservation::new
unfoldable pub fence_observation :
    GroupId → ℕ → Option HeldExportFence → Result DomainError ExportFenceObservation
unfolding held_elsewhere held_stale
fence_observation group through held =
    if held_elsewhere held group
    then err (invalid_identity "export fence observation" "held fence cut belongs to another group")
    else if held_stale held through
    then err (
        invalid_identity "export fence observation"
          "held fence is not newer than the release watermark")
    else ok (record { group = group; through_epoch = through; held = held })

-- What the deserialiser of a fence state demands: a held fence is newer than every released one.
abbrev pub IsFresh : Option HeldExportFence → ℕ → Type 0
IsFresh (some h) through = through < h.token.epoch
IsFresh none through = Unit {0}

abbrev pub IsValidFence : MutationFenceState → Type 0
IsValidFence s = IsFresh s.held s.through_epoch

abbrev pub held_token : Option HeldExportFence → Option ExportFenceToken
held_token (some h) = some h.token
held_token none = none

pub acquire_free :
    (s t : MutationFenceState) (token : ExportFenceToken) (cut : GroupCut)
    (o : ExportFenceObservation)
    → s.held ≡ none
    → s.through_epoch < token.epoch
    → acquire s token cut ≡ ok (t, o)
    → (t.through_epoch ≡ s.through_epoch) × (t.held ≡ some (record { token = token; cut = cut }))
unfolding acquire
acquire_free s t token cut o n p e = ground arith

-- An acquisition that succeeds from a valid fence keeps it valid and does not move the watermark.
-- What is held stays, unless nothing was held and the token now is, with the cut. The token's epoch
-- was released before, or the token is held.
pub acquire_sound :
    (s t : MutationFenceState) (token : ExportFenceToken) (cut : GroupCut)
    (o : ExportFenceObservation)
    → IsValidFence s
    → acquire s token cut ≡ ok (t, o)
    → IsValidFence t
      × (t.through_epoch ≡ s.through_epoch)
      × ((t.held ≡ s.held)
          ⊎ ((s.held ≡ none) × (t.held ≡ some (record { token = token; cut = cut }))))
      × ((token.epoch ≤ s.through_epoch) ⊎ (held_token t.held ≡ some token))
unfolding acquire
acquire_sound s t token cut o v e = ground arith

-- After an acquisition that succeeds, of a token whose epoch is newer than every released one, acquiring
-- the token again, with any cut, succeeds, changes nothing and observes the same group.
pub acquire-acquire :
    (s t : MutationFenceState) (token : ExportFenceToken) (cut later : GroupCut)
    (o : ExportFenceObservation)
    → s.through_epoch < token.epoch
    → acquire s token cut ≡ ok (t, o)
    → acquire t token later ≡ ok (t, observation t o.group)
unfolding acquire
acquire-acquire s t token cut later o h e = ground arith

pub release_free :
    (s t : MutationFenceState) (token : ExportFenceToken) (group : GroupId)
    (o : ExportFenceObservation)
    → release_for_group s token group ≡ ok (t, o)
    → (t.held ≡ none) × (t.through_epoch ≡ max_of s.through_epoch token.epoch)
unfolding release_for_group
release_free s t token group o e = ground arith

-- What any sequence of successful acquisitions and releases, of any tokens, reaches.
pub data Follows (s : MutationFenceState) : MutationFenceState → Type 0 where
  unmoved : Follows s s
  acquired :
      {t u : MutationFenceState} (token : ExportFenceToken) (cut : GroupCut)
      (o : ExportFenceObservation)
      → Follows s t
      → acquire t token cut ≡ ok (u, o)
      → Follows s u
  freed :
      {t u : MutationFenceState} (token : ExportFenceToken) (group : GroupId)
      (o : ExportFenceObservation)
      → Follows s t
      → release_for_group t token group ≡ ok (u, o)
      → Follows s u

release-IsValidFence :
    (s t : MutationFenceState) (token : ExportFenceToken) (group : GroupId)
    (o : ExportFenceObservation)
    → release_for_group s token group ≡ ok (t, o)
    → IsValidFence t × (s.through_epoch ≤ t.through_epoch)
unfolding release_for_group
release-IsValidFence s t token group o e = ground arith

-- A fence stays valid, and its watermark never goes back.
watermark_rises :
    (s t : MutationFenceState)
    → IsValidFence s
    → Follows s t
    → IsValidFence t × (s.through_epoch ≤ t.through_epoch)
watermark_rises s t v unmoved = (v, omega arith)
watermark_rises s u v (acquired {t = t} token cut o f e) =
    let k = watermark_rises s t v f in
    let a = acquire_sound t u token cut o k.0 e in (a.0, ground arith)
watermark_rises s u v (freed {t = t} token group o f e) =
    let k = watermark_rises s t v f in
    let a = release-IsValidFence t u token group o e in (a.0, omega arith)

not_held :
    (s : MutationFenceState) (token : ExportFenceToken)
    → IsValidFence s
    → token.epoch ≤ s.through_epoch
    → held_token s.held ≢ some token
not_held s token v h = ground arith

-- After a release of the token that succeeds, the group holds no fence and its watermark has reached the
-- token's epoch without going back; acquiring the token changes nothing, and so does a second release.
-- Whatever acquisitions and releases of any tokens succeed after it, the watermark never goes back
-- and the token is not held again.
pub release_final :
    (s t : MutationFenceState) (token : ExportFenceToken) (group : GroupId) (cut : GroupCut)
    (o : ExportFenceObservation)
    → release_for_group s token group ≡ ok (t, o)
    → (t.held ≡ none)
      × (token.epoch ≤ t.through_epoch)
      × (s.through_epoch ≤ t.through_epoch)
      × (acquire t token cut ≡ ok (t, observation t cut.group))
      × (release_for_group t token group ≡ ok (t, o))
      × ((u : MutationFenceState)
          → Follows t u
          → (t.through_epoch ≤ u.through_epoch) × (held_token u.held ≢ some token))
release_final s t token group cut o e =
    let v = release-IsValidFence s t token group o e in
    let now : (t.held ≡ none)
        × (token.epoch ≤ t.through_epoch)
        × (s.through_epoch ≤ t.through_epoch)
        × (acquire t token cut ≡ ok (t, observation t cut.group))
        × (release_for_group t token group ≡ ok (t, o)) =
      unfold acquire release_for_group in ground arith in
    (
      now.0,
      now.1,
      now.2,
      now.3,
      now.4,
      λ u f. let k = watermark_rises t u v.0 f in (k.1, not_held u token k.0 (omega arith)),
    )
