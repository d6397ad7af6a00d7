-- ===== src/Storage/Bootstrap/Stuck.antt =====
-- crates/light-stream-storage/src/lib.rs, `apply_bootstrap_control`: a security policy of another cluster.
use light_stream.Shared.{
  ◌≡◌, ◌≢◌, refl, ◌∙◌, ◌⊎◌, inl, inr, true, false, Bool-cases, Option-cases, none, some, List, ◌∷◌,
  nat_eq, ◌==◌, arith,
}
use light_stream.Core.Identity.{GroupId}
use light_stream.Core.Error.{DomainError, identity_mismatch, bootstrap_conflict, invalid_range, ok}
use light_stream.Core.Catalog.{BootstrapSpec, bootstrap_spec_eq}
use light_stream.Core.Security.{SecurityPolicy}
use light_stream.Core.Operations.Fence.{MutationFenceState, no_fence}
use light_stream.Storage.Result.{ApplyResult, rejected}
use light_stream.Storage.State.{GroupDb, GroupState, WriteBatch, kind-cases, control}
use light_stream.Storage.Bootstrap.{
  wrong_group, bootstrap_result, put_no_fence, is_invalid, apply_bootstrap, ControlSetup,
  repeat_setup, put_topology, set_up, first_setup, control_bootstrapped, apply_bootstrap_control,
}

-- A group that has a specification, a fence and a pool, but no limit of streams.
abbrev IsHalf : GroupState → Type 0
IsHalf s =
    ((b : BootstrapSpec) × (s.bootstrap ≡ some b))
    × ((f : MutationFenceState) × (s.mutation_fence ≡ some f))
    × ((p : List GroupId) × (s.data_group_pool ≡ some p))
    × (s.max_streams ≡ none)

-- The answer refuses the command.
abbrev pub IsRejected : ApplyResult → Type 0
IsRejected r = (e : DomainError) × (r ≡ rejected e)

half_repeats :
    (s : GroupState) (setup : ControlSetup) (existing : List GroupId) (result : ApplyResult)
    → s.max_streams ≡ none
    → IsRejected (repeat_setup s setup existing result)
unfolding repeat_setup
half_repeats s setup existing result h =
    (bootstrap_conflict "bounded group pool or catalog limits differ", (ground arith))

half_bootstraps :
    (db : GroupDb) (s : GroupState) (spec : BootstrapSpec)
    → IsHalf s
    → ((e : DomainError) × (apply_bootstrap db s spec control s ≡ (rejected e, true, s)))
      ⊎ (apply_bootstrap db s spec control s ≡ (bootstrap_result spec, false, s))
unfolding apply_bootstrap
half_bootstraps db s spec ((b, h), (f, g), (p, k), m) = elim (kind-cases db.identity.kind) [
  | inr e ↦ inl (identity_mismatch (wrong_group control), (ground arith))
  | inl e ↦ elim (Bool-cases (spec.cluster == db.identity.cluster_id)) [
    | inr c ↦
        inl
          (identity_mismatch "bootstrap cluster does not match the group manifest", (ground arith))
    | inl c ↦ elim (Bool-cases (b == spec)) [
      | inr d ↦ inl (bootstrap_conflict "bootstrap stream identity differs", (ground arith))
      | inl d ↦ inr (ground arith)
    ]
  ]
]

-- A first bootstrap.
bootstraps :
    (db : GroupDb) (s : GroupState) (spec : BootstrapSpec)
    → db.identity.kind ≡ control
    → spec.cluster ≡ db.identity.cluster_id
    → s.bootstrap ≡ none
    → (write : WriteBatch) × (apply_bootstrap db s spec control s
        ≡ (bootstrap_result spec, false, write))
      × ((b : BootstrapSpec) × (write.bootstrap ≡ some b))
      × ((f : MutationFenceState) × (write.mutation_fence ≡ some f))
      × (write.max_streams ≡ s.max_streams)
unfolding apply_bootstrap put_no_fence
bootstraps db s spec k c n = elim (Option-cases s.mutation_fence) [
  | inl e ↦ (
    record s { bootstrap = some spec; mutation_fence = some no_fence },
    (ground arith),
    (spec, refl),
    (no_fence, refl),
    refl,
  )
  | inr (fence, e) ↦
      (record s { bootstrap = some spec }, (ground arith), (spec, refl), (fence, e), refl)
]

-- What the refused command has put.
set_up-IsHalf :
    (spec : BootstrapSpec) (setup : ControlSetup) (policy : SecurityPolicy) (group : GroupId)
    (result : ApplyResult) (write : WriteBatch)
    → ((b : BootstrapSpec) × (write.bootstrap ≡ some b))
    → ((f : MutationFenceState) × (write.mutation_fence ≡ some f))
    → write.max_streams ≡ none
    → setup.security ≡ some policy
    → policy.cluster ≢ spec.cluster
    → (half : WriteBatch) × (set_up spec setup group result write
        ≡ (rejected (identity_mismatch "bootstrap security policy cluster differs"), half))
      × IsHalf half
unfolding set_up put_topology
set_up-IsHalf spec setup policy group result write b f m q d = elim (Option-cases setup.topology) [
  | inl e ↦ (
    record write { data_group_pool = some setup.data_groups },
    (ground arith),
    (b, f, (setup.data_groups, refl), m),
  )
  | inr (t, e) ↦ (
    record write { data_group_pool = some setup.data_groups; cluster_topology = some t },
    (ground arith),
    (b, f, (setup.data_groups, refl), m),
  )
]

apply_bootstrap_control-IsHalf :
    (db : GroupDb) (s : GroupState) (spec : BootstrapSpec) (setup : ControlSetup)
    (policy : SecurityPolicy) (group : GroupId) (groups : List GroupId)
    → db.identity.kind ≡ control
    → spec.cluster ≡ db.identity.cluster_id
    → s.bootstrap ≡ none
    → s.data_group_pool ≡ none
    → s.max_streams ≡ none
    → setup.data_groups ≡ group ∷ groups
    → setup.security ≡ some policy
    → policy.cluster ≢ spec.cluster
    → is_invalid setup ≡ false
    → (half : WriteBatch) × (apply_bootstrap_control db s spec setup s
        ≡ ok (rejected (identity_mismatch "bootstrap security policy cluster differs"), half))
      × IsHalf half
apply_bootstrap_control-IsHalf db s spec setup policy group groups k c n p m g q d i =
    let (write, h, b, f, w) = bootstraps db s spec k c n in
    let (half, u, v) =
      set_up-IsHalf spec setup policy group (bootstrap_result spec) write b f (w ∙ m) q d in
    unfold apply_bootstrap_control control_bootstrapped first_setup in (half, (ground arith), v)

half_refuses :
    (db : GroupDb) (s : GroupState) (spec : BootstrapSpec) (setup : ControlSetup)
    → IsHalf s
    → (e : DomainError) × (apply_bootstrap_control db s spec setup s ≡ ok (rejected e, s))
half_refuses db s spec setup v =
    let (b, f, (pool, k), m) = v in
    elim (Bool-cases (is_invalid setup)) [
      | inl e ↦
          unfold apply_bootstrap_control in
          (invalid_range "invalid bounded catalog configuration", (ground arith))
      | inr e ↦ elim (half_bootstraps db s spec v) [
        | inl (x, g) ↦ unfold apply_bootstrap_control in (x, (ground arith))
        | inr g ↦
            let (x, r) = half_repeats s setup pool (bootstrap_result spec) m in
            unfold apply_bootstrap_control control_bootstrapped in (x, (ground arith))
      ]
    ]

-- On a control group without a specification, a pool and a limit of streams, a bootstrap with a valid configuration
-- whose specification has the group's cluster, and whose security policy names another cluster than the
-- specification, is refused for that policy, and what it has written is a state in which every bootstrap
-- of the control group, whatever its specification and its setup, is refused and changes nothing.
pub bootstrap_control_stuck :
    (db : GroupDb) (s : GroupState) (spec : BootstrapSpec) (setup : ControlSetup)
    (policy : SecurityPolicy) (group : GroupId) (groups : List GroupId)
    → db.identity.kind ≡ control
    → spec.cluster ≡ db.identity.cluster_id
    → s.bootstrap ≡ none
    → s.data_group_pool ≡ none
    → s.max_streams ≡ none
    → setup.data_groups ≡ group ∷ groups
    → setup.security ≡ some policy
    → policy.cluster ≢ spec.cluster
    → is_invalid setup ≡ false
    → (stuck : WriteBatch) × (apply_bootstrap_control db s spec setup s
        ≡ ok (rejected (identity_mismatch "bootstrap security policy cluster differs"), stuck))
      × ((later : BootstrapSpec) (repeated : ControlSetup)
          → (e : DomainError) × (apply_bootstrap_control db stuck later repeated stuck
              ≡ ok (rejected e, stuck)))
bootstrap_control_stuck db s spec setup policy group groups k c n p m g q d i =
    let (half, u, v) =
      apply_bootstrap_control-IsHalf db s spec setup policy group groups k c n p m g q d i in
    (half, u, (λ later repeated. half_refuses db half later repeated v))
