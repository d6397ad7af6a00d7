-- ===== src/Storage/Bootstrap.antt =====
-- crates/light-stream-storage/src/lib.rs: `apply_bootstrap` and `apply_bootstrap_control`.
pub mod Stuck
use light_stream.Shared.{
  ℕ, String, Bool, true, false, Option, some, none, List, [], ◌∷◌, nat_eq, string_eq, set_at, put,
  ◌==◌, ◌||◌, not, if◌then◌else◌,
}
use light_stream.Shared.BTreeSet
use light_stream.Core.Identity.{GroupId}
use light_stream.Core.Error.{bootstrap_conflict, identity_mismatch, invalid_range, Result, ok, err}
use light_stream.Core.Catalog.{
  BootstrapSpec, bootstrap_spec_eq, BootstrapResult, StreamDescriptor, active,
}
use light_stream.Core.Security.{
  SecurityPolicy, security_policy_eq, ClusterTopology, cluster_topology_eq,
}
use light_stream.Core.Operations.Fence.{no_fence}
use light_stream.Storage.Result.{ApplyResult, bootstrapped, rejected}
use light_stream.Storage.State.{
  GroupDb, GroupState, WriteBatch, Applied, GroupKind, control, data_group, unwrap_or,
}

-- CONTROL_GROUP_ID and DATA_GROUP_ID
abbrev pub control_group_id : GroupId
control_group_id = 1

abbrev pub data_group_id : GroupId
data_group_id = 2

-- The command that reached the wrong group.
abbrev pub wrong_group : GroupKind → String
wrong_group control = "control command reached data group"
wrong_group data_group = "data command reached control group"

abbrev pub is_expected : GroupKind → GroupKind → Bool
is_expected control control = true
is_expected data_group data_group = true
is_expected _ _ = false

abbrev pub bootstrap_result : BootstrapSpec → ApplyResult
bootstrap_result spec = bootstrapped (record {
  cluster = spec.cluster;
  stream = spec.stream;
  stream_name = spec.stream_name;
  control_group = control_group_id;
  data_group = data_group_id;
})

-- The puts of the fence, where there is none.
unfoldable pub put_no_fence : GroupState → WriteBatch → WriteBatch
put_no_fence s write = elim s.mutation_fence [
  | some f ↦ write
  | none ↦ record write { mutation_fence = some no_fence }
]

-- The answer to a bootstrap, and whether it is a rejection.
unfoldable pub apply_bootstrap :
    GroupDb → GroupState → BootstrapSpec → GroupKind → WriteBatch → ApplyResult × Bool × WriteBatch
unfolding put_no_fence
apply_bootstrap db s spec expected write =
    if not (is_expected expected db.identity.kind)
    then (rejected (identity_mismatch (wrong_group expected)), true, write)
    else if not (spec.cluster == db.identity.cluster_id)
    then (
      rejected (identity_mismatch "bootstrap cluster does not match the group manifest"),
      true,
      write,
    )
    else elim s.bootstrap [
      | none ↦
          (bootstrap_result spec, false, put_no_fence s (record write { bootstrap = some spec }))
      | some existing ↦
          if existing == spec
          then (bootstrap_result spec, false, put_no_fence s write)
          else (rejected (bootstrap_conflict "bootstrap stream identity differs"), true, write)
    ]

-- The arguments of `BootstrapControl` but for the specification.
pub record ControlSetup : Type 0 where
  pub topology : Option ClusterTopology
  pub security : Option SecurityPolicy
  pub data_groups : List GroupId
  pub max_streams : ℕ
  pub max_partitions : ℕ

-- `data_groups.iter().any(|group| group.get() == CONTROL_GROUP_ID)`
abbrev pub has_control_group : List GroupId → Bool
has_control_group [] = false
has_control_group (g ∷ gs) = g == control_group_id || has_control_group gs

-- `is_some_and(|value| stored.as_ref() != Some(value))`
abbrev pub topology_differs : Option ClusterTopology → Option ClusterTopology → Bool
topology_differs none stored = false
topology_differs (some t) none = true
topology_differs (some t) (some u) = not (u == t)

abbrev pub security_differs : Option SecurityPolicy → Option SecurityPolicy → Bool
security_differs none stored = false
security_differs (some p) none = true
security_differs (some p) (some q) = not (q == p)

-- `!= Some(limit)`
abbrev pub limit_differs : ℕ → Option ℕ → Bool
limit_differs limit none = true
limit_differs limit (some stored) = not (stored == limit)

-- A group whose pool is stored already.
unfoldable pub repeat_setup : GroupState → ControlSetup → List GroupId → ApplyResult → ApplyResult
repeat_setup s setup existing result =
    if not (BTreeSet.equal existing setup.data_groups)
      || (topology_differs setup.topology s.cluster_topology
          || (security_differs setup.security s.security_policy
              || (limit_differs setup.max_streams s.max_streams
                  || limit_differs setup.max_partitions s.max_partitions)))
    then rejected (bootstrap_conflict "bounded group pool or catalog limits differ")
    else result

unfoldable pub put_topology : Option ClusterTopology → WriteBatch → WriteBatch
put_topology none write = write
put_topology (some t) write = record write { cluster_topology = some t }

-- The puts that follow the check of the security policy.
unfoldable pub put_catalog : BootstrapSpec → ControlSetup → GroupId → WriteBatch → WriteBatch
put_catalog spec setup group write = record write {
  max_streams = some setup.max_streams;
  max_partitions = some setup.max_partitions;
  assignment_cursor = some 1;
  catalog_revision = some 1;
  streams =
      put spec.stream
        (record {
          cluster = spec.cluster;
          stream = spec.stream;
          name = spec.stream_name;
          lifecycle = active;
          placements = record { partition = 0; group = group } ∷ [];
          ready_groups = group ∷ [];
          revision = 1;
        })
        write.streams;
  stream_names = set_at write.stream_names spec.stream_name (some spec.stream);
}

-- The pool and the topology are put before the cluster of the security policy is checked.
unfoldable pub set_up :
    BootstrapSpec → ControlSetup → GroupId → ApplyResult → WriteBatch → ApplyResult × WriteBatch
unfolding put_topology
set_up spec setup group result write =
    let begun =
      put_topology setup.topology (record write { data_group_pool = some setup.data_groups }) in
    elim setup.security [
      | none ↦ (result, put_catalog spec setup group begun)
      | some policy ↦
          if not (policy.cluster == spec.cluster)
          then (rejected (identity_mismatch "bootstrap security policy cluster differs"), begun)
          else (
            result,
            put_catalog spec setup group (record begun { security_policy = some policy }),
          )
    ]

unfoldable pub first_setup :
    BootstrapSpec
    → ControlSetup
    → List GroupId
    → ApplyResult
    → WriteBatch
    → ApplyResult × WriteBatch
first_setup spec setup [] result write =
    (rejected (invalid_range "invalid bounded catalog configuration"), write)
first_setup spec setup (group ∷ groups) result write = set_up spec setup group result write

-- After `apply_bootstrap`.
unfoldable pub control_bootstrapped :
    GroupState → BootstrapSpec → ControlSetup → ApplyResult → WriteBatch → ApplyResult × WriteBatch
unfolding first_setup
control_bootstrapped s spec setup result write = elim s.data_group_pool [
  | some existing ↦ (repeat_setup s setup existing result, write)
  | none ↦ first_setup spec setup setup.data_groups result write
]

is_empty : List GroupId → Bool
is_empty [] = true
is_empty (g ∷ gs) = false

-- The limits and the groups that no command accepts.
unfoldable pub is_invalid : ControlSetup → Bool
unfolding is_empty
is_invalid setup =
    is_empty setup.data_groups
    || (setup.max_streams == 0
        || (setup.max_partitions == 0 || has_control_group setup.data_groups))

unfoldable pub apply_bootstrap_control :
    GroupDb → GroupState → BootstrapSpec → ControlSetup → WriteBatch → Applied ApplyResult
apply_bootstrap_control db s spec setup write =
    if is_invalid setup
    then ok (rejected (invalid_range "invalid bounded catalog configuration"), write)
    else (let (result, refused, write') = apply_bootstrap db s spec control write in
        if refused
        then ok (result, write')
        else ok (control_bootstrapped s spec setup result write'))
