-- ===== src/Examples/Bootstraps.antt =====
-- The control group whose first bootstrap carries the security policy of another cluster.
use light_stream.Shared.{ℕ_discrete, ◌≡◌, refl, false, some, none, [], ◌∷◌, arith}
use light_stream.Core.Error.{identity_mismatch, DomainError, ok}
use light_stream.Core.Catalog.{BootstrapSpec}
use light_stream.Core.Security.{SecurityPolicy}
use light_stream.Storage.Result.{rejected}
use light_stream.Storage.State.{GroupDb, WriteBatch, control, empty_state}
use light_stream.Storage.Bootstrap.{ControlSetup, is_invalid, apply_bootstrap_control}
use light_stream.Storage.Bootstrap.Stuck.{bootstrap_control_stuck}
use light_stream.Examples.{group_db, bootstrap_spec}

abbrev db : GroupDb
db = group_db control

abbrev policy : SecurityPolicy
policy = record {
  cluster = 9;
  revision = 1;
  revocation_revision = 0;
  grants = [];
  token_verifiers = [];
  peer_certificates = [];
}

abbrev setup : ControlSetup
setup = record {
  topology = none;
  security = some policy;
  data_groups = 2 ∷ 3 ∷ [];
  max_streams = 16;
  max_partitions = 64;
}

is_valid : is_invalid setup ≡ false
unfolding is_invalid ℕ_discrete
is_valid = refl

bootstrap_control_stuck_example :
    (stuck : WriteBatch) × (apply_bootstrap_control db empty_state bootstrap_spec setup empty_state
      ≡ ok (rejected (identity_mismatch "bootstrap security policy cluster differs"), stuck))
    × ((later : BootstrapSpec) (repeated : ControlSetup)
        → (e : DomainError) × (apply_bootstrap_control db stuck later repeated stuck
            ≡ ok (rejected e, stuck)))
bootstrap_control_stuck_example =
    bootstrap_control_stuck db empty_state bootstrap_spec setup policy 2 (3 ∷ []) refl refl refl
      refl refl refl refl (omega arith) is_valid
