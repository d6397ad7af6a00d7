-- ===== src/Examples/Catalogs.antt =====
-- A stream of the catalog becomes active.
use light_stream.Shared.{
  ◌≡◌, refl, some, none, [], ◌∷◌, arith, ℕ_discrete, nat_eq, string_eq, ◌==◌, if◌then◌else◌,
}
use light_stream.Core.Error.{ok, err}
use light_stream.Core.Catalog.{StreamDescriptor, StreamLifecycle-discrete, preparing}
use light_stream.Storage.Result.{ApplyResult, noop}
use light_stream.Storage.State.{GroupDb, GroupState, Applied, control, empty_state}
use light_stream.Storage.Catalog.Changes.{
  groups_of, activate_change, answer_change, on_stream, apply_activate_stream,
}
use light_stream.Storage.Catalog.Names.{IsIndexed}
use light_stream.Storage.Catalog.Effects.{Effect}
use light_stream.Storage.Catalog.Commands.{
  activate_stream, run_catalog_command, catalog_command-Effect, catalog_command-IsIndexed,
}
use light_stream.Examples.{group_db, bootstrap_spec}

abbrev db : GroupDb
db = group_db control

abbrev orders : StreamDescriptor
orders = record {
  cluster = 1;
  stream = 7;
  name = "orders";
  lifecycle = preparing;
  placements = record { partition = 0; group = 3 } ∷ record { partition = 1; group = 3 } ∷ [];
  ready_groups = 3 ∷ [];
  revision = 4;
}

abbrev catalog_state : GroupState
catalog_state = record empty_state {
  bootstrap = some bootstrap_spec;
  streams = (7, orders) ∷ [];
  stream_names = λ n. if n == "orders" then some 7 else none;
  catalog_revision = some 4;
}

catalog_state-IsIndexed : IsIndexed catalog_state
catalog_state-IsIndexed = record {
  identified = λ id d h. ground arith;
  named = λ id d h l. ground arith;
  live =
      λ n id h. (orders, (ground arith), (ground arith), (unfold StreamLifecycle-discrete in refl));
}

abbrev activated_state : Applied ApplyResult
activated_state = run_catalog_command db catalog_state (activate_stream 7)

abbrev result_of : Applied ApplyResult → ApplyResult
result_of (ok (result, write)) = result
result_of (err e) = noop

abbrev state_of : Applied ApplyResult → GroupState
state_of (ok (result, write)) = write
state_of (err e) = catalog_state

activated_run : activated_state ≡ ok (result_of activated_state, state_of activated_state)
unfolding apply_activate_stream on_stream activate_change answer_change groups_of ℕ_discrete
    StreamLifecycle-discrete
activated_run = refl

catalog_command-Effect_example : Effect catalog_state 7 none (state_of activated_state)
catalog_command-Effect_example =
    catalog_command-Effect db catalog_state (activate_stream 7) (result_of activated_state)
      (state_of activated_state) activated_run

catalog_command-IsIndexed_example : IsIndexed (state_of activated_state)
catalog_command-IsIndexed_example =
    catalog_command-IsIndexed db catalog_state (activate_stream 7) (result_of activated_state)
      (state_of activated_state) catalog_state-IsIndexed activated_run
