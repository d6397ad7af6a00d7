-- ===== src/Examples.antt =====
-- Concrete groups, states and requests on which the theorems are applied.
mod Publishes
mod Mutations
mod Exports
mod Commands
mod Values
mod Leases
mod Floors
mod Fences
mod Fetches
mod Catalogs
mod Bookmarks
mod Bootstraps
use light_stream.Shared.{ℕ, String, true, false, Option, some, none, List, [], ◌∷◌}
use light_stream.Core.Identity.{PartitionKey, MutationRequestId}
use light_stream.Core.Catalog.{BootstrapSpec}
use light_stream.Storage.Keys.{LogId}
use light_stream.Storage.State.{
  GroupDb, GroupKind, GroupState, empty_state, control, data_group, bank_a,
}

abbrev pub group_db : GroupKind → GroupDb
group_db kind = record {
  identity = record { cluster_id = 1; group_id = 2; kind = kind };
  receipt_window = 2;
  active_bank = bank_a;
  fingerprint = λ b. b.request.principal;
  legacy_fingerprint = λ b. b.request.principal;
  checkpoint_fingerprint = λ m. m.request.principal;
  retention_fingerprint = λ r. r.request.principal;
  admission_fingerprint = λ r. r.request.principal;
  renewal_fingerprint = λ r. r.request.principal;
  release_fingerprint = λ r. r.request.principal;
  replay_lease_id = λ r. r.sequence;
  publish_bookmark_id = λ log n. log.index;
  past_tail_message = λ offset tail. "bookmark offset exceeds committed tail";
}

abbrev pub bootstrap_spec : BootstrapSpec
bootstrap_spec = record { cluster = 1; stream = 7; stream_name = "orders" }

abbrev pub partition_zero : PartitionKey
partition_zero = record { stream = 7; partition = 0 }

abbrev pub entry_log : LogId
entry_log = record { term = 1; node_id = 1; index = 5 }

abbrev pub mutation_one : MutationRequestId
mutation_one = record { principal = "operator"; session = 1; sequence = 1 }

-- A data group that owns every payload, through its Raft log.
abbrev pub data_state : GroupState
data_state = record empty_state {
  bootstrap = some bootstrap_spec;
  payload_owners = λ k.
      some
        (record { raft_log = true; applied_state = false; applied_a = false; applied_b = false });
}
