-- ===== src/Examples/Values.antt =====
-- Payloads within the limits, clocks and leases.
use light_stream.Shared.{
  ℕ_discrete, ◌≡◌, ◌<◌, ◌≤◌, ◌⊎◌, ◌↔◌, true, false, refl, arith, none, List, [], ◌∷◌, u64_max,
  saturating_add,
}
use light_stream.Shared.BTreeSet
use light_stream.Core.Operations.Selection.{
  max_export_streams, export_selection, sort_streams, insert_stream, has_equal_pair,
}
use light_stream.Core.Operations.Selection.Sorted.{count, export_selection_sound}
use light_stream.Core.Error.{ok}
use light_stream.Core.Publish.{
  Payload, PublishBatch, ReplicatedPublishBatch, validate_records, replicated_publish_batch,
  payload_bytes,
}
use light_stream.Core.Publish.Limits.{
  IsBoundedEach, total_records, total_bytes, validate_records_iff, replicated_publish_batch_iff,
}
use light_stream.Core.Replay.{ReplayLeaseRequest, ReplayLease, admitted}
use light_stream.Storage.Retention.{
  ClockObservation, SafeLeaseClock, AdmissionState, admit, default_limits,
  lease_is_effectively_active,
}
use light_stream.Storage.Retention.Clock.{IsOrdered, Grows, observe, observe_monotone, admit_sound}
use light_stream.Examples.{partition_zero, mutation_one}

abbrev clock : SafeLeaseClock
clock = record { lower_bound = 1000; upper_bound = 1010 }

abbrev request : ReplayLeaseRequest
request = record {
  request = mutation_one;
  cluster = 1;
  range = record { partition = partition_zero; start = 3; end = 8 };
  duration = 60;
  max_bytes = 500;
}

abbrev admission : AdmissionState
admission = record {
  floor = 2;
  tail = 10;
  clock = clock;
  limits = default_limits;
  budget = record { active_leases = 0; reserved_bytes = 0 };
}

abbrev lease : ReplayLease
lease = admitted 12 request 400 1070 901010

admit_sound_example :
    (2 ≤ 3)
    × (8 ≤ 10)
    × (400 ≤ 500)
    × (400 ≤ default_limits.max_lease_bytes)
    × (0 < 256)
    × (saturating_add 0 400 ≤ default_limits.max_group_reserved_lease_bytes)
    × (60 ≤ default_limits.max_lease_duration_ms)
    × (lease_is_effectively_active lease clock ≡ true)
    × (1070 ≤ 901010)
    × (901010 ≤ u64_max)
unfolding admit
admit_sound_example =
    admit_sound 12 request 400 admission lease (omega arith) (omega arith) (omega arith) refl

abbrev observations : List ClockObservation
observations =
    record { lower_bound = 1100; upper_bound = 1105 }
    ∷ record { lower_bound = 900; upper_bound = 950 }
    ∷ []

observe_monotone_example :
    IsOrdered (observe clock observations)
    × Grows clock (observe clock observations)
    × ((lease_is_effectively_active lease clock ≡ true)
        ⊎ (lease_is_effectively_active lease (observe clock observations) ≡ false))
observe_monotone_example =
    observe_monotone clock observations lease (omega arith) (omega arith, (omega arith, tt))

abbrev payloads : List Payload
payloads = (1 ∷ 2 ∷ []) ∷ (3 ∷ []) ∷ []

validate_records_iff_example :
    (validate_records payloads ≡ ok tt)
    ↔ ((0 < 2) × (2 ≤ 128) × IsBoundedEach payloads × (payload_bytes payloads ≤ 8388608))
validate_records_iff_example = validate_records_iff payloads

abbrev batches : List PublishBatch
batches =
    record {
      cluster = 1;
      partition = partition_zero;
      request = record { principal = "producer"; session = 1; sequence = 1 };
      records = payloads;
      bookmark = none;
    }
    ∷ []

abbrev built : ReplicatedPublishBatch
built = record { requests = batches }

replicated_publish_batch_iff_example : (replicated_publish_batch batches ≡ ok built) ↔ (
    (built ≡ built)
    × (0 < 1)
    × (1 ≤ 128)
    × (total_records batches ≤ 1024)
    × (total_bytes batches ≤ 8388608))
replicated_publish_batch_iff_example = replicated_publish_batch_iff batches built

export_selection_sound_example :
    BTreeSet.IsSorted (3 ∷ 5 ∷ 9 ∷ [])
    × (0 < 3)
    × (3 ≤ max_export_streams)
    × (count 5 (3 ∷ 5 ∷ 9 ∷ []) ≡ count 5 (9 ∷ 3 ∷ 5 ∷ []))
    × (count 5 (9 ∷ 3 ∷ 5 ∷ []) ≤ 1)
unfolding export_selection sort_streams insert_stream has_equal_pair ℕ_discrete
export_selection_sound_example = export_selection_sound (9 ∷ 3 ∷ 5 ∷ []) (3 ∷ 5 ∷ 9 ∷ []) 5 refl
