-- ===== src/Storage/Dispatch/Frozen.antt =====
-- crates/light-stream-storage/src/lib.rs, `apply_command`: what a logical export reads stays as it is while
-- the mutation fence is held.
use light_stream.Shared.{
  ℕ, ◌≡◌, ◌∙◌, inl, inr, String, true, false, Option-cases, Option, List, [], nat_eq, lookup,
  checked_add, arith,
}
use light_stream.Core.Identity.{
  StreamId, GroupId, BookmarkId, PartitionKey, partition_key_eq, MutationRequestId,
}
use light_stream.Core.Error.{Result-cases, ok}
use light_stream.Core.Bookmark.{CommittedBookmark, CommittedStreamBookmark}
use light_stream.Core.Catalog.{StreamDescriptor, BootstrapSpec}
use light_stream.Core.Operations.Active.{ActiveExport}
use light_stream.Core.Publish.{Payload}
use light_stream.Core.Replay.{ReplayLeaseRequest, ReplayLease, LeaseRenewal, LeaseRelease, renewed}
use light_stream.Storage.Keys.{
  RecordKey, PayloadKey, ReceiptKey, BookmarkNameKey, BookmarkOrderKey, StreamBookmarkNameKey,
  StreamBookmarkOrderKey,
}
use light_stream.Storage.Result.{ApplyResult}
use light_stream.Storage.State.{
  GroupDb, GroupState, WriteBatch, StoredRecord, StoredPublishOutcome, PayloadOwners, unwrap_or,
}
use light_stream.Storage.Mutations.{prior_mutation_result, store_mutation_result}
use light_stream.Storage.Retention.{
  ClockObservation, SafeLeaseClock, PartitionRetentionState, default_limits, admit,
}
use light_stream.Storage.Leases.{
  is_fenced, stored_retention, Expiry, put_retentions, write_expiry, expire_due_leases,
  advance_lease_clock, replay_range_bytes, no_budget,
}
use light_stream.Storage.Leases.Expired.{expire_fenced}
use light_stream.Storage.Leases.Commands.{
  admit_expired, admit_clocked, apply_admit_replay_lease, renew_active, renew_clocked,
  apply_renew_replay_lease, reopen_released, release_active, release_clocked,
  apply_release_replay_lease,
}
use light_stream.Storage.Dispatch.{command_fence_class_eq}

-- What a logical export reads of a group: records with their payloads and owners, tails, retention states,
-- streams with their names, bookmarks with their indices and publication counters, the outcomes of
-- publishes, the catalog's revision, assignment cursor, limits and pool, the specification of the group
-- and the active export.
pub record Exported : Type 0 where
  pub records : RecordKey → Option StoredRecord
  pub payloads : PayloadKey → Option Payload
  pub payload_owners : PayloadKey → Option PayloadOwners
  pub next_offset : PartitionKey → Option ℕ
  pub retention : PartitionKey → Option PartitionRetentionState
  pub receipts : ReceiptKey → Option StoredPublishOutcome
  pub streams : List (StreamId × StreamDescriptor)
  pub bookmark_ids : BookmarkId → Option CommittedBookmark
  pub bookmark_names : BookmarkNameKey → Option BookmarkId
  pub bookmark_order : BookmarkOrderKey → Option CommittedBookmark
  pub stream_bookmark_ids : BookmarkId → Option CommittedStreamBookmark
  pub bookmark_publications : PartitionKey → Option ℕ
  pub stream_bookmark_names : StreamBookmarkNameKey → Option BookmarkId
  pub stream_bookmark_order : StreamBookmarkOrderKey → Option CommittedStreamBookmark
  pub stream_bookmark_publications : StreamId → Option ℕ
  pub stream_names : String → Option StreamId
  pub catalog_revision : Option ℕ
  pub assignment_cursor : Option ℕ
  pub max_streams : Option ℕ
  pub max_partitions : Option ℕ
  pub data_group_pool : Option (List GroupId)
  pub bootstrap : Option BootstrapSpec
  pub active_export : Option ActiveExport

abbrev pub exported : GroupState → Exported
exported s = record {
  records = s.records;
  payloads = s.payloads;
  payload_owners = s.payload_owners;
  next_offset = s.next_offset;
  retention = s.retention;
  receipts = s.receipts;
  streams = s.streams;
  bookmark_ids = s.bookmark_ids;
  bookmark_names = s.bookmark_names;
  bookmark_order = s.bookmark_order;
  stream_bookmark_ids = s.stream_bookmark_ids;
  bookmark_publications = s.bookmark_publications;
  stream_bookmark_names = s.stream_bookmark_names;
  stream_bookmark_order = s.stream_bookmark_order;
  stream_bookmark_publications = s.stream_bookmark_publications;
  stream_names = s.stream_names;
  catalog_revision = s.catalog_revision;
  assignment_cursor = s.assignment_cursor;
  max_streams = s.max_streams;
  max_partitions = s.max_partitions;
  data_group_pool = s.data_group_pool;
  bootstrap = s.bootstrap;
  active_export = s.active_export;
}

-- What is exported is as it was, and so is the fence.
abbrev pub IsFrozen : GroupState → WriteBatch → Type 0
IsFrozen s write = (exported write ≡ exported s) × (write.mutation_fence ≡ s.mutation_fence)

store-IsFrozen :
    (db : GroupDb) (s t : GroupState) (request : MutationRequestId) (fingerprint : String)
    (result : ApplyResult) (write : WriteBatch)
    → IsFrozen t write
    → IsFrozen t (store_mutation_result db s request fingerprint result write)
unfolding store_mutation_result
store-IsFrozen db s t request fingerprint result write v = v

expire-IsFrozen :
    (s : GroupState) (clock : SafeLeaseClock)
    → is_fenced s ≡ true
    → IsFrozen s (expire_due_leases s clock s).1
unfolding expire_due_leases write_expiry put_retentions
expire-IsFrozen s clock h =
    let gathered =
      expire_fenced s clock s.leases
        (record {
          leases = s.leases;
          budget = unwrap_or s.lease_budget no_budget;
          active = [];
          retentions = [];
          reclaim_hints = [];
          expired_any = false;
        })
        h in
    (ground arith, ground arith)

admit_expired-IsFrozen :
    (db : GroupDb) (s : GroupState) (request : ReplayLeaseRequest) (clock : SafeLeaseClock)
    (x : Expiry) (write : WriteBatch)
    → IsFrozen write (admit_expired db s request clock x write).1
unfolding admit_expired
admit_expired-IsFrozen db s request clock x write =
    let retention = stored_retention s request.range.partition in
    elim (Result-cases (replay_range_bytes s request retention)) [
      | inr (m, e) ↦ ground arith
      | inl (bytes, e) ↦
          elim (Result-cases (
            admit (db.replay_lease_id request.request) request bytes (record {
              floor = retention.logical_floor;
              tail = unwrap_or (s.next_offset request.range.partition) 0;
              clock = clock;
              limits = default_limits;
              budget = x.budget;
            }))) [ inr (m, f) ↦ ground arith | inl (lease, f) ↦ ground arith ]
    ]

renew_active-IsFrozen :
    (request : LeaseRenewal) (clock : SafeLeaseClock) (lease : ReplayLease) (write : WriteBatch)
    → IsFrozen write (renew_active request clock lease write).1
unfolding renew_active
renew_active-IsFrozen request clock lease write =
    elim (Option-cases (checked_add clock.upper_bound request.duration)) [
      | inl e ↦ ground arith
      | inr (at, e) ↦ elim (Result-cases (renewed lease at lease.hard_expires_at)) [
        | inr (m, f) ↦ ground arith
        | inl (lease', f) ↦ ground arith
      ]
    ]

release_active-IsFrozen :
    (s : GroupState) (request : LeaseRelease) (clock : SafeLeaseClock) (lease : ReplayLease)
    (x : Expiry) (write : WriteBatch)
    → is_fenced s ≡ true
    → IsFrozen write (release_active s request clock lease x write).1
unfolding release_active reopen_released
release_active-IsFrozen s request clock lease x write h = ground arith

IsFrozen-trans : (s t u : GroupState) → IsFrozen s t → IsFrozen t u → IsFrozen s u
IsFrozen-trans s t u a b = (b.0 ∙ a.0, b.1 ∙ a.1)

module _ (db : GroupDb) (s : GroupState) (h : is_fenced s ≡ true) where
  pub admit-IsFrozen :
      (request : ReplayLeaseRequest) (o : ClockObservation) (result : ApplyResult)
      (write : WriteBatch)
      → apply_admit_replay_lease db s request o s ≡ ok (result, write)
      → IsFrozen s write
  admit-IsFrozen request o result write e =
      elim (Option-cases
        (prior_mutation_result s request.request (db.admission_fingerprint request))) [
          | inr (r, f) ↦ unfold apply_admit_replay_lease in ground arith
          | inl f ↦ elim (Result-cases (advance_lease_clock s o)) [
            | inr (m, g) ↦
                unfold apply_admit_replay_lease admit_clocked store_mutation_result in ground arith
            | inl (clock, g) ↦
                let x = expire_due_leases s clock s in
                let kept =
                  IsFrozen-trans s x.1 (admit_expired db s request clock x.0 x.1).1
                    (expire-IsFrozen s clock h)
                    (admit_expired-IsFrozen db s request clock x.0 x.1) in
                unfold apply_admit_replay_lease admit_clocked store_mutation_result in ground arith
          ]
        ]

  renew_clocked-IsFrozen :
      (request : LeaseRenewal) (clock : SafeLeaseClock)
      → IsFrozen s (renew_clocked s request (ok clock) s).1
  renew_clocked-IsFrozen request clock =
      let x = expire_due_leases s clock s in
      let before = expire-IsFrozen s clock h in
      elim (Option-cases (lookup request.lease s.leases)) [
        | inl e ↦ unfold renew_clocked in ground arith
        | inr (lease, e) ↦
            let kept =
              IsFrozen-trans s x.1 (renew_active request clock lease x.1).1 before
                (renew_active-IsFrozen request clock lease x.1) in
            unfold renew_clocked in ground arith
      ]

  pub renew-IsFrozen :
      (request : LeaseRenewal) (o : ClockObservation) (result : ApplyResult) (write : WriteBatch)
      → apply_renew_replay_lease db s request o s ≡ ok (result, write)
      → IsFrozen s write
  renew-IsFrozen request o result write e =
      elim (Option-cases
        (prior_mutation_result s request.request (db.renewal_fingerprint request))) [
          | inr (r, f) ↦ unfold apply_renew_replay_lease in ground arith
          | inl f ↦ elim (Result-cases (advance_lease_clock s o)) [
            | inr (m, g) ↦
                unfold apply_renew_replay_lease renew_clocked store_mutation_result in ground arith
            | inl (clock, g) ↦
                let kept = renew_clocked-IsFrozen request clock in
                unfold apply_renew_replay_lease store_mutation_result in ground arith
          ]
        ]

  release_clocked-IsFrozen :
      (request : LeaseRelease) (clock : SafeLeaseClock)
      → IsFrozen s (release_clocked s request (ok clock) s).1
  release_clocked-IsFrozen request clock =
      let x = expire_due_leases s clock s in
      let before = expire-IsFrozen s clock h in
      elim (Option-cases (lookup request.lease s.leases)) [
        | inl e ↦ unfold release_clocked in ground arith
        | inr (lease, e) ↦
            let kept =
              IsFrozen-trans s x.1 (release_active s request clock lease x.0 x.1).1 before
                (release_active-IsFrozen s request clock lease x.0 x.1 h) in
            unfold release_clocked in ground arith
      ]

  pub release-IsFrozen :
      (request : LeaseRelease) (o : ClockObservation) (result : ApplyResult) (write : WriteBatch)
      → apply_release_replay_lease db s request o s ≡ ok (result, write)
      → IsFrozen s write
  release-IsFrozen request o result write e =
      elim (Option-cases
        (prior_mutation_result s request.request (db.release_fingerprint request))) [
          | inr (r, f) ↦ unfold apply_release_replay_lease in ground arith
          | inl f ↦ elim (Result-cases (advance_lease_clock s o)) [
            | inr (m, g) ↦
                unfold apply_release_replay_lease release_clocked store_mutation_result in
                ground arith
            | inl (clock, g) ↦
                let kept = release_clocked-IsFrozen request clock in
                unfold apply_release_replay_lease store_mutation_result in ground arith
          ]
        ]
