-- ===== src/Storage/Publish/Replay.antt =====
-- crates/light-stream-storage/src/lib.rs: `replay_publish` and `replay_publish_many`, which answer
-- publishes while the mutation fence is held.
pub mod Agrees
use light_stream.Shared.{
  String, Bool, true, false, Option, some, none, List, [], ◌∷◌, ◌||◌, if◌then◌else◌,
}
use light_stream.Core.Identity.{ExportId, definite_no_commit}
use light_stream.Core.Error.{DomainError, receipt_expired, export_in_progress, Result, ok, err}
use light_stream.Core.Publish.{PublishBatch, PublishReceipt, ReplicatedPublishBatch}
use light_stream.Storage.Keys.{producer_session_key}
use light_stream.Storage.Result.{
  ApplyResult, published, published_many, rejected, PublishItemOutcome,
}
use light_stream.Storage.State.{GroupDb, GroupState, SessionState, no_session, unwrap_or}
use light_stream.Storage.Sessions.{is_expired}
use light_stream.Storage.Publish.{receipt_key, stored_outcome}

unfoldable pub prior_publish_outcome :
    GroupDb → GroupState → PublishBatch → Option (Result DomainError PublishReceipt)
unfolding stored_outcome
prior_publish_outcome db s batch =
    stored_outcome db (s.receipts (receipt_key batch.partition batch.request)) batch
      (db.fingerprint batch)

abbrev pub stored_session : GroupState → PublishBatch → SessionState
stored_session s batch =
    unwrap_or (s.sessions (producer_session_key batch.partition batch.request)) no_session

answer_publish : Result DomainError PublishReceipt → ApplyResult
answer_publish (ok receipt) = published receipt
answer_publish (err e) = rejected e

unfoldable pub replay_publish : GroupDb → GroupState → PublishBatch → Option ApplyResult
unfolding answer_publish
replay_publish db s batch = elim (prior_publish_outcome db s batch) [
  | some result ↦ some (answer_publish result)
  | none ↦
      if is_expired (stored_session s batch).highest_sequence batch.request.sequence
      then some (rejected receipt_expired)
      else none
]

-- The result of one publish of `replay_publish_many`, and whether it was answered before.
unfoldable pub replay_one :
    GroupDb → GroupState → ExportId → PublishBatch → Result DomainError PublishReceipt × Bool
replay_one db s export batch = elim (prior_publish_outcome db s batch) [
  | some result ↦ (result, true)
  | none ↦
      if is_expired (stored_session s batch).highest_sequence batch.request.sequence
      then (err receipt_expired, true)
      else (err (export_in_progress export definite_no_commit), false)
]

replay_each : GroupDb → GroupState → ExportId → List PublishBatch → List PublishItemOutcome × Bool
replay_each db s export [] = ([], false)
replay_each db s export (p ∷ ps) =
    let (result, replayed) = replay_one db s export p in
    let (outcomes, others) = replay_each db s export ps in
    (record { request = p.request; result = result } ∷ outcomes, replayed || others)

unfoldable pub replay_publish_many :
    GroupDb → GroupState → ReplicatedPublishBatch → ExportId → ApplyResult
unfolding replay_each
replay_publish_many db s batch export =
    let (outcomes, replayed) = replay_each db s export batch.requests in
    if replayed
    then published_many (record { outcomes = outcomes })
    else rejected (export_in_progress export definite_no_commit)
