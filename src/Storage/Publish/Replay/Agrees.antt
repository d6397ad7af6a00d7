-- ===== src/Storage/Publish/Replay/Agrees.antt =====
-- What a fenced group answers is what it would answer without the fence.
use light_stream.Shared.{
  ℕ, ◌≡◌, ◌⊎◌, refl, inl, inr, true, false, none, arith, nat_eq, Option-cases, Bool-cases,
}
use light_stream.Core.Identity.{ExportId, definite_no_commit}
use light_stream.Core.Error.{export_in_progress, ok, err}
use light_stream.Core.Publish.{PublishBatch}
use light_stream.Storage.Keys.{LogId, producer_session_key}
use light_stream.Storage.State.{GroupDb, GroupState, WriteBatch}
use light_stream.Storage.Sessions.{is_expired}
use light_stream.Storage.Publish.{
  PublishApplyTxn, publish_txn, prior_outcome, session, cache_session, receipt_key,
}
use light_stream.Storage.Publish.Apply.{apply_one, publish_new}
use light_stream.Storage.Publish.Replay.{prior_publish_outcome, stored_session, replay_one}

module _ (db : GroupDb) (s : GroupState) (export : ExportId) (log : LogId) (write : WriteBatch)
    (ordinal slot : ℕ) (batch : PublishBatch) where
  -- A publish for the group's cluster that a fenced group reports as answered before gets the result
  -- that applying it as the first of an entry gives, which writes nothing. One that it does not
  -- report so is refused as an export in progress, has no outcome and is not expired.
  pub replay-apply_one :
      batch.cluster ≡ db.identity.cluster_id
      → (((replay_one db s export batch).1 ≡ true)
          × ((t : PublishApplyTxn) × (apply_one db s (publish_txn log write) ordinal slot batch
                ≡ ok ((replay_one db s export batch).0, t))
              × (t.write ≡ write)))
        ⊎ ((replay_one db s export batch
              ≡ (err (export_in_progress export definite_no_commit), false))
            × (prior_outcome db s
                  (publish_txn log write)
                  batch
                  (receipt_key batch.partition batch.request)
                  (db.fingerprint batch)
                ≡ none)
            × (is_expired (stored_session s batch).highest_sequence batch.request.sequence ≡ false))
  unfolding replay_one prior_publish_outcome prior_outcome apply_one publish_new session
  replay-apply_one c = elim (Option-cases (prior_publish_outcome db s batch)) [
    | inr (r, e) ↦ inl (ground arith, (publish_txn log write, ground arith, refl))
    | inl e ↦
        elim (Bool-cases
          (is_expired (stored_session s batch).highest_sequence batch.request.sequence)) [
            | inl x ↦ inl (
              ground arith,
              (
                cache_session (publish_txn log write)
                    (producer_session_key batch.partition batch.request) (stored_session s batch),
                ground arith,
                refl,
              ),
            )
            | inr x ↦ inr (ground arith, ground arith, x)
          ]
  ]
