-- ===== src/Storage/Mutations.antt =====
-- crates/light-stream-storage/src/lib.rs: the receipts by which a mutation is applied at most once.
pub mod Replay
use light_stream.Shared.{
  ℕ, String, Option, some, none, nat_eq, string_eq, set_at, ◌==◌, if◌then◌else◌,
}
use light_stream.Core.Identity.{MutationRequestId, mutation_request_eq}
use light_stream.Core.Error.{mutation_conflict, mutation_receipt_expired}
use light_stream.Storage.Keys.{session_key_eq, mutation_session_key}
use light_stream.Storage.Result.{ApplyResult, rejected}
use light_stream.Storage.State.{
  GroupDb, GroupState, WriteBatch, SessionState, no_session, StoredMutationReceipt, unwrap_or,
}
use light_stream.Storage.Sessions.{advance_window, is_expired}

-- The session of a mutation request.
abbrev pub mutation_session : GroupState → MutationRequestId → SessionState
mutation_session s request =
    unwrap_or (s.mutation_sessions (mutation_session_key request)) no_session

prior_receipt :
    GroupState → MutationRequestId → Option StoredMutationReceipt → String → Option ApplyResult
prior_receipt s request (some existing) fingerprint =
    if existing.fingerprint == fingerprint
    then some existing.result
    else some (rejected mutation_conflict)
prior_receipt s request none fingerprint =
    if is_expired (mutation_session s request).highest_sequence request.sequence
    then some (rejected mutation_receipt_expired)
    else none

unfoldable pub prior_mutation_result : GroupState → MutationRequestId → String → Option ApplyResult
unfolding prior_receipt
prior_mutation_result s request fingerprint =
    prior_receipt s request (s.mutation_receipts request) fingerprint

abbrev pub Receipts : Type 0
Receipts = MutationRequestId → Option StoredMutationReceipt

-- The receipt of an earlier request of the session is deleted.
unfoldable pub drop_mutation_receipt : MutationRequestId → Option ℕ → Receipts → Receipts
drop_mutation_receipt request none receipts = receipts
drop_mutation_receipt request (some expired) receipts =
    set_at receipts (record request { sequence = expired }) none

-- The receipt is put, and then the one that falls out of the window is deleted.
unfoldable pub put_mutation_receipt :
    MutationRequestId → StoredMutationReceipt → Option ℕ → Receipts → Receipts
unfolding drop_mutation_receipt
put_mutation_receipt request stored dropped receipts =
    drop_mutation_receipt request dropped (set_at receipts request (some stored))

unfoldable pub store_mutation_result :
    GroupDb → GroupState → MutationRequestId → String → ApplyResult → WriteBatch → WriteBatch
store_mutation_result db s request fingerprint result write =
    let advanced = advance_window db.receipt_window (mutation_session s request) request.sequence in
    record write {
      mutation_receipts =
          put_mutation_receipt request (record { fingerprint = fingerprint; result = result })
            advanced.1 write.mutation_receipts;
      mutation_sessions =
          set_at write.mutation_sessions (mutation_session_key request) (some advanced.0);
    }
