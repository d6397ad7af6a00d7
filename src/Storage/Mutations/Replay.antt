-- ===== src/Storage/Mutations/Replay.antt =====
-- A mutation request is answered once, and a repeated one by its receipt.
use light_stream.Shared.{
  String, ◌<◌, ◌≡◌, inl, inr, false, some, none, arith, string_eq, ◌==◌, if◌then◌else◌,
  Option-cases,
}
use light_stream.Core.Identity.{MutationRequestId}
use light_stream.Core.Error.{mutation_conflict}
use light_stream.Storage.Result.{ApplyResult, rejected}
use light_stream.Storage.State.{GroupDb, GroupState, WriteBatch}
use light_stream.Storage.Sessions.{advance_window, is_expired}
use light_stream.Storage.Sessions.Window.{IsWindow, advance_window_drops}
use light_stream.Storage.Mutations.{
  mutation_session, prior_mutation_result, put_mutation_receipt, store_mutation_result,
}

fresh_of_prior :
    (s : GroupState) (request : MutationRequestId) (fingerprint : String)
    → prior_mutation_result s request fingerprint ≡ none
    → is_expired (mutation_session s request).highest_sequence request.sequence ≡ false
unfolding prior_mutation_result
fresh_of_prior s request fingerprint h = ground arith

pub prior-store :
    (db : GroupDb) (s : GroupState) (request : MutationRequestId) (fingerprint again : String)
    (result : ApplyResult) (write : WriteBatch)
    → 0 < db.receipt_window
    → IsWindow db.receipt_window (mutation_session s request)
    → prior_mutation_result s request fingerprint ≡ none
    → prior_mutation_result
        (store_mutation_result db s request fingerprint result write)
        request
        again
      ≡ (if fingerprint == again then some result else some (rejected mutation_conflict))
prior-store db s request fingerprint again result write p w h =
    let fresh = fresh_of_prior s request fingerprint h in
    elim (Option-cases
      (advance_window db.receipt_window (mutation_session s request) request.sequence).1) [
        | inl e ↦
            unfold prior_mutation_result store_mutation_result put_mutation_receipt in ground arith
        | inr (d, e) ↦
            unfold prior_mutation_result store_mutation_result put_mutation_receipt in
            ground (
              arith,
              advance_window_drops db.receipt_window (mutation_session s request) request.sequence d
                  p w fresh e,
            )
      ]
