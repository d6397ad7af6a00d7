-- ===== src/Core/Error.antt =====
-- crates/light-stream-core/src/error.rs, and Rust's `Result`.
use light_stream.Shared.{ℕ, String, Option, ◌≡◌, refl, ◌⊎◌, inl, inr}
use light_stream.Core.Identity.{
  RecordOffset, ReplayLeaseId, ExportId, AmbiguousRequest, ConsensusGroup, LeaderHint,
  RequestOutcome, ReplayLeaseLifecycle,
}

pub data DomainError : Type 0 where
  invalid_identity : String → String → DomainError
  invalid_name : String → String → DomainError
  invalid_range : String → DomainError
  invalid_payload : String → DomainError
  not_bootstrapped : DomainError
  bootstrap_conflict : String → DomainError
  identity_mismatch : String → DomainError
  receipt_conflict receipt_expired receipt_not_found : DomainError
  storage : String → DomainError
  not_leader : ConsensusGroup → Option LeaderHint → DomainError
  quorum_unavailable : ConsensusGroup → RequestOutcome → Option AmbiguousRequest → DomainError
  cluster_forming stream_not_found stream_not_active stream_name_conflict : DomainError
  bookmark_not_found bookmark_name_conflict checkpoint_not_found : DomainError
  checkpoint_ahead_of_tail : RecordOffset → RecordOffset → DomainError
  checkpoint_regression : RecordOffset → RecordOffset → DomainError
  cursor_expired : RecordOffset → RecordOffset → DomainError
  replay_lease_not_found : ReplayLeaseId → DomainError
  replay_lease_inactive : ReplayLeaseId → ReplayLeaseLifecycle → DomainError
  replay_lease_conflict replay_lease_range_violation : DomainError
  replay_lease_lifetime_exhausted : DomainError
  mutation_conflict mutation_receipt_expired export_conflict : DomainError
  export_in_progress : ExportId → RequestOutcome → DomainError
  lease_clock_unavailable : DomainError
  publish_overloaded : String → ℕ → DomainError
  resource_limit : String → ℕ → DomainError
  security_authentication_failed security_permission_denied : DomainError
  security_policy_conflict security_policy_stale : DomainError
  shutting_down : RequestOutcome → DomainError
  stale_route : DomainError
  unsupported_operation : String → String → DomainError

-- `E` is the error type: `DomainError`, or an `io::Error` as its message.
pub data Result (E A : Type 0) : Type 0 where
  ok : A → Result E A
  err : E → Result E A

abbrev pub IoError : Type 0
IoError = String

-- Rust's `?`.
infixl 5 ◌>>=◌
abbrev pub ◌>>=◌ : {E A B : Type 0} → Result E A → (A → Result E B) → Result E B
ok a >>= f = f a
err e >>= f = err e

-- Option::ok_or
abbrev pub ok_or : {E A : Type 0} → Option A → E → Result E A
ok_or (Option.some a) e = ok a
ok_or Option.none e = err e

pub Result-cases :
    {E A : Type 0} (r : Result E A) → ((a : A) × (r ≡ ok a)) ⊎ ((e : E) × (r ≡ err e))
Result-cases (ok a) = inl (a, refl)
Result-cases (err e) = inr (e, refl)
