-- ===== src/Storage/Result.antt =====
-- crates/light-stream-storage/src/lib.rs: what applying a command returns, of the commands that are
-- modelled.
use light_stream.Shared.{List}
use light_stream.Core.Identity.{ProducerRequestId}
use light_stream.Core.Error.{DomainError, Result}
use light_stream.Core.Publish.{PublishReceipt}
use light_stream.Core.Bookmark.{CommittedBookmark, CommittedStreamBookmark}
use light_stream.Core.Checkpoint.{CheckpointCasResult}
use light_stream.Core.Catalog.{StreamDescriptor, BootstrapResult}
use light_stream.Core.Replay.{ReplayLease, RetentionResult, RetentionStatus}
use light_stream.Core.Operations.Fence.{ExportFenceObservation}
use light_stream.Core.Operations.Receipt.{ExportStatus}

pub record PublishItemOutcome : Type 0 where
  pub request : ProducerRequestId
  pub result : Result DomainError PublishReceipt

pub record PublishManyResult : Type 0 where
  pub outcomes : List PublishItemOutcome

pub data ExportApplyResult : Type 0 where
  status : ExportStatus → ExportApplyResult
  fence : ExportFenceObservation → ExportApplyResult

pub data ApplyResult : Type 0 where
  published : PublishReceipt → ApplyResult
  published_many : PublishManyResult → ApplyResult
  checkpoint : CheckpointCasResult → ApplyResult
  bookmark : CommittedBookmark → ApplyResult
  retention : RetentionResult → ApplyResult
  replay_lease : ReplayLease → ApplyResult
  retention_status : RetentionStatus → ApplyResult
  export : ExportApplyResult → ApplyResult
  stream : StreamDescriptor → ApplyResult
  bootstrapped : BootstrapResult → ApplyResult
  stream_bookmark : CommittedStreamBookmark → ApplyResult
  rejected : DomainError → ApplyResult
  noop : ApplyResult
