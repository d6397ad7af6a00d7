-- ===== src/Core/Operations/Receipt/Outcome.antt =====
-- What a receipt says of the export that it ends.
use light_stream.Shared.BTreeSet
use light_stream.Shared.{◌≡◌, Option, some, none, List}
use light_stream.Core.Identity.{GroupId}
use light_stream.Core.Operations.{QuiescentCut}
use light_stream.Core.Operations.Active.{ActiveExportPhase, cut_of}
use light_stream.Core.Operations.Active.Phases.{artifact_of, abort_of, IsFullCut}
use light_stream.Core.Operations.Receipt.{ExportReceiptOutcome, completed, aborted}

-- The cut that a completed export was made from covers every configured group.
abbrev pub HasFullCut : List GroupId → Option QuiescentCut → Type 0
HasFullCut configured (some c) = IsFullCut configured c
HasFullCut configured none = ⊥

abbrev pub Explains : List GroupId → ActiveExportPhase → ExportReceiptOutcome → Type 0
Explains configured phase (completed i) =
    (artifact_of phase ≡ some i) × HasFullCut configured (cut_of phase)
Explains configured phase (aborted r) = abort_of phase ≡ some r
