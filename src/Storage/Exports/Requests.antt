-- ===== src/Storage/Exports/Requests.antt =====
-- A request for an export is answered again as it was answered.
use light_stream.Shared.{
  ℕ, zero, suc, ◌+◌, ◌-◌, ◌≡◌, ◌≢◌, refl, ◌∙◌, inl, inr, some, none, List, [], ◌∷◌, arith, nat_eq,
  length, checked_add, Option-cases, lookup, delete, lookup-put, lookup-delete,
}
use light_stream.Core.Identity.{MutationRequestId, mutation_request_eq}
use light_stream.Core.Error.{ok, Result-cases}
use light_stream.Core.Operations.{
  ExportDeadline, export_deadline_eq, ExportIntent, ExportFenceToken, fence_token_eq, GroupCut,
  ExportSpec, export_spec, spec_token,
}
use light_stream.Core.Operations.Fence.{MutationFenceState, acquire, release_for_group}
use light_stream.Core.Operations.Active.{ActiveExport, preparing_export}
use light_stream.Core.Operations.Receipt.{
  ExportReceipt, receipt, receipt_phase, ExportStatus, terminal, status_of,
}
use light_stream.Storage.Keys.{LogId}
use light_stream.Storage.State.{GroupDb, GroupState, control, unwrap_or}
use light_stream.Storage.Exports.{
  mutation_fence_state, control_active_export, group_cut, answer_status,
}
use light_stream.Storage.Exports.Commands.{
  start_export, begin_new, begin_checked, begin_finished, begin_active, apply_begin_export,
}
use light_stream.Storage.Exports.Commands.Finish.{
  Receipts, insert_by_epoch, sort_by_epoch, delete_first, evict_export_receipts,
  store_export_receipt, finish_active, apply_finish_export,
}

start_export_lem :
    (s w : GroupState) (spec : ExportSpec) (cut : GroupCut) (st : ExportStatus)
    → start_export s spec cut s ≡ ok (answer_status st, w)
    → (a : ActiveExport) × (w.active_export ≡ some a)
      × (a.spec ≡ spec)
      × (st ≡ status_of a)
      × (w.export_receipts ≡ s.export_receipts)
unfolding start_export
start_export_lem s w spec cut st h =
    elim (Result-cases (acquire (mutation_fence_state s) (spec_token spec) cut)) [
      | inl ((f, o), g) ↦
          (preparing_export spec cut, ground arith, refl, ground arith, ground arith)
      | inr (x, g) ↦ ground arith
    ]

export_spec_lem :
    (intent : ExportIntent) (epoch : ℕ) (groups : List ℕ) (deadline : ExportDeadline)
    (spec : ExportSpec)
    → export_spec intent epoch groups deadline ≡ ok spec
    → (spec.intent ≡ intent) × (spec.deadline ≡ deadline)
unfolding export_spec
export_spec_lem intent epoch groups deadline spec h = ground arith

begin_new_lem :
    (db : GroupDb) (s w : GroupState) (log : LogId) (intent : ExportIntent)
    (deadline : ExportDeadline) (st : ExportStatus)
    → begin_new db s log intent deadline s ≡ ok (answer_status st, w)
    → (a : ActiveExport) × (w.active_export ≡ some a)
      × (a.spec.intent ≡ intent)
      × (a.spec.deadline ≡ deadline)
      × (st ≡ status_of a)
      × (w.export_receipts ≡ s.export_receipts)
unfolding begin_new
begin_new_lem db s w log intent deadline st h = elim (Option-cases s.data_group_pool) [
  | inl a ↦ ground arith
  | inr (groups, a) ↦ elim (Option-cases (checked_add (unwrap_or s.export_epoch 0) 1)) [
    | inl b ↦ ground arith
    | inr (epoch, b) ↦ elim (Result-cases (export_spec intent epoch groups deadline)) [
      | inl (spec, c) ↦ elim (Result-cases (group_cut db log)) [
        | inl (cut, d) ↦
            (let (si, sd) = export_spec_lem intent epoch groups deadline spec c in
              let (x, e1, e2, e3, e4) = start_export_lem s w spec cut st (ground arith) in
              (x, e1, ground arith, ground arith, e3, e4))
        | inr (x, d) ↦ ground arith
      ]
      | inr (x, c) ↦ ground arith
    ]
  ]
]

begin_guards :
    (db : GroupDb) (s w : GroupState) (log : LogId) (intent : ExportIntent)
    (deadline : ExportDeadline) (st : ExportStatus)
    → apply_begin_export db s log intent deadline s ≡ ok (answer_status st, w)
    → (db.identity.kind ≡ control) × (intent.cluster ≡ db.identity.cluster_id)
unfolding apply_begin_export
begin_guards db s w log intent deadline st h = ground arith

begin_when_active :
    (db : GroupDb) (w : GroupState) (later : LogId) (intent : ExportIntent)
    (deadline : ExportDeadline) (a : ActiveExport)
    → db.identity.kind ≡ control
    → intent.cluster ≡ db.identity.cluster_id
    → lookup intent.request w.export_receipts ≡ none
    → w.active_export ≡ some a
    → a.spec.intent ≡ intent
    → a.spec.deadline ≡ deadline
    → apply_begin_export db w later intent deadline w ≡ ok (answer_status (status_of a), w)
unfolding apply_begin_export begin_active
begin_when_active db w later intent deadline a c i l e f g = ground arith

-- A begin command that was answered with a status is answered with that status again, and changes
-- nothing then, at whatever log position it is repeated on the state it left.
pub begin_again :
    (db : GroupDb) (s w : GroupState) (log later : LogId) (intent : ExportIntent)
    (deadline : ExportDeadline) (st : ExportStatus)
    → apply_begin_export db s log intent deadline s ≡ ok (answer_status st, w)
    → apply_begin_export db w later intent deadline w ≡ ok (answer_status st, w)
begin_again db s w log later intent deadline st h =
    elim (Option-cases (lookup intent.request s.export_receipts)) [
      | inr (r, e) ↦ unfold apply_begin_export in ground arith
      | inl e ↦ elim (Option-cases s.active_export) [
        | inr (a, f) ↦ unfold apply_begin_export in ground arith
        | inl f ↦
            (let (c, i) = begin_guards db s w log intent deadline st h in
              let n : begin_new db s log intent deadline s ≡ ok (answer_status st, w) =
                unfold apply_begin_export begin_checked in ground arith in
              let (a, e1, e2, e3, e4, e5) = begin_new_lem db s w log intent deadline st n in
              let b = begin_when_active db w later intent deadline a c i (cc) e1 e2 e3 in cc)
      ]
    ]

delete_first_lem :
    (n : ℕ) (rs kept : Receipts) (k : MutationRequestId)
    → lookup k rs ≡ none
    → lookup k (delete_first n rs kept) ≡ lookup k kept
unfolding delete_first
delete_first_lem zero rs kept k h = refl
delete_first_lem (suc n) [] kept k h = refl
delete_first_lem (suc n) ((j, r) ∷ rs) kept k h =
    ground (arith, delete_first_lem n rs (delete j kept) k, lookup-delete j k kept)

insert_by_epoch_lem :
    (j : MutationRequestId) (r : ExportReceipt) (rs : Receipts) (k : MutationRequestId)
    → j ≢ k
    → lookup k rs ≡ none
    → lookup k (insert_by_epoch j r rs) ≡ none
unfolding insert_by_epoch
insert_by_epoch_lem j r [] k n h = ground arith
insert_by_epoch_lem j r ((i, q) ∷ rs) k n h = ground (arith, insert_by_epoch_lem j r rs k n)

sort_by_epoch_lem :
    (rs : Receipts) (k : MutationRequestId)
    → lookup k rs ≡ none
    → lookup k (sort_by_epoch rs) ≡ none
unfolding sort_by_epoch
sort_by_epoch_lem [] k h = refl
sort_by_epoch_lem ((j, q) ∷ rs) k h =
    ground (arith, sort_by_epoch_lem rs k, insert_by_epoch_lem j q (sort_by_epoch rs) k)

-- The receipt that is stored is not evicted.
evict_lem :
    (db : GroupDb) (s w : GroupState) (k : MutationRequestId)
    → lookup k (evict_export_receipts db s k w).export_receipts ≡ lookup k w.export_receipts
unfolding evict_export_receipts
evict_lem db s w k = ground (
  arith,
  delete_first_lem (length (sort_by_epoch (delete k s.export_receipts)) + 1 - db.receipt_window)
      (sort_by_epoch (delete k s.export_receipts)) w.export_receipts k,
  sort_by_epoch_lem (delete k s.export_receipts) k,
  lookup-delete k k s.export_receipts,
)

evict_active :
    (db : GroupDb) (s w : GroupState) (k : MutationRequestId)
    → (evict_export_receipts db s k w).active_export ≡ w.active_export
unfolding evict_export_receipts
evict_active db s w k = refl

store_lem :
    (db : GroupDb) (s w : GroupState) (r : ExportReceipt) (f : MutationFenceState)
    → ((store_export_receipt db s r f w).active_export ≡ none)
      × (lookup r.request (store_export_receipt db s r f w).export_receipts ≡ some r)
unfolding store_export_receipt
store_lem db s w r f = (
  evict_active db s _ r.request,
  evict_lem db s _ r.request ∙ (lookup-put r.request r.request r w.export_receipts ∙ ground arith),
)

finish_lem :
    (db : GroupDb) (s w : GroupState) (a : ActiveExport) (token : ExportFenceToken)
    (q : ExportReceipt)
    → finish_active db s a token s ≡ ok (answer_status (terminal q), w)
    → (receipt a ≡ ok q) × (w.active_export ≡ none) × (lookup q.request w.export_receipts ≡ some q)
unfolding finish_active
finish_lem db s w a token q h = elim (Result-cases (receipt a)) [
  | inl (x, e) ↦
      elim (Result-cases (release_for_group (mutation_fence_state s) token db.identity.group_id)) [
        | inl ((f, o), c) ↦ ground (arith, store_lem db s s x f)
        | inr (x, c) ↦ ground arith
      ]
  | inr (x, e) ↦ ground arith
]

receipt_lem :
    (a : ActiveExport) (q : ExportReceipt)
    → receipt a ≡ ok q
    → (q.request ≡ a.spec.intent.request)
      × (q.request_digest ≡ a.spec.intent.request_digest)
      × (q.deadline ≡ some a.spec.deadline)
unfolding receipt receipt_phase
receipt_lem a q h = ground arith

begin_when_finished :
    (db : GroupDb) (w : GroupState) (log : LogId) (intent : ExportIntent)
    (deadline : ExportDeadline) (q : ExportReceipt)
    → db.identity.kind ≡ control
    → intent.cluster ≡ db.identity.cluster_id
    → lookup intent.request w.export_receipts ≡ some q
    → q.request_digest ≡ intent.request_digest
    → q.deadline ≡ some deadline
    → apply_begin_export db w log intent deadline w ≡ ok (answer_status (terminal q), w)
unfolding apply_begin_export begin_finished
begin_when_finished db w log intent deadline q c i l d e = ground arith

-- A finish command of the control group that answers the receipt of its active export leaves no
-- export active, and a begin command of that export's intent and deadline, for the group's cluster,
-- is then answered with that receipt and changes nothing: whatever the size of the receipt window.
pub begin-finish :
    (db : GroupDb) (s w : GroupState) (log : LogId) (token : ExportFenceToken) (a : ActiveExport)
    (q : ExportReceipt)
    → db.identity.kind ≡ control
    → a.spec.intent.cluster ≡ db.identity.cluster_id
    → s.active_export ≡ some a
    → apply_finish_export db s token s ≡ ok (answer_status (terminal q), w)
    → (w.active_export ≡ none)
      × (apply_begin_export db w log a.spec.intent a.spec.deadline w
          ≡ ok (answer_status (terminal q), w))
begin-finish db s w log token a q k c e h =
    let g : finish_active db s a token s ≡ ok (answer_status (terminal q), w) =
      unfold apply_finish_export control_active_export in ground arith in
    let (r, n, l) = finish_lem db s w a token q g in
    let (r1, r2, r3) = receipt_lem a q r in
    (n, begin_when_finished db w log a.spec.intent a.spec.deadline q k c (cc) r2 r3)
