-- ===== src/Storage/Exports/Control.antt =====
-- What the control group keeps of its active export, its fence and its epoch.
use light_stream.Shared.{
  ℕ, ◌≤◌, ◌<◌, ◌≡◌, subst, inl, inr, Option, some, none, List, arith, nat_eq, length, checked_add,
  Option-cases,
}
use light_stream.Core.Identity.{mutation_request_eq}
use light_stream.Core.Error.{ok, Result-cases}
use light_stream.Core.Operations.{
  ExportDeadline, ExportIntent, ExportFenceToken, fence_token_eq, GroupCut, ExportSpec, export_spec,
  spec_token,
}
use light_stream.Core.Operations.Fence.{
  HeldExportFence, MutationFenceState, acquire, acquire_free, release_for_group, release_free,
}
use light_stream.Core.Operations.Active.{ActiveExport}
use light_stream.Core.Operations.Active.Phases.{
  IsValid, Transition, fence, publish, release, transition, here, next, Reach-Keeps,
  preparing_export-IsValid,
}
use light_stream.Core.Operations.Receipt.{receipt}
use light_stream.Storage.Keys.{LogId}
use light_stream.Storage.Result.{ApplyResult}
use light_stream.Storage.State.{GroupDb, GroupState, control, unwrap_or}
use light_stream.Storage.Exports.{
  ExportCommand, begin, acquire_fence, record_group_fence, materialize, publish_made, complete,
  abort, release_fence, record_group_release, finish, mutation_fence_state, control_active_export,
  group_cut, store_active_export, update_active_export,
}
use light_stream.Storage.Exports.Commands.{
  start_export, begin_new, begin_checked, apply_begin_export, apply_acquire_export_fence,
  apply_request_export_completion, apply_request_export_abort, apply_release_export_fence,
}
use light_stream.Storage.Exports.Commands.Finish.{
  evict_export_receipts, store_export_receipt, finish_active, apply_finish_export, apply_export,
}

-- The fence that is held for an export: with its token, newer than every released one, of an epoch
-- that was given out.
abbrev pub IsHeldFor : ActiveExport → Option HeldExportFence → ℕ → ℕ → Type 0
IsHeldFor a (some h) through epoch =
    (h.token ≡ spec_token a.spec) × (through < a.spec.epoch) × (a.spec.epoch ≤ epoch)
IsHeldFor a none through epoch = ⊥

abbrev pub IsAlignedWith : Option ActiveExport → MutationFenceState → ℕ → Type 0
IsAlignedWith (some a) f epoch = IsValid a × IsHeldFor a f.held f.through_epoch epoch
IsAlignedWith none f epoch = (f.held ≡ none) × (f.through_epoch ≤ epoch)

-- An export is active exactly while the fence is held, and then for it.
abbrev pub IsAligned : GroupState → Type 0
IsAligned s = IsAlignedWith s.active_export (mutation_fence_state s) (unwrap_or s.export_epoch 0)

at_export :
    (s : GroupState) (o : Option ActiveExport)
    → s.active_export ≡ o
    → IsAligned s
    → IsAlignedWith o (mutation_fence_state s) (unwrap_or s.export_epoch 0)
at_export s o e v =
    subst (λ o. IsAlignedWith o (mutation_fence_state s) (unwrap_or s.export_epoch 0)) e v

store_active-IsAligned :
    (s w : GroupState) (a : ActiveExport) (t : Transition) (r : ApplyResult)
    → s.active_export ≡ some a
    → IsAligned s
    → store_active_export (transition t a) s ≡ ok (r, w)
    → IsAligned w
unfolding store_active_export
store_active-IsAligned s w a t r e v h =
    let v' = at_export s (some a) e v in
    elim (Result-cases (transition t a)) [
      | inl (b, f) ↦
          (let k = Reach-Keeps a b v'.0 (next t here f) in
            let spec = k.spec in let valid = k.valid in ground arith)
      | inr (x, f) ↦ ground arith
    ]

update_active-IsAligned :
    (db : GroupDb) (s w : GroupState) (token : ExportFenceToken) (t : Transition) (r : ApplyResult)
    → db.identity.kind ≡ control
    → IsAligned s
    → update_active_export db s token (transition t) s ≡ ok (r, w)
    → IsAligned w
unfolding update_active_export control_active_export
update_active-IsAligned db s w token t r c v h = elim (Option-cases s.active_export) [
  | inl e ↦ ground arith
  | inr (a, e) ↦ ground (arith, store_active-IsAligned s w a t r e v)
]

start_export-IsAligned :
    (s w : GroupState) (spec : ExportSpec) (cut : GroupCut) (r : ApplyResult)
    → s.active_export ≡ none
    → 0 < length spec.configured_data_groups
    → unwrap_or s.export_epoch 0 < spec.epoch
    → IsAligned s
    → start_export s spec cut s ≡ ok (r, w)
    → IsAligned w
unfolding start_export
start_export-IsAligned s w spec cut r e n p v h =
    let v' = at_export s none e v in
    let valid = preparing_export-IsValid spec cut n in
    elim (Result-cases (acquire (mutation_fence_state s) (spec_token spec) cut)) [
      | inl ((f, o), g) ↦
          (let q =
              acquire_free (mutation_fence_state s) f (spec_token spec) cut o v'.0 (omega arith)
                g in
            ground arith)
      | inr (x, g) ↦ ground arith
    ]

export_spec_lem :
    (intent : ExportIntent) (epoch : ℕ) (groups : List ℕ) (deadline : ExportDeadline)
    (spec : ExportSpec)
    → export_spec intent epoch groups deadline ≡ ok spec
    → (spec.epoch ≡ epoch) × (0 < length spec.configured_data_groups)
unfolding export_spec
export_spec_lem intent epoch groups deadline spec h = ground arith

begin_new-IsAligned :
    (db : GroupDb) (s w : GroupState) (log : LogId) (intent : ExportIntent)
    (deadline : ExportDeadline) (r : ApplyResult)
    → s.active_export ≡ none
    → IsAligned s
    → begin_new db s log intent deadline s ≡ ok (r, w)
    → IsAligned w
unfolding begin_new
begin_new-IsAligned db s w log intent deadline r e v h = elim (Option-cases s.data_group_pool) [
  | inl a ↦ ground arith
  | inr (groups, a) ↦ elim (Option-cases (checked_add (unwrap_or s.export_epoch 0) 1)) [
    | inl b ↦ ground arith
    | inr (epoch, b) ↦ elim (Result-cases (export_spec intent epoch groups deadline)) [
      | inl (spec, c) ↦ elim (Result-cases (group_cut db log)) [
        | inl (cut, d) ↦
            (let (se, sl) = export_spec_lem intent epoch groups deadline spec c in
              start_export-IsAligned s w spec cut r e sl (ground arith) v (ground arith))
        | inr (x, d) ↦ ground arith
      ]
      | inr (x, c) ↦ ground arith
    ]
  ]
]

apply_begin-IsAligned :
    (db : GroupDb) (s w : GroupState) (log : LogId) (intent : ExportIntent)
    (deadline : ExportDeadline) (r : ApplyResult)
    → IsAligned s
    → apply_begin_export db s log intent deadline s ≡ ok (r, w)
    → IsAligned w
unfolding apply_begin_export begin_checked
apply_begin-IsAligned db s w log intent deadline r v h = elim (Option-cases s.active_export) [
  | inl e ↦ ground (arith, begin_new-IsAligned db s w log intent deadline r e v)
  | inr (a, e) ↦ ground arith
]

finish-IsAligned :
    (db : GroupDb) (s w : GroupState) (a : ActiveExport) (token : ExportFenceToken)
    (r : ApplyResult)
    → s.active_export ≡ some a
    → IsAligned s
    → finish_active db s a token s ≡ ok (r, w)
    → IsAligned w
unfolding finish_active store_export_receipt evict_export_receipts
finish-IsAligned db s w a token r e v h =
    let v' = at_export s (some a) e v in
    elim (Result-cases (receipt a)) [
      | inl (q, b) ↦
          elim (Result-cases
            (release_for_group (mutation_fence_state s) token db.identity.group_id)) [
              | inl ((f, o), c) ↦
                  (let q = release_free (mutation_fence_state s) f token db.identity.group_id o c in
                    ground arith)
              | inr (x, c) ↦ ground arith
            ]
      | inr (x, b) ↦ ground arith
    ]

-- A command of an export that the control group applies, and that begins on the state itself, keeps
-- this: an export is active exactly while the mutation fence is held; it is then valid, the fence is
-- held with its token, and its epoch is newer than every released one and not above the last epoch
-- that was given out.
pub apply_export-IsAligned :
    (db : GroupDb) (s w : GroupState) (log : LogId) (c : ExportCommand) (r : ApplyResult)
    → db.identity.kind ≡ control
    → IsAligned s
    → apply_export db s log c s ≡ ok (r, w)
    → IsAligned w
unfolding apply_export
apply_export-IsAligned db s w log (begin intent deadline) r k v h =
    apply_begin-IsAligned db s w log intent deadline r v h
apply_export-IsAligned db s w log (acquire_fence token) r k v h =
    unfold apply_acquire_export_fence in ground arith
apply_export-IsAligned db s w log (record_group_fence token o) r k v h =
    update_active-IsAligned db s w token (fence o) r k v h
apply_export-IsAligned db s w log (materialize token) r k v h =
    update_active-IsAligned db s w token Transition.materialize r k v h
apply_export-IsAligned db s w log (publish_made token artifact cut) r k v h =
    update_active-IsAligned db s w token (publish artifact cut) r k v h
apply_export-IsAligned db s w log (complete request id artifact) r k v h =
    unfold apply_request_export_completion control_active_export in
    elim (Option-cases s.active_export) [
      | inl e ↦ ground arith
      | inr (a, e) ↦
          ground (arith, store_active-IsAligned s w a (Transition.complete artifact) r e v)
    ]
apply_export-IsAligned db s w log (abort request reason clock) r k v h =
    unfold apply_request_export_abort control_active_export in
    elim (Option-cases s.active_export) [
      | inl e ↦ ground arith
      | inr (a, e) ↦ ground (arith, store_active-IsAligned s w a (Transition.abort reason) r e v)
    ]
apply_export-IsAligned db s w log (release_fence token) r k v h =
    unfold apply_release_export_fence in ground arith
apply_export-IsAligned db s w log (record_group_release token o) r k v h =
    update_active-IsAligned db s w token (release o) r k v h
apply_export-IsAligned db s w log (finish token) r k v h =
    unfold apply_finish_export control_active_export in
    elim (Option-cases s.active_export) [
      | inl e ↦ ground arith
      | inr (a, e) ↦ ground (arith, finish-IsAligned db s w a token r e v)
    ]
