-- ===== src/Storage/Publish/Apply/Many.antt =====
-- What every publish of an entry keeps, the entry keeps.
use light_stream.Shared.{
  ℕ, suc, ◌≡◌, ◌⊎◌, inl, inr, sym, subst, List, [], ◌∷◌, arith, nat_eq, Option-cases, Bool-cases,
  checked_add, length, ◌==◌, not, if◌then◌else◌,
}
use light_stream.Core.Error.{DomainError, identity_mismatch, Result, ok, err, Result-cases}
use light_stream.Core.Publish.{PublishBatch, PublishReceipt, ReplicatedPublishBatch}
use light_stream.Core.Catalog.{BootstrapSpec}
use light_stream.Storage.Keys.{LogId}
use light_stream.Storage.Result.{ApplyResult, PublishItemOutcome}
use light_stream.Storage.State.{GroupDb, GroupState, kind-cases}
use light_stream.Storage.Publish.{PublishApplyTxn, publish_txn}
use light_stream.Storage.Publish.Apply.{Published, apply_one, publish_each, apply_publish_many}

-- Every publish keeps what the predicate says of the transaction.
abbrev pub IsStable : GroupDb → GroupState → (PublishApplyTxn → Type 0) → Type 0
IsStable db s P =
    (txn txn' : PublishApplyTxn) (ordinal slot : ℕ) (batch : PublishBatch)
    (result : Result DomainError PublishReceipt)
    → apply_one db s txn ordinal slot batch ≡ ok (result, txn')
    → P txn
    → P txn'

module _ (db : GroupDb) (s : GroupState) (P : PublishApplyTxn → Type 0)
    (stable : IsStable db s P) where
  checked_keeps :
      (txn txn' : PublishApplyTxn) (spec : BootstrapSpec) (ordinal slot : ℕ) (p : PublishBatch)
      (result : Result DomainError PublishReceipt)
      → (if not (p.cluster == spec.cluster)
          then ok (err (identity_mismatch "publish cluster does not match the data group"), txn)
          else apply_one db s txn ordinal slot p)
        ≡ ok (result, txn')
      → P txn
      → P txn'
  checked_keeps txn txn' spec ordinal slot p result h v =
      elim (Bool-cases (p.cluster == spec.cluster)) [
        | inl e ↦ stable txn txn' ordinal slot p result (ground arith) v
        | inr e ↦ (let same : txn' ≡ txn = ground arith in subst P (sym same) v)
      ]

  publish_each_keeps :
      (spec : BootstrapSpec) (txn txn' : PublishApplyTxn) (ordinal slot : ℕ)
      (ps : List PublishBatch) (outcomes : List PublishItemOutcome)
      → publish_each db s spec txn ordinal slot ps ≡ ok (outcomes, txn')
      → P txn
      → P txn'
  unfolding publish_each
  publish_each_keeps spec txn txn' ordinal slot [] outcomes h v =
      let same : txn' ≡ txn = ground arith in subst P (sym same) v
  publish_each_keeps spec txn txn' ordinal slot (p ∷ ps) outcomes h v =
      let one : Published =
        if not (p.cluster == spec.cluster)
        then ok (err (identity_mismatch "publish cluster does not match the data group"), txn)
        else apply_one db s txn ordinal slot p in
      elim (Result-cases one) [
        | inl ((result, t), e) ↦
            (let kept : P t = checked_keeps txn t spec ordinal slot p result e v in
              elim (Option-cases (checked_add slot (length p.records))) [
                | inl f ↦ ground arith
                | inr (slot', f) ↦
                    elim (Result-cases (publish_each db s spec t (suc ordinal) slot' ps)) [
                      | inl ((rest, u), g) ↦
                          (let same : txn' ≡ u = ground arith in
                            subst P (sym same)
                              (publish_each_keeps spec t u (suc ordinal) slot' ps rest g kept))
                      | inr (x, g) ↦ ground arith
                    ]
              ])
        | inr (x, e) ↦ ground arith
      ]

  -- The entry is refused, or its batch is that of a transaction for which the predicate holds.
  pub apply_publish_many_keeps :
      (t : GroupState) (log : LogId) (batch : ReplicatedPublishBatch) (result : ApplyResult)
      → apply_publish_many db s log batch s ≡ ok (result, t)
      → P (publish_txn log s)
      → (t ≡ s) ⊎ ((txn : PublishApplyTxn) × P txn × (t ≡ txn.write))
  apply_publish_many_keeps t log batch result h v = elim (kind-cases db.identity.kind) [
    | inl c ↦ inl (unfold apply_publish_many in ground arith)
    | inr c ↦ elim (Option-cases s.bootstrap) [
      | inl e ↦ inl (unfold apply_publish_many in ground arith)
      | inr (spec, e) ↦
          elim (Result-cases (publish_each db s spec (publish_txn log s) 0 0 batch.requests)) [
            | inl ((outcomes, txn), f) ↦ inr (
              txn,
              publish_each_keeps spec (publish_txn log s) txn 0 0 batch.requests outcomes f v,
              unfold apply_publish_many in ground arith,
            )
            | inr (x, f) ↦ unfold apply_publish_many in ground arith
          ]
    ]
  ]
