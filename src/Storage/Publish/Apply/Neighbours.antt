-- ===== src/Storage/Publish/Apply/Neighbours.antt =====
-- The end positions of the records before a publish and of those that it writes.
use light_stream.Shared.{
  ℕ, suc, zero, ◌+◌, ◌<◌, ◌≡◌, ◌⊎◌, refl, ap, ◌∙◌, inl, inr, Option, some, List, [], ◌∷◌, arith,
  nat_eq, length, get_elem?, take,
}
use light_stream.Core.Identity.{partition_key_eq}
use light_stream.Core.Publish.{Payload, payload_bytes}
use light_stream.Storage.State.{StoredRecord}

payload_bytes-take :
    (rs : List Payload) (i : ℕ) (r : Payload)
    → get_elem? rs i ≡ some r
    → payload_bytes (take (suc i) rs) ≡ payload_bytes (take i rs) + length r
unfolding payload_bytes
payload_bytes-take [] i r h = ground arith
payload_bytes-take (x ∷ rs) zero r h = ground arith
payload_bytes-take (x ∷ rs) (suc i) r h = ground (arith, payload_bytes-take rs i r h)

take_last :
    (rs : List Payload) (i : ℕ) (r : Payload)
    → get_elem? rs i ≡ some r
    → (i < length rs) × (suc i ≡ length rs → take (suc i) rs ≡ rs)
take_last [] i r h = ground arith
take_last (x ∷ []) zero r h = (omega arith, λ e. refl)
take_last (x ∷ y ∷ rs) zero r h = (omega arith, λ e. absurd (omega arith))
take_last (x ∷ rs) (suc i) r h =
    let (l, e) = take_last rs i r h in (omega arith, λ f. ap (λ ys. x ∷ ys) (e (omega arith)))

module _ (first start : ℕ) (rs : List Payload) (old : ℕ → Option StoredRecord) where
  -- A record is one of before, or that of a payload.
  abbrev pub IsOld : ℕ → StoredRecord → Type 0
  IsOld o a = (o < first) × (old o ≡ some a)

  abbrev pub IsWritten : ℕ → StoredRecord → Type 0
  IsWritten o a =
      (i : ℕ) × (r : Payload) × (o ≡ first + i)
      × (get_elem? rs i ≡ some r)
      × (a.cumulative_end_bytes ≡ start + payload_bytes (take (suc i) rs))
      × (a.payload_bytes ≡ length r)

  abbrev pub IsEither : ℕ → StoredRecord → Type 0
  IsEither o a = IsOld o a ⊎ IsWritten o a

  pub ends :
      (o : ℕ) (a : StoredRecord)
      → 0 < length rs
      → IsEither o a
      → (o < first + length rs)
        × (suc o ≡ first + length rs → a.cumulative_end_bytes ≡ start + payload_bytes rs)
  ends o a n (inl h) = (omega arith, λ e. absurd (omega arith))
  ends o a n (inr (i, r, e, g, c, l)) =
      let (b, t) = take_last rs i r g in
      (omega arith, λ f. c ∙ ap (λ ys. start + payload_bytes ys) (t (omega arith)))

  pub neighbours :
      (o : ℕ) (a b : StoredRecord)
      → ((o : ℕ) (a : StoredRecord)
          → old o ≡ some a
          → suc o ≡ first
          → a.cumulative_end_bytes ≡ start)
      → ((o : ℕ) (a b : StoredRecord)
          → old o ≡ some a
          → old (suc o) ≡ some b
          → b.cumulative_end_bytes ≡ a.cumulative_end_bytes + b.payload_bytes)
      → IsEither o a
      → IsEither (suc o) b
      → b.cumulative_end_bytes ≡ a.cumulative_end_bytes + b.payload_bytes
  unfolding payload_bytes
  neighbours o a b last pair (inl x) (inl y) = pair o a b x.1 y.1
  neighbours o a b last pair (inl x) (inr (zero, r, e, g, c, l)) =
      let s = last o a x.1 (omega arith) in let t = payload_bytes-take rs 0 r g in ground arith
  neighbours o a b last pair (inl x) (inr (suc i, r, e, g, c, l)) = absurd (omega arith)
  neighbours o a b last pair (inr (i, r, e, g, c, l)) (inl y) = absurd (omega arith)
  neighbours o a b last pair (inr (i, r, e, g, c, l)) (inr (j, r', e', g', c', l')) =
      let k : j ≡ suc i = omega arith in
      let t = payload_bytes-take rs j r' g' in
      let u : payload_bytes (take j rs) ≡ payload_bytes (take (suc i) rs) =
        ap (λ n. payload_bytes (take n rs)) k in
      ground arith
