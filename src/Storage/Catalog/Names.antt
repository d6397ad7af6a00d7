-- ===== src/Storage/Catalog/Names.antt =====
-- crates/light-stream-storage/src/lib.rs: the names of the streams, through the commands of the catalog.
use light_stream.Shared.{
  ◌≡◌, sym, ap, ◌∙◌, inl, inr, String, Bool, true, false, Bool-cases, none, some, nat_eq, string_eq,
  set_at, lookup, put, lookup-put, ◌==◌, arith,
}
use light_stream.Core.Identity.{StreamId}
use light_stream.Core.Catalog.{stream_lifecycle_eq, StreamDescriptor, deleted}
use light_stream.Storage.State.{GroupState}

-- Whether a stream is deleted.
abbrev pub is_deleted : StreamDescriptor → Bool
is_deleted d = d.lifecycle == deleted

-- Each stream is stored under its identity, and the names stand for exactly the streams that are not
-- deleted.
pub record IsIndexed (s : GroupState) : Type 0 where
  pub identified :
      (id : StreamId) (d : StreamDescriptor) → lookup id s.streams ≡ some d → d.stream ≡ id
  pub named :
      (id : StreamId) (d : StreamDescriptor)
      → lookup id s.streams ≡ some d
      → is_deleted d ≡ false
      → s.stream_names d.name ≡ some id
  pub live :
      (name : String) (id : StreamId)
      → s.stream_names name ≡ some id
      → (d : StreamDescriptor) × (lookup id s.streams ≡ some d)
        × (d.name ≡ name)
        × (is_deleted d ≡ false)

-- A descriptor that stands for another of the same stream.
abbrev pub IsSuccessor : StreamDescriptor → StreamDescriptor → Type 0
IsSuccessor d d' = (d'.stream ≡ d.stream) × (d'.name ≡ d.name) × (is_deleted d ≡ false)

module _ (s write : GroupState) (id : StreamId) (d d' : StreamDescriptor) where
  -- A live stream stays live.
  pub changed-IsIndexed :
      IsIndexed s
      → lookup id s.streams ≡ some d
      → IsSuccessor d d'
      → is_deleted d' ≡ false
      → write.streams ≡ put id d' s.streams
      → write.stream_names ≡ s.stream_names
      → IsIndexed write
  changed-IsIndexed v h e f a b =
      let own = v.identified id d h in
      let name = v.named id d h e.2 in
      record {
        identified = λ j c g.
            let there = lookup-put id j d' s.streams in let old = v.identified j c in ground arith;
        named = λ j c g l.
            let there = lookup-put id j d' s.streams in let old = v.named j c in ground arith;
        live = λ n j g.
            let there = lookup-put id j d' s.streams in
            let (c, p0, p1, p2) = v.live n j (ap (λ k. k n) (sym b) ∙ g) in
            elim (Bool-cases (id == j)) [
              | inl q ↦ (d', (ground arith), (ground arith), (ground arith))
              | inr q ↦ (c, (ground arith), (ground arith), (ground arith))
            ];
      }

  -- A live stream is deleted, and its name goes.
  pub deleted-IsIndexed :
      IsIndexed s
      → lookup id s.streams ≡ some d
      → IsSuccessor d d'
      → is_deleted d' ≡ true
      → write.streams ≡ put id d' s.streams
      → write.stream_names ≡ set_at s.stream_names d.name none
      → IsIndexed write
  deleted-IsIndexed v h e f a b =
      let own = v.identified id d h in
      let name = v.named id d h e.2 in
      record {
        identified = λ j c g.
            let there = lookup-put id j d' s.streams in let old = v.identified j c in ground arith;
        named = λ j c g l.
            let there = lookup-put id j d' s.streams in let old = v.named j c in ground arith;
        live = λ n j g.
            let there = lookup-put id j d' s.streams in
            elim (Bool-cases (n == d.name)) [
              | inl q ↦ ground arith
              | inr q ↦
                  let (c, p0, p1, p2) = v.live n j (ground arith) in
                  (c, (ground arith), (ground arith), (ground arith))
            ];
      }

module _ (s write : GroupState) (id : StreamId) (d : StreamDescriptor) where
  -- A stream that is new takes a name that was free.
  pub created-IsIndexed :
      IsIndexed s
      → lookup id s.streams ≡ none
      → s.stream_names d.name ≡ none
      → d.stream ≡ id
      → is_deleted d ≡ false
      → write.streams ≡ put id d s.streams
      → write.stream_names ≡ set_at s.stream_names d.name (some id)
      → IsIndexed write
  created-IsIndexed v h n e f a b = record {
    identified = λ j c g.
        let there = lookup-put id j d s.streams in let old = v.identified j c in ground arith;
    named =
        λ j c g l. let there = lookup-put id j d s.streams in let old = v.named j c in ground arith;
    live = λ m j g.
        let there = lookup-put id j d s.streams in
        elim (Bool-cases (m == d.name)) [
          | inl q ↦ (d, (ground arith), (ground arith), (ground arith))
          | inr q ↦
              let (c, p0, p1, p2) = v.live m j (ground arith) in
              (c, (ground arith), (ground arith), (ground arith))
        ];
  }
