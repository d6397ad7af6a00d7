-- ===== src/Storage/Catalog/Effects.antt =====
-- crates/light-stream-storage/src/lib.rs: what a command of the catalog does to its stream, and that the
-- names stay an index of the streams.
use light_stream.Shared.{
  ℕ, ◌<◌, ◌≡◌, refl, ◌⊎◌, inl, inr, String, true, false, Bool-cases, Option-cases, Option, none,
  some, [], nat_eq, string_eq, set_at, lookup, put, if◌then◌else◌, arith, ltb, leb,
}
use light_stream.Core.Identity.{StreamId, GroupId}
use light_stream.Core.Error.{DomainError, ok}
use light_stream.Core.Catalog.{
  CreateStreamSpec, create_stream_spec_eq, BootstrapSpec, stream_lifecycle_eq, StreamDescriptor,
  preparing,
}
use light_stream.Storage.Result.{ApplyResult}
use light_stream.Storage.State.{
  GroupDb, GroupState, WriteBatch, StoredCreateIntent, kind-cases, unwrap_or,
}
use light_stream.Storage.Catalog.{
  next_revision_of, place, count_streams, put_stream, assign_stream, check_limits, create_new,
  create_again, apply_create_stream,
}
use light_stream.Storage.Catalog.Changes.{
  Change, kept, refused, changed, finish_delete_change, answer_change, on_stream, drop_name,
  apply_finish_delete,
}
use light_stream.Storage.Catalog.Names.{is_deleted}
use light_stream.Storage.Catalog.Lifecycle.{Advances, finish_lem}

-- What becomes of the names when a stream moves.
abbrev pub names_after :
    StreamDescriptor → StreamDescriptor → (String → Option StreamId) → String → Option StreamId
names_after d d' names = if is_deleted d' then set_at names d.name none else names

-- The effects that a command may have on the stream that it names. A created stream has room in the
-- catalog.
pub data Effect (s : GroupState) (id : StreamId) (reported : Option GroupId) (write : GroupState)
    : Type 0 where
  untouched : write ≡ s → Effect s id reported write
  moved :
      (d d' : StreamDescriptor)
      → lookup id s.streams ≡ some d
      → Advances reported (next_revision_of s) d d'
      → write.streams ≡ put id d' s.streams
      → write.stream_names ≡ names_after d d' s.stream_names
      → write.catalog_revision ≡ some (next_revision_of s)
      → Effect s id reported write
  created :
      (d : StreamDescriptor) (max_streams : ℕ)
      → s.max_streams ≡ some max_streams
      → count_streams s.streams < max_streams
      → lookup id s.streams ≡ none
      → s.stream_names d.name ≡ none
      → (d.stream ≡ id)
        × (d.lifecycle ≡ preparing)
        × (d.ready_groups ≡ [])
        × (d.revision ≡ next_revision_of s)
      → write.streams ≡ put id d s.streams
      → write.stream_names ≡ set_at s.stream_names d.name (some id)
      → write.catalog_revision ≡ some (next_revision_of s)
      → Effect s id reported write

Change-cases :
    (c : Change)
    → ((d : StreamDescriptor) × (c ≡ changed d))
      ⊎ ((c ≡ kept) ⊎ ((e : DomainError) × (c ≡ refused e)))
Change-cases kept = inr (inl refl)
Change-cases (refused e) = inr (inr (e, refl))
Change-cases (changed d) = inl (d, refl)

-- A change that leaves the name to the stream.
pub on_stream-Effect :
    (reported : Option GroupId) (s : GroupState) (id : StreamId) (f : StreamDescriptor → Change)
    (result : ApplyResult) (write : WriteBatch)
    → ((d d' : StreamDescriptor)
        → f d ≡ changed d'
        → Advances reported (next_revision_of s) d d' × (is_deleted d' ≡ false))
    → on_stream s id f s ≡ ok (result, write)
    → Effect s id reported write
unfolding on_stream answer_change
on_stream-Effect reported s id f result write sound h = elim (Option-cases (lookup id s.streams)) [
  | inl e ↦ untouched (ground arith)
  | inr (d, e) ↦ elim (Change-cases (f d)) [
    | inl (d', g) ↦
        let step = sound d d' g in moved d d' e step.0 (ground arith) (ground arith) (ground arith)
    | inr (inl g) ↦ untouched (ground arith)
    | inr (inr (m, g)) ↦ untouched (ground arith)
  ]
]

pub finish-Effect :
    (reported : Option GroupId) (s : GroupState) (id : StreamId) (result : ApplyResult)
    (write : WriteBatch)
    → apply_finish_delete s id s ≡ ok (result, write)
    → Effect s id reported write
unfolding apply_finish_delete answer_change drop_name
finish-Effect reported s id result write h = elim (Option-cases (lookup id s.streams)) [
  | inl e ↦ untouched (ground arith)
  | inr (d, e) ↦ elim (Change-cases (finish_delete_change (next_revision_of s) d)) [
    | inl (d', g) ↦
        let step = finish_lem reported (next_revision_of s) d d' g in
        let gone : is_deleted d' ≡ true = unfold finish_delete_change in ground arith in
        moved d d' e step (ground arith) (ground arith) (ground arith)
    | inr (inl g) ↦ untouched (ground arith)
    | inr (inr (m, g)) ↦ untouched (ground arith)
  ]
]

assign-Effect :
    (reported : Option GroupId) (s : GroupState) (bootstrap : BootstrapSpec)
    (spec : CreateStreamSpec) (id : StreamId) (result : ApplyResult) (write : WriteBatch)
    → (max_streams : ℕ) → s.max_streams ≡ some max_streams
    → count_streams s.streams < max_streams
    → lookup id s.streams ≡ none
    → s.stream_names spec.name ≡ none
    → assign_stream s bootstrap spec id s.data_group_pool s ≡ ok (result, write)
    → Effect s id reported write
unfolding assign_stream put_stream
assign-Effect reported s bootstrap spec id result write max_streams m l a b h =
    elim (Option-cases s.data_group_pool) [
      | inl e ↦ ground arith
      | inr (groups, e) ↦
          elim (Option-cases
            (place groups (unwrap_or s.assignment_cursor 0) 0 spec.partition_count)) [
              | inl f ↦ ground arith
              | inr (placements, f) ↦
                  created
                    (record {
                      cluster = bootstrap.cluster;
                      stream = id;
                      name = spec.name;
                      lifecycle = preparing;
                      placements = placements;
                      ready_groups = [];
                      revision = next_revision_of s;
                    })
                    max_streams m l a b (refl, refl, refl, refl) (ground arith) (ground arith)
                    (ground arith)
            ]
    ]

limits-Effect :
    (reported : Option GroupId) (s : GroupState) (bootstrap : BootstrapSpec)
    (spec : CreateStreamSpec) (id : StreamId) (result : ApplyResult) (write : WriteBatch)
    (max_streams max_partitions : ℕ)
    → s.max_streams ≡ some max_streams
    → s.stream_names spec.name ≡ none
    → check_limits s bootstrap spec id max_streams max_partitions s ≡ ok (result, write)
    → Effect s id reported write
unfolding check_limits
limits-Effect reported s bootstrap spec id result write max_streams max_partitions m b h =
    elim (Bool-cases (ltb max_partitions spec.partition_count)) [
      | inl e ↦ untouched (ground arith)
      | inr e ↦ elim (Bool-cases (leb max_streams (count_streams s.streams))) [
        | inl f ↦ untouched (ground arith)
        | inr f ↦ elim (Option-cases (lookup id s.streams)) [
          | inr (d, a) ↦ untouched (ground arith)
          | inl a ↦
              assign-Effect reported s bootstrap spec id result write max_streams m (ground arith) a
                b (ground arith)
        ]
      ]
    ]

create_new-Effect :
    (reported : Option GroupId) (s : GroupState) (bootstrap : BootstrapSpec)
    (spec : CreateStreamSpec) (id : StreamId) (result : ApplyResult) (write : WriteBatch)
    → create_new s bootstrap spec id s ≡ ok (result, write)
    → Effect s id reported write
create_new-Effect reported s bootstrap spec id result write h =
    elim (Option-cases (s.stream_names spec.name)) [
      | inr (other, e) ↦ untouched (unfold create_new in ground arith)
      | inl e ↦ elim (Option-cases s.max_streams) [
        | inl f ↦ unfold create_new in ground arith
        | inr (max_streams, f) ↦ elim (Option-cases s.max_partitions) [
          | inl g ↦ unfold create_new in ground arith
          | inr (max_partitions, g) ↦
              limits-Effect reported s bootstrap spec id result write max_streams max_partitions f e
                (unfold create_new in ground arith)
        ]
      ]
    ]

create_again-Effect :
    (reported : Option GroupId) (s : GroupState) (spec : CreateStreamSpec)
    (existing : StoredCreateIntent) (id : StreamId) (result : ApplyResult) (write : WriteBatch)
    → create_again s spec existing s ≡ ok (result, write)
    → Effect s id reported write
unfolding create_again
create_again-Effect reported s spec existing id result write h =
    elim (Option-cases (lookup existing.stream_id s.streams)) [
      | inl e ↦ untouched (ground arith)
      | inr (d, e) ↦ untouched (ground arith)
    ]

pub create-Effect :
    (reported : Option GroupId) (db : GroupDb) (s : GroupState) (spec : CreateStreamSpec)
    (id : StreamId) (result : ApplyResult) (write : WriteBatch)
    → apply_create_stream db s spec id s ≡ ok (result, write)
    → Effect s id reported write
create-Effect reported db s spec id result write h = elim (kind-cases db.identity.kind) [
  | inr e ↦ untouched (unfold apply_create_stream in ground arith)
  | inl e ↦ elim (Option-cases s.bootstrap) [
    | inl f ↦ untouched (unfold apply_create_stream in ground arith)
    | inr (bootstrap, f) ↦ elim (Option-cases (s.create_intents spec.request_id)) [
      | inr (existing, g) ↦
          create_again-Effect reported s spec existing id result write
            (unfold apply_create_stream in ground arith)
      | inl g ↦
          create_new-Effect reported s bootstrap spec id result write
            (unfold apply_create_stream in ground arith)
    ]
  ]
]
