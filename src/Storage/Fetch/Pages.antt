-- ===== src/Storage/Fetch/Pages.antt =====
-- crates/light-stream-storage/src/lib.rs: the pages that `fetch` gives.
use light_stream.Shared.{
  ℕ, suc, ◌+◌, ◌≤◌, ◌<◌, ◌≡◌, ◌≢◌, refl, sym, ap, subst, ◌∙◌, ◌⊎◌, inl, inr, false, Bool-cases,
  Option-cases, Option, none, some, List, [], ◌∷◌, nat_eq, ltb, leb, length, saturating_add, ◌&&◌,
  arith,
}
use light_stream.Core.Identity.{ClusterId, PartitionKey, partition_key_eq}
use light_stream.Core.Error.{ok}
use light_stream.Core.Cursor.{CommittedRecord, FetchPage}
use light_stream.Core.Catalog.{BootstrapSpec}
use light_stream.Storage.Keys.{RecordKey}
use light_stream.Storage.State.{GroupDb, GroupState, StoredRecord}
use light_stream.Storage.Publish.Records.{record_key}
use light_stream.Storage.Leases.{stored_retention}
use light_stream.Storage.Floor.Kept.{tail_of, IsRetained}
use light_stream.Storage.Fetch.{
  max_fetch_bytes, Items, Scan, push, collect, next_after, page_of, check_fetch, fetch,
}

-- What an iterator yields that begins at an offset of a partition: the records there are, in order, and
-- after them those of others.
abbrev pub Yields : GroupState → PartitionKey → ℕ → Items → Type 0
Yields s p from [] = (offset : ℕ) → from ≤ offset → s.records (record_key p offset) ≡ none
Yields s p from ((k, stored) ∷ items) =
    ((k.partition ≡ p)
      × (from ≤ k.offset)
      × (s.records k ≡ some stored)
      × ((offset : ℕ) → from ≤ offset → offset < k.offset → s.records (record_key p offset) ≡ none)
      × Yields s p (k.offset + 1) items)
    ⊎ ((k.partition ≢ p) × ((offset : ℕ) → from ≤ offset → s.records (record_key p offset) ≡ none))

-- Nothing is stored at or after the tail.
abbrev pub IsBounded : GroupState → PartitionKey → Type 0
IsBounded s p = (offset : ℕ) → tail_of s p ≤ offset → s.records (record_key p offset) ≡ none

-- Every offset from one on up to the tail has its record.
abbrev pub IsStored : GroupState → PartitionKey → ℕ → Type 0
IsStored s p from =
    (offset : ℕ) → from ≤ offset → offset < tail_of s p → s.records (record_key p offset) ≢ none

-- Every stored record has its payload.
abbrev pub HasPayloads : GroupState → Type 0
HasPayloads s =
    (k : RecordKey) (stored : StoredRecord)
    → s.records k ≡ some stored
    → s.payloads stored.payload_key ≢ none

-- Consecutive records from an offset on, each with the payload that is stored for it.
abbrev pub IsRun : GroupState → PartitionKey → ℕ → List CommittedRecord → Type 0
IsRun s p offset [] = Unit {0}
IsRun s p offset (r ∷ rs) =
    (r.offset ≡ offset)
    × ((stored : StoredRecord) × (s.records (record_key p offset) ≡ some stored)
        × (s.payloads stored.payload_key ≡ some r.payload))
    × IsRun s p (offset + 1) rs

abbrev pub total_bytes : List CommittedRecord → ℕ
total_bytes [] = 0
total_bytes (r ∷ rs) = length r.payload + total_bytes rs

-- The payload bytes stay within the limit, unless the page is a single record.
abbrev pub FitsBytes : ℕ → ℕ → List CommittedRecord → Type 0
FitsBytes count bytes rs =
    (rs ≡ []) ⊎ ((bytes + total_bytes rs ≤ max_fetch_bytes) ⊎ ((count ≡ 0) × (length rs ≡ 1)))

-- What the loop gathers from an offset on.
abbrev pub Gathers : GroupState → Scan → ℕ → ℕ → ℕ → List CommittedRecord → Type 0
Gathers s c from count bytes rs =
    IsRun s c.partition from rs
    × ((rs ≡ []) ⊎ (count + length rs ≤ c.limit))
    × FitsBytes count bytes rs
    × ((from < tail_of s c.partition) → count ≡ 0 → 0 < c.limit → 0 < length rs)

-- The next record that the iterator yields is the one at the offset.
yields_next :
    (s : GroupState) (p : PartitionKey) (from : ℕ) (k : RecordKey) (stored : StoredRecord)
    → k.partition ≡ p
    → from ≤ k.offset
    → s.records k ≡ some stored
    → ((offset : ℕ) → from ≤ offset → offset < k.offset → s.records (record_key p offset) ≡ none)
    → IsBounded s p
    → IsStored s p from
    → (k ≡ record_key p from) × (from < tail_of s p)
yields_next s p from k stored e le h gap bound full =
    let here : k ≡ record_key p k.offset = ground arith in
    let last = bound k.offset in
    let below : k.offset < tail_of s p = ground arith in
    let hole = gap from (omega arith) in
    let there = full from (omega arith) (omega (arith, below)) in
    let same : k.offset ≡ from = ground arith in (ground arith, omega (arith, below, same))

-- The iterator yields the record at every offset before the tail.
ends_at_tail :
    (s : GroupState) (p : PartitionKey) (from : ℕ)
    → ((offset : ℕ) → from ≤ offset → s.records (record_key p offset) ≡ none)
    → IsStored s p from
    → (from < tail_of s p)
    → ⊥
ends_at_tail s p from none_left full h = full from (omega arith) h (none_left from (omega arith))

pushed-FitsBytes :
    (count bytes : ℕ) (r : CommittedRecord) (rs : List CommittedRecord)
    → (ltb 0 count && ltb max_fetch_bytes (saturating_add bytes (length r.payload))) ≡ false
    → (count ≡ 0 → bytes ≡ 0)
    → FitsBytes (suc count) (saturating_add bytes (length r.payload)) rs
    → FitsBytes count bytes (r ∷ rs)
pushed-FitsBytes count bytes r rs a b (inl e) = elim (Bool-cases (ltb 0 count)) [
  | inl f ↦ inr (inl (ground arith))
  | inr f ↦ inr (inr (ground arith, ground arith))
]
pushed-FitsBytes count bytes r rs a b (inr (inl e)) = inr (inl (ground arith))
pushed-FitsBytes count bytes r rs a b (inr (inr e)) = ground arith

module _ (s : GroupState) (c : Scan) where
  collect_lem :
      (items : Items) (from count bytes : ℕ)
      → c.end ≡ none
      → Yields s c.partition from items
      → IsBounded s c.partition
      → IsStored s c.partition from
      → HasPayloads s
      → (count ≡ 0 → bytes ≡ 0)
      → (rs : List CommittedRecord) × (collect s c count bytes items ≡ ok rs)
        × Gathers s c from count bytes rs
  unfolding collect
  collect_lem [] from count bytes e y bound full paid z =
      ([], refl, (tt, inl refl, inl refl, λ h. absurd (ends_at_tail s c.partition from y full h)))
  collect_lem ((k, stored) ∷ items) from count bytes e (inr y) bound full paid z = (
    [],
    (ground arith),
    (tt, inl refl, inl refl, λ h. absurd (ends_at_tail s c.partition from y.1 full h)),
  )
  collect_lem ((k, stored) ∷ items) from count bytes e (inl y) bound full paid z =
      let (here, below) = yields_next s c.partition from k stored y.0 y.1 y.2 y.3 bound full in
      let later : IsStored s c.partition (k.offset + 1) = λ o a b. full o (omega (arith, y.1)) b in
      elim (Bool-cases (leb c.limit count)) [
        | inl f ↦ ([], (ground arith), (tt, inl refl, inl refl, λ h i j. ground arith))
        | inr f ↦ elim (Option-cases (s.payloads stored.payload_key)) [
          | inl g ↦ absurd (paid k stored y.2 g)
          | inr (payload, g) ↦
              elim (Bool-cases
                (ltb 0 count && ltb max_fetch_bytes (saturating_add bytes (length payload)))) [
                  | inl l ↦ ([], (ground arith), (tt, inl refl, inl refl, λ h i j. ground arith))
                  | inr l ↦
                      let (rs, run, more) =
                        collect_lem items (k.offset + 1) (suc count)
                          (saturating_add bytes (length payload)) e y.4 bound later paid
                          (λ i. ground arith) in
                      let r : CommittedRecord = record { offset = k.offset; payload = payload } in
                      let fits = pushed-FitsBytes count bytes r rs l z more.2 in
                      (
                        r ∷ rs,
                        (unfold push in ground arith),
                        (
                          (
                            ap (λ j. j.offset) here,
                            (stored, ap s.records (sym here) ∙ y.2, g),
                            subst (λ o. IsRun s c.partition (o + 1) rs) (ap (λ j. j.offset) here)
                                more.0,
                          ),
                          inr (ground arith),
                          fits,
                          λ h i j. ground arith,
                        ),
                      )
                ]
        ]
      ]

next_after_lem :
    (s : GroupState) (p : PartitionKey) (offset : ℕ) (rs : List CommittedRecord)
    → IsRun s p offset rs
    → next_after offset rs ≡ offset + length rs
unfolding next_after
next_after_lem s p offset [] v = omega arith
next_after_lem s p offset (r ∷ rs) v = ground (arith, next_after_lem s p (offset + 1) rs v.2)

limit_positive :
    (db : GroupDb) (spec : Option BootstrapSpec) (cluster : ClusterId) (limit : ℕ)
    → check_fetch db spec cluster limit ≡ none
    → 0 < limit
unfolding check_fetch
limit_positive db none cluster limit a = ground arith
limit_positive db (some spec) cluster limit a = ground arith

goes_on :
    (s : GroupState) (p : PartitionKey) (offset next count : ℕ)
    → next ≡ offset + count
    → (offset < tail_of s p → 0 < count)
    → (tail_of s p ≤ offset) ⊎ (offset < next)
goes_on s p offset next count e h = elim (Bool-cases (leb (tail_of s p) offset)) [
  | inl f ↦ inl (ground arith)
  | inr f ↦ inr (let more = h (ground arith) in omega (arith, e))
]

-- A page that a fetch gives: consecutive records from the offset on, with their payloads, within the
-- limits of records and bytes.
abbrev pub IsPage : GroupState → PartitionKey → ℕ → ℕ → FetchPage → Type 0
IsPage s p offset limit page =
    (page.partition ≡ p)
    × IsRun s p offset page.records
    × (page.next_offset ≡ offset + length page.records)
    × (length page.records ≤ limit)
    × ((total_bytes page.records ≤ max_fetch_bytes) ⊎ (length page.records ≡ 1))

-- A fetch that passes its guards gives a page of consecutive records from the offset that was asked for,
-- each with the payload that is stored for it, at most as many as the limit, and of at most 8 MiB
-- unless it is a single record; it goes on after the last of them. Before the tail of the partition the
-- page is not empty, so that a reader always gets on. The iterator yields the stored records of the
-- partition in order from the offset on; the partition is retained, nothing is stored at or after its
-- tail, and each stored record has its payload.
pub fetch_page :
    (db : GroupDb) (s : GroupState) (items : Items) (cluster : ClusterId) (p : PartitionKey)
    (offset limit : ℕ)
    → check_fetch db s.bootstrap cluster limit ≡ none
    → (stored_retention s p).logical_floor ≤ offset
    → IsRetained s p
    → IsBounded s p
    → HasPayloads s
    → Yields s p offset items
    → (page : FetchPage) × (fetch db s items cluster p offset limit ≡ ok page)
      × IsPage s p offset limit page
      × ((tail_of s p ≤ offset) ⊎ (offset < page.next_offset))
fetch_page db s items cluster p offset limit a f v bound paid y =
    let l = limit_positive db s.bootstrap cluster limit a in
    let c : Scan = record {
      partition = p;
      limit = limit;
      end = none;
      missing = "committed record payload is missing";
    } in
    let (rs, run, gathered) =
      collect_lem s c items offset 0 0 refl y bound (λ o d e. v.stored o (omega (arith, f)) e) paid
        (λ e. refl) in
    let next = next_after_lem s p offset rs gathered.0 in
    (
      record { partition = p; records = rs; next_offset = next_after offset rs },
      (unfold fetch page_of in ground arith),
      (refl, gathered.0, next, (ground arith), (ground arith)),
      goes_on s p offset (next_after offset rs) (length rs) next (λ h. gathered.3 h refl l),
    )
