-- ===== src/Core/Operations/Selection/Sorted.antt =====
-- A selection is its streams in rising order.
use light_stream.Shared.BTreeSet
use light_stream.Shared.{
  ℕ, suc, ◌≤◌, ◌<◌, ◌≡◌, refl, false, List, [], ◌∷◌, arith, nat_eq, length, ◌==◌, if◌then◌else◌,
}
use light_stream.Core.Identity.{StreamId}
use light_stream.Core.Error.{ok}
use light_stream.Core.Operations.Selection.{
  max_export_streams, insert_stream, sort_streams, has_equal_pair, export_selection,
}

-- How often a stream occurs.
abbrev pub count : StreamId → List StreamId → ℕ
count x [] = 0
count x (y ∷ ys) = if y == x then suc (count x ys) else count x ys

-- Rising, with repetitions.
abbrev IsWeaklyAbove : ℕ → List ℕ → Type 0
IsWeaklyAbove n [] = Unit {0}
IsWeaklyAbove n (x ∷ xs) = (n ≤ x) × IsWeaklyAbove x xs

insert_stream-IsWeaklyAbove :
    (n x : ℕ) (ys : List ℕ) → n ≤ x → IsWeaklyAbove n ys → IsWeaklyAbove n (insert_stream x ys)
unfolding insert_stream
insert_stream-IsWeaklyAbove n x [] h v = (h, tt)
insert_stream-IsWeaklyAbove n x (y ∷ ys) h v = ground (arith, insert_stream-IsWeaklyAbove y x ys)

sort_streams-IsWeaklyAbove : (xs : List ℕ) → IsWeaklyAbove 0 (sort_streams xs)
unfolding sort_streams
sort_streams-IsWeaklyAbove [] = tt
sort_streams-IsWeaklyAbove (x ∷ xs) =
    insert_stream-IsWeaklyAbove 0 x (sort_streams xs) (omega arith) (sort_streams-IsWeaklyAbove xs)

count-insert_stream : (x y : ℕ) (ys : List ℕ) → count x (insert_stream y ys) ≡ count x (y ∷ ys)
unfolding insert_stream
count-insert_stream x y [] = refl
count-insert_stream x y (z ∷ zs) = ground (arith, count-insert_stream x y zs)

count-sort_streams : (x : ℕ) (xs : List ℕ) → count x (sort_streams xs) ≡ count x xs
unfolding sort_streams
count-sort_streams x [] = refl
count-sort_streams x (y ∷ ys) =
    ground (arith, count-sort_streams x ys, count-insert_stream x y (sort_streams ys))

no_pair-IsAbove :
    (x : ℕ) (xs : List ℕ)
    → IsWeaklyAbove x xs
    → has_equal_pair (x ∷ xs) ≡ false
    → BTreeSet.IsAbove x xs
unfolding has_equal_pair
no_pair-IsAbove x [] v h = tt
no_pair-IsAbove x (y ∷ ys) v h = ground (arith, no_pair-IsAbove y ys)

no_pair-IsSorted :
    (xs : List ℕ) → IsWeaklyAbove 0 xs → has_equal_pair xs ≡ false → BTreeSet.IsSorted xs
no_pair-IsSorted [] v h = tt
no_pair-IsSorted (x ∷ xs) v h = no_pair-IsAbove x xs v.1 h

count_above : (n x : ℕ) (ys : List ℕ) → BTreeSet.IsAbove n ys → x ≤ n → count x ys ≡ 0
count_above n x [] v h = refl
count_above n x (y ∷ ys) v h = ground (arith, count_above y x ys)

count_once : (n x : ℕ) (ys : List ℕ) → BTreeSet.IsAbove n ys → count x ys ≤ 1
count_once n x [] v = omega arith
count_once n x (y ∷ ys) v = ground (arith, count_above y x ys, count_once y x ys)

count_sorted : (x : ℕ) (ys : List ℕ) → BTreeSet.IsSorted ys → count x ys ≤ 1
count_sorted x [] v = omega arith
count_sorted x (y ∷ ys) v = ground (arith, count_above y x ys, count_once y x ys)

-- A selection that is accepted was made of at least one and at most 1024 streams. Its streams rise
-- strictly, and they are the given ones, each of which was given once.
pub export_selection_sound :
    (xs ys : List StreamId) (x : StreamId)
    → export_selection xs ≡ ok ys
    → BTreeSet.IsSorted ys
      × (0 < length xs)
      × (length xs ≤ max_export_streams)
      × (count x ys ≡ count x xs)
      × (count x xs ≤ 1)
unfolding export_selection
export_selection_sound xs ys x h =
    let weak = sort_streams-IsWeaklyAbove xs in
    let counted = count-sort_streams x xs in
    ground (arith, no_pair-IsSorted (sort_streams xs) weak, count_sorted x (sort_streams xs))
