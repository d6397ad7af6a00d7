-- ===== src/Core/Operations/Selection.antt =====
-- crates/light-stream-core/src/operations.rs: the streams that an export selects.
pub mod Sorted
use light_stream.Shared.{
  ℕ, Bool, true, false, List, [], ◌∷◌, nat_eq, ltb, leb, length, ◌==◌, ◌||◌, if◌then◌else◌,
}
use light_stream.Core.Identity.{StreamId}
use light_stream.Core.Error.{
  DomainError, invalid_identity, invalid_range, resource_limit, Result, ok, err,
}

abbrev pub max_export_streams : ℕ
max_export_streams = 1024

-- `sort_unstable`: equal numbers cannot be told apart.
unfoldable pub insert_stream : StreamId → List StreamId → List StreamId
insert_stream x [] = x ∷ []
insert_stream x (y ∷ ys) = if leb x y then x ∷ y ∷ ys else y ∷ insert_stream x ys

unfoldable pub sort_streams : List StreamId → List StreamId
unfolding insert_stream
sort_streams [] = []
sort_streams (x ∷ xs) = insert_stream x (sort_streams xs)

-- `windows(2).any(|pair| pair[0] == pair[1])`
unfoldable pub has_equal_pair : List StreamId → Bool
has_equal_pair [] = false
has_equal_pair (x ∷ []) = false
has_equal_pair (x ∷ y ∷ ys) = (x == y) || has_equal_pair (y ∷ ys)

-- ExportSelection::try_new
unfoldable pub export_selection : List StreamId → Result DomainError (List StreamId)
export_selection streams =
    if length streams == 0
    then err (invalid_range "export selection must contain at least one stream")
    else if ltb max_export_streams (length streams)
    then err (resource_limit "export_streams" max_export_streams)
    else (let sorted = sort_streams streams in
        if has_equal_pair sorted
        then err (invalid_identity "export selection" "stream IDs must be unique")
        else ok sorted)
