-- ===== src/Storage/Sessions.antt =====
-- crates/light-stream-storage/src/lib.rs: the window of sequence numbers that a session retains,
-- which `advance_session`, `store_mutation_result`, `apply_publish` and `apply_advance_retention`
-- move in the same words.
pub mod Window
use light_stream.Shared.{
  ℕ, Bool, true, false, Option, some, none, List, [], ◌∷◌, ◌++◌, leb, ltb, length, if◌then◌else◌,
}
use light_stream.Storage.State.{SessionState}

-- VecDeque::pop_front
pop_front : List ℕ → Option ℕ × List ℕ
pop_front [] = (none, [])
pop_front (x ∷ xs) = (some x, xs)

-- The session after `sequence`, and the sequence number that falls out of the window.
unfoldable pub advance_window : ℕ → SessionState → ℕ → SessionState × Option ℕ
unfolding pop_front
advance_window window s sequence =
    let retained = s.retained_sequences ++ sequence ∷ [] in
    if ltb window (length retained)
    then (
      record { highest_sequence = some sequence; retained_sequences = (pop_front retained).1 },
      (pop_front retained).0,
    )
    else (record { highest_sequence = some sequence; retained_sequences = retained }, none)

-- `highest.is_some_and(|highest| sequence <= highest)`
unfoldable pub is_expired : Option ℕ → ℕ → Bool
is_expired none sequence = false
is_expired (some highest) sequence = leb sequence highest
