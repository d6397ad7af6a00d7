-- ===== src/Storage/Sessions/Window.antt =====
-- The window holds the newest sequence numbers of a session, in rising order.
use light_stream.Shared.{
  ℕ, suc, ◌≤◌, ◌<◌, ◌≡◌, false, Option, some, none, List, [], ◌∷◌, ◌++◌, arith, length,
  length-append,
}
use light_stream.Storage.State.{SessionState}
use light_stream.Storage.Sessions.{advance_window, is_expired}

-- The numbers rise strictly and stay below `n`.
abbrev pub AllBelow : ℕ → List ℕ → Type 0
AllBelow n [] = Unit {0}
AllBelow n (x ∷ xs) = (x < n) × AllBelow n xs

abbrev pub IsRising : List ℕ → Type 0
IsRising [] = Unit {0}
IsRising (x ∷ []) = Unit {0}
IsRising (x ∷ y ∷ xs) = (x < y) × IsRising (y ∷ xs)

-- Nothing is retained before the first request, and later only what is at most the highest.
abbrev pub IsBounded : Option ℕ → List ℕ → Type 0
IsBounded none retained = retained ≡ []
IsBounded (some highest) retained = AllBelow (suc highest) retained

pub record IsWindow (window : ℕ) (s : SessionState) : Type 0 where
  pub rising : IsRising s.retained_sequences
  pub bounded : IsBounded s.highest_sequence s.retained_sequences
  pub fits : length s.retained_sequences ≤ window

AllBelow-mono : (m n : ℕ) (xs : List ℕ) → m ≤ n → AllBelow m xs → AllBelow n xs
AllBelow-mono m n [] h b = tt
AllBelow-mono m n (x ∷ xs) h b = (omega arith, AllBelow-mono m n xs h b.1)

append-AllBelow : (n : ℕ) (xs : List ℕ) → AllBelow n xs → AllBelow (suc n) (xs ++ n ∷ [])
append-AllBelow n [] b = omega arith
append-AllBelow n (x ∷ xs) b = (omega arith, append-AllBelow n xs b.1)

append-IsRising : (n : ℕ) (xs : List ℕ) → AllBelow n xs → IsRising xs → IsRising (xs ++ n ∷ [])
append-IsRising n [] b r = tt
append-IsRising n (x ∷ []) b r = (omega arith, tt)
append-IsRising n (x ∷ y ∷ xs) b r = (r.0, append-IsRising n (y ∷ xs) b.1 r.1)

-- A request that is not expired comes after everything that is retained.
pub fresh-AllBelow :
    (highest : Option ℕ) (retained : List ℕ) (sequence : ℕ)
    → IsBounded highest retained
    → is_expired highest sequence ≡ false
    → AllBelow sequence retained
unfolding is_expired
fresh-AllBelow none retained sequence b e = rw b tt
fresh-AllBelow (some highest) retained sequence b e =
    AllBelow-mono (suc highest) sequence retained (ground arith) b

tail-IsRising : (x : ℕ) (xs : List ℕ) → IsRising (x ∷ xs) → IsRising xs
tail-IsRising x [] r = tt
tail-IsRising x (y ∷ xs) r = r.1

advance-IsWindow :
    (window : ℕ) (highest : Option ℕ) (retained : List ℕ) (sequence : ℕ)
    → AllBelow sequence retained
    → IsRising retained
    → length retained ≤ window
    → IsWindow window
        (advance_window window
          (record { highest_sequence = highest; retained_sequences = retained })
          sequence).0
unfolding advance_window
advance-IsWindow window highest [] sequence b r f = ground arith
advance-IsWindow window highest (x ∷ xs) sequence b r f = ground (
  arith,
  append-AllBelow sequence xs b.1,
  append-AllBelow sequence (x ∷ xs) b,
  append-IsRising sequence (x ∷ xs) b r,
  append-IsRising sequence xs b.1 (tail-IsRising x xs r),
  length-append xs (sequence ∷ []),
)

-- Advancing a window by a request that is not expired keeps it a window.
pub advance_window-IsWindow :
    (window : ℕ) (s : SessionState) (sequence : ℕ)
    → IsWindow window s
    → is_expired s.highest_sequence sequence ≡ false
    → IsWindow window (advance_window window s sequence).0
advance_window-IsWindow window s sequence w e =
    advance-IsWindow window s.highest_sequence s.retained_sequences sequence
      (fresh-AllBelow s.highest_sequence s.retained_sequences sequence w.bounded e) w.rising w.fits

advance_drops :
    (window : ℕ) (highest : Option ℕ) (retained : List ℕ) (sequence dropped : ℕ)
    → 0 < window
    → AllBelow sequence retained
    → (advance_window window
        (record { highest_sequence = highest; retained_sequences = retained })
        sequence).1
      ≡ some dropped
    → dropped < sequence
unfolding advance_window
advance_drops window highest [] sequence dropped p b d = ground arith
advance_drops window highest (x ∷ xs) sequence dropped p b d = ground arith

-- What falls out is older than the request, unless the window is empty.
pub advance_window_drops :
    (window : ℕ) (s : SessionState) (sequence dropped : ℕ)
    → 0 < window
    → IsWindow window s
    → is_expired s.highest_sequence sequence ≡ false
    → (advance_window window s sequence).1 ≡ some dropped
    → dropped < sequence
advance_window_drops window s sequence dropped p w e d =
    advance_drops window s.highest_sequence s.retained_sequences sequence dropped p
      (fresh-AllBelow s.highest_sequence s.retained_sequences sequence w.bounded e) d

pub advance_window_highest :
    (window : ℕ) (s : SessionState) (sequence : ℕ)
    → (advance_window window s sequence).0.highest_sequence ≡ some sequence
unfolding advance_window
advance_window_highest window s sequence = ground arith
