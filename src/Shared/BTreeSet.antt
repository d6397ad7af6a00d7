-- ===== src/Shared/BTreeSet.antt =====
-- A `BTreeSet` of numbers: the list of its members in rising order.
use Prim.Native.Nat.{ℕ, ◌<◌}
use mathlib.Core.Path.{◌≡◌, refl}
use mathlib.Core.Bool.{Bool, true, false, ◌||◌, ◌&&◌}
use mathlib.Core.List.{List, [], ◌∷◌}
use native.Mathlib.Omega.{arith}
use light_stream.Shared.Tests.{ltb, if◌then◌else◌}
use light_stream.Shared.Equality.{nat_eq, ◌==◌}

abbrev pub insert : ℕ → List ℕ → List ℕ
insert x [] = x ∷ []
insert x (y ∷ ys) = if ltb x y then x ∷ y ∷ ys else if x == y then y ∷ ys else y ∷ insert x ys

abbrev pub contains : List ℕ → ℕ → Bool
contains [] x = false
contains (y ∷ ys) x = x == y || contains ys x

abbrev pub from_list : List ℕ → List ℕ
from_list [] = []
from_list (x ∷ xs) = insert x (from_list xs)

-- The keys rise strictly.
abbrev pub IsAbove : ℕ → List ℕ → Type 0
IsAbove n [] = Unit {0}
IsAbove n (y ∷ ys) = (n < y) × IsAbove y ys

abbrev pub IsSorted : List ℕ → Type 0
IsSorted [] = Unit {0}
IsSorted (y ∷ ys) = IsAbove y ys

insert-IsAbove : (n x : ℕ) (ys : List ℕ) → n < x → IsAbove n ys → IsAbove n (insert x ys)
insert-IsAbove n x [] h s = omega arith
insert-IsAbove n x (y ∷ ys) h s = ground (arith, insert-IsAbove y x ys)

pub insert-IsSorted : (x : ℕ) (ys : List ℕ) → IsSorted ys → IsSorted (insert x ys)
insert-IsSorted x [] s = tt
insert-IsSorted x (y ∷ ys) s = ground (arith, insert-IsAbove y x ys)

pub contains-insert : (x z : ℕ) (ys : List ℕ) → contains (insert x ys) z ≡ (z == x || contains ys z)
contains-insert x z [] = refl
contains-insert x z (y ∷ ys) = ground (arith, contains-insert x z ys)

abbrev pub equal : List ℕ → List ℕ → Bool
equal [] [] = true
equal (x ∷ xs) (y ∷ ys) = x == y && equal xs ys
equal _ _ = false

pub equal→eq : (xs ys : List ℕ) → equal xs ys ≡ true → xs ≡ ys
equal→eq [] [] h = refl
equal→eq [] (y ∷ ys) h = cc
equal→eq (x ∷ xs) [] h = cc
equal→eq (x ∷ xs) (y ∷ ys) h = ground (arith, equal→eq xs ys)

pub equal_refl : (xs : List ℕ) → equal xs xs ≡ true
equal_refl [] = refl
equal_refl (x ∷ xs) = ground (arith, equal_refl xs)

pub insert-insert : (x : ℕ) (ys : List ℕ) → insert x (insert x ys) ≡ insert x ys
insert-insert x [] = ground arith
insert-insert x (y ∷ ys) = ground (arith, insert-insert x ys)
