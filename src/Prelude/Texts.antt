-- ===== src/Prelude/Texts.antt =====
-- Sets of texts as the source's `std::set<std::string>`: a sorted list with no text twice.
use Prim.Native.String.{String, compare}
use mathlib.Core.Path.{◌≡◌, refl}
use mathlib.Core.Bool.{Bool, true, false, ◌||◌}
use mathlib.Core.List.{List, [], ◌∷◌}
use native.Mathlib.Omega.{arith}
use text.Mathlib.Text.{◌==◌, is_lt}
use text.Mathlib.TextEquality.{eq_iff}
use mathlib.Core.Logic.{inl, inr}
use virule_client.Prelude.Tests.{if◌then◌else◌, Bool-cases}

-- The order of `std::string`, by bytes.
abbrev pub precedes : String → String → Bool
precedes s t = is_lt (compare s t)

unfoldable pub contains : List String → String → Bool
contains [] s = false
contains (x ∷ xs) s = (x == s) || contains xs s

-- A text put in its place in a sorted list.
unfoldable pub place : String → List String → List String
place s [] = s ∷ []
place s (x ∷ xs) = let rest = place s xs in if precedes s x then s ∷ x ∷ xs else x ∷ rest

-- `std::set::insert`.
unfoldable pub insert : String → List String → List String
insert s xs = if contains xs s then xs else place s xs

-- `std::sort`.
unfoldable pub sort : List String → List String
sort [] = []
sort (x ∷ xs) = place x (sort xs)

-- `std::unique` with the erase that follows it.
unfoldable pub unique : List String → List String
unique [] = []
unique (x ∷ []) = x ∷ []
unique (x ∷ y ∷ r) = let rest = unique (y ∷ r) in if x == y then rest else x ∷ rest

abbrev pub Distinct : List String → Type 0
Distinct [] = Unit
Distinct (x ∷ xs) = (contains xs x ≡ false) × Distinct xs

abbrev pub IsOrdered : List String → Type 0
IsOrdered [] = Unit
IsOrdered (x ∷ []) = Unit
IsOrdered (x ∷ y ∷ r) = (precedes x y ≡ true) × IsOrdered (y ∷ r)

abbrev pub Within : List String → List String → Type 0
Within xs ys = (t : String) → contains xs t ≡ true → contains ys t ≡ true

pub contains-place :
    (s t : String) (xs : List String) → contains (place s xs) t ≡ ((s == t) || contains xs t)
unfolding contains place
contains-place s t [] = refl
contains-place s t (x ∷ xs) = ground (arith, contains-place s t xs)

pub contains-insert :
    (s t : String) (xs : List String) → contains (insert s xs) t ≡ ((s == t) || contains xs t)
unfolding insert
contains-insert s t xs = ground (arith, contains-place s t xs, eq_iff s t)

place-Distinct :
    (s : String) (xs : List String) → contains xs s ≡ false → Distinct xs → Distinct (place s xs)
unfolding contains place
place-Distinct s [] h d = (refl, tt)
place-Distinct s (x ∷ xs) h d =
    ground (arith, place-Distinct s xs, contains-place s x xs, eq_iff s x, eq_iff x s)

pub insert-Distinct : (s : String) (xs : List String) → Distinct xs → Distinct (insert s xs)
unfolding insert
insert-Distinct s xs d = elim (Bool-cases (contains xs s)) [
  | inl h ↦ rw h d
  | inr h ↦ rw h (place-Distinct s xs h d)
]

pub contains-sort : (xs : List String) (t : String) → contains (sort xs) t ≡ contains xs t
unfolding contains sort
contains-sort [] t = refl
contains-sort (x ∷ xs) t = ground (arith, contains-place x t (sort xs), contains-sort xs t)

pub contains-unique : (xs : List String) (t : String) → contains (unique xs) t ≡ contains xs t
unfolding contains unique
contains-unique [] t = refl
contains-unique (x ∷ []) t = refl
contains-unique (x ∷ y ∷ r) t = ground (arith, contains-unique (y ∷ r) t, eq_iff x y)
