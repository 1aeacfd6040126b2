-- ===== src/Prelude/Order.antt =====
-- Counting and order in sets of texts.
use Prim.Native.Nat.{◌+◌, ◌≤◌}
use Prim.Native.String.compare.{nil-cons, cons-nil, cons-cons}
use Prim.Native.String.{String}
use mathlib.Core.Path.{◌≡◌, refl}
use mathlib.Core.Logic.{inl, inr}
use mathlib.Core.Bool.{true, false}
use mathlib.Core.List.{List, [], ◌∷◌}
use native.Mathlib.Omega.{arith}
use text.Mathlib.Text.{◌==◌}
use text.Mathlib.TextEquality.{eq_iff}
use virule_client.Prelude.Tests.{if◌then◌else◌, Bool-cases}
use virule_client.Prelude.Lists.{length}
use virule_client.Prelude.Texts.{
  precedes, contains, place, insert, sort, unique, Distinct, IsOrdered, Within,
}

-- The first occurrence removed.
erase : String → List String → List String
erase t [] = []
erase t (x ∷ xs) = if x == t then xs else x ∷ erase t xs

length-erase :
    (t : String) (xs : List String) → contains xs t ≡ true → length (erase t xs) + 1 ≡ length xs
unfolding contains erase
length-erase t [] h = ground arith
length-erase t (x ∷ xs) h = ground (arith, length-erase t xs)

contains-erase :
    (t s : String) (xs : List String)
    → contains xs s ≡ true
    → (t == s) ≡ false
    → contains (erase t xs) s ≡ true
unfolding contains erase
contains-erase t s [] h d = h
contains-erase t s (x ∷ xs) h d =
    ground (arith, contains-erase t s xs, eq_iff x t, eq_iff x s, eq_iff t s)

contains_ne :
    (xs : List String) (t s : String)
    → contains xs t ≡ false
    → contains xs s ≡ true
    → (t == s) ≡ false
contains_ne xs t s h k = ground (arith, eq_iff t s)

-- A set inside a list is no longer than it.
length-le_of_Within : (xs ys : List String) → Distinct xs → Within xs ys → length xs ≤ length ys
unfolding contains
length-le_of_Within [] ys d w = omega arith
length-le_of_Within (x ∷ xs) ys d w = omega (
  arith,
  length-erase x ys (w x (ground (arith, eq_iff x x))),
  length-le_of_Within xs (erase x ys) d.1
      (λ t h. contains-erase x t ys (w t (ground arith)) (contains_ne xs x t d.0 h)),
)

-- A set inside a list that is as long as the list holds all of it.
pub Within-of_length-eq :
    (xs ys : List String) → Distinct xs → Within xs ys → length xs ≡ length ys → Within ys xs
Within-of_length-eq xs ys d w e t h = elim (Bool-cases (contains xs t)) [
  | inl k ↦ k
  | inr k ↦ absurd (
      omega (
        arith,
        length-erase t ys h,
        length-le_of_Within xs (erase t ys) d
            (λ s hs. contains-erase t s ys (w s hs) (contains_ne xs t s k hs)),
      ))
]

place-ne-lt : (x y : String) → precedes x y ≡ true → (x == y) ≡ false
place-ne-lt x y h = ground arith

pub sort_of_IsOrdered : (xs : List String) → IsOrdered xs → sort xs ≡ xs
unfolding sort place
sort_of_IsOrdered [] h = refl
sort_of_IsOrdered (x ∷ []) h = refl
sort_of_IsOrdered (x ∷ y ∷ r) h = rw (sort_of_IsOrdered (y ∷ r) h.1) (ground arith)

pub unique_of_IsOrdered : (xs : List String) → IsOrdered xs → unique xs ≡ xs
unfolding unique
unique_of_IsOrdered [] h = refl
unique_of_IsOrdered (x ∷ []) h = refl
unique_of_IsOrdered (x ∷ y ∷ r) h = ground (arith, unique_of_IsOrdered (y ∷ r) h.1)

-- Of two different texts one precedes the other.
precedes_total : (s t : String) → (s == t) ≡ false → precedes s t ≡ false → precedes t s ≡ true
precedes_total String.[] String.[] d h = ground (arith, eq_iff "" "")
precedes_total String.[] (String.◌∷◌ c t) d h = ground (arith, nil-cons c t)
precedes_total (String.◌∷◌ c s) String.[] d h = ground (arith, nil-cons c s)
precedes_total (String.◌∷◌ c s) (String.◌∷◌ e t) d h =
    ground (arith, cons-cons c e s t, cons-cons e c t s, precedes_total s t)

-- The order goes one way.
pub precedes_asymm : (s t : String) → precedes s t ≡ true → precedes t s ≡ false
precedes_asymm String.[] String.[] h = ground (arith, eq_iff "" "")
precedes_asymm String.[] (String.◌∷◌ c t) h = ground (arith, cons-nil c t)
precedes_asymm (String.◌∷◌ c s) String.[] h = ground (arith, cons-nil c s)
precedes_asymm (String.◌∷◌ c s) (String.◌∷◌ e t) h =
    ground (arith, cons-cons c e s t, cons-cons e c t s, precedes_asymm s t)

place-IsOrdered :
    (s : String) (xs : List String) → contains xs s ≡ false → IsOrdered xs → IsOrdered (place s xs)
unfolding contains place
place-IsOrdered s [] h o = tt
place-IsOrdered s (x ∷ []) h o = ground (arith, precedes_total s x, eq_iff s x, eq_iff x s)
place-IsOrdered s (x ∷ y ∷ r) h o =
    ground (arith, precedes_total s x, eq_iff s x, eq_iff x s, place-IsOrdered s (y ∷ r))

pub insert-IsOrdered : (s : String) (xs : List String) → IsOrdered xs → IsOrdered (insert s xs)
unfolding insert
insert-IsOrdered s xs o = elim (Bool-cases (contains xs s)) [
  | inl h ↦ rw h o
  | inr h ↦ rw h (place-IsOrdered s xs h o)
]

length-place : (s : String) (xs : List String) → length (place s xs) ≡ length xs + 1
unfolding place
length-place s [] = omega arith
length-place s (x ∷ xs) = ground (arith, length-place s xs)

-- An insertion adds one text, or none where the text stood there.
pub length-insert :
    (s : String) (xs : List String)
    → length (insert s xs) ≡ (if contains xs s then length xs else length xs + 1)
unfolding insert
length-insert s xs = ground (arith, length-place s xs)
