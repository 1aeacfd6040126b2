-- ===== src/Evidence/Outbox/Order.antt =====
-- The order in which the outbox is listed.
use mathlib.Core.List.{Perm}
use mathlib.Core.List.Perm
use virule_client.Prelude.{
  ◌≤◌, String, ◌≡◌, refl, subst, List, [], ◌∷◌, Bool, true, false, ◌&&◌, arith, Bool-cases, inl,
  inr, precedes, precedes_asymm, if_branches, if◌then◌else◌,
}
use virule_client.Evidence.Core.{Entry}
use virule_client.Evidence.Outbox.{older, place_entry, sort_entries, listed, ordered}

module _ {Text : Type 0} where
  -- Created no later, and at one time with an id that is not after the other's.
  abbrev pub IsNotAfter : Entry Text → Entry Text → Type 0
  IsNotAfter x y = (x.created ≤ y.created) × (x.created ≡ y.created → precedes y.id x.id ≡ false)

  -- Each entry is not after the next.
  abbrev pub IsOldestFirst : List (Entry Text) → Type 0
  IsOldestFirst [] = Unit
  IsOldestFirst (x ∷ []) = Unit
  IsOldestFirst (x ∷ y ∷ r) = IsNotAfter x y × IsOldestFirst (y ∷ r)

  IsNotAfter-of_older : (a b : Entry Text) → older a b ≡ true → IsNotAfter a b
  unfolding older
  IsNotAfter-of_older a b h =
      (ground (arith, h), λ e. ground (arith, h, e, precedes_asymm a.id b.id))

  IsNotAfter-of_not_older : (a b : Entry Text) → older a b ≡ false → IsNotAfter b a
  unfolding older
  IsNotAfter-of_not_older a b h = (ground (arith, h), λ e. ground (arith, h, e))

  behind :
      (e x y : Entry Text) (r : List (Entry Text))
      → IsNotAfter x e
      → IsNotAfter x y
      → IsOldestFirst (place_entry e (y ∷ r))
      → IsOldestFirst (x ∷ place_entry e (y ∷ r))
  unfolding place_entry
  behind e x y r p q =
      if_branches (λ (l : List (Entry Text)). IsOldestFirst l → IsOldestFirst (x ∷ l)) (older e y)
        (λ _. λ h. (p, h)) (λ _. λ h. (q, h))

  place_entry-IsOldestFirst :
      (e : Entry Text) (xs : List (Entry Text))
      → IsOldestFirst xs
      → IsOldestFirst (place_entry e xs)
  unfolding place_entry
  place_entry-IsOldestFirst e [] h = tt
  place_entry-IsOldestFirst e (x ∷ []) h =
      if_branches IsOldestFirst (older e x) (λ b. (IsNotAfter-of_older e x b, tt))
        (λ b. (IsNotAfter-of_not_older e x b, tt))
  place_entry-IsOldestFirst e (x ∷ y ∷ r) (k, h) =
      let rest = place_entry-IsOldestFirst e (y ∷ r) h in
      if_branches IsOldestFirst (older e x) (λ b. (IsNotAfter-of_older e x b, (k, h)))
        (λ b. behind e x y r (IsNotAfter-of_not_older e x b) k rest)

  sort_entries-IsOldestFirst : (es : List (Entry Text)) → IsOldestFirst (sort_entries es)
  unfolding sort_entries
  sort_entries-IsOldestFirst [] = tt
  sort_entries-IsOldestFirst (e ∷ es) =
      place_entry-IsOldestFirst e (sort_entries es) (sort_entries-IsOldestFirst es)

  place_entry-perm : (e : Entry Text) (xs : List (Entry Text)) → Perm (place_entry e xs) (e ∷ xs)
  unfolding place_entry
  place_entry-perm e [] = Perm.refl (e ∷ [])
  place_entry-perm e (x ∷ xs) = elim (Bool-cases (older e x)) [
    | inl h ↦ rw h (Perm.refl (e ∷ x ∷ xs))
    | inr h ↦ rw h (Perm.trans (Perm.cons x (place_entry-perm e xs)) (Perm.swap _ _ _))
  ]

  sort_entries-perm : (es : List (Entry Text)) → Perm (sort_entries es) es
  unfolding sort_entries
  sort_entries-perm [] = Perm.refl []
  sort_entries-perm (e ∷ es) =
      Perm.trans (place_entry-perm e (sort_entries es)) (Perm.cons e (sort_entries-perm es))

  -- A directory that is named by 32 hex digits.
  abbrev pub is_package_folder : (String → Bool) → Entry Text → Bool
  is_package_folder is_hex32 e = e.is_directory && is_hex32 e.id

  -- The entries that a test takes.
  abbrev pub filter : (Entry Text → Bool) → List (Entry Text) → List (Entry Text)
  filter p [] = []
  filter p (e ∷ es) = let rest = filter p es in if p e then e ∷ rest else rest

  listed-filter :
      (is_hex32 : String → Bool) (es : List (Entry Text))
      → listed is_hex32 es ≡ filter (is_package_folder is_hex32) es
  unfolding listed
  listed-filter is_hex32 [] = refl
  listed-filter is_hex32 (e ∷ es) = ground (arith, listed-filter is_hex32 es)

  -- A pass visits exactly the entries of the outbox that are directories named by 32 hex digits,
  -- in an order in which none was created after the next, and of two neighbours of one time the
  -- second has no lesser id.
  pub ordered-IsOldestFirst :
      (is_hex32 : String → Bool) (es : List (Entry Text))
      → IsOldestFirst (ordered is_hex32 es)
        × Perm (ordered is_hex32 es) (filter (is_package_folder is_hex32) es)
  unfolding ordered
  ordered-IsOldestFirst is_hex32 es = (
    sort_entries-IsOldestFirst (listed is_hex32 es),
    subst (Perm (sort_entries (listed is_hex32 es))) (listed-filter is_hex32 es)
        (sort_entries-perm (listed is_hex32 es)),
  )
