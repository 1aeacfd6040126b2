-- ===== src/Evidence/Outbox/Names.antt =====
-- What the packages of the outbox are named, and of which assignments they are.
use virule_client.Prelude.{
  String, ◌≡◌, refl, List, [], ◌∷◌, map, Bool, true, not, arith, ◌==◌, if_branches, Option, none,
  some, Option-cases, inl, inr,
}
use virule_client.Evidence.Json.{Json}
use virule_client.Evidence.Core.{Core, CoreLaws, Entry, Package, payload}
use virule_client.Evidence.Outbox.{
  older, place_entry, sort_entries, listed, ordered, outbox_ids, verify_package, verify_dir,
  verify_whole, Verified, package_file_name,
}

-- Every id has 32 hex digits.
abbrev pub AreHex : (String → Bool) → List String → Type 0
AreHex is_hex32 [] = Unit
AreHex is_hex32 (id ∷ ids) = (is_hex32 id ≡ true) × AreHex is_hex32 ids

module _ {Text : Type 0} (is_hex32 : String → Bool) where
  -- Every entry is named by 32 hex digits.
  abbrev AreNamed : List (Entry Text) → Type 0
  AreNamed [] = Unit
  AreNamed (e ∷ es) = (is_hex32 e.id ≡ true) × AreNamed es

  listed-AreNamed : (es : List (Entry Text)) → AreNamed (listed is_hex32 es)
  unfolding listed
  listed-AreNamed [] = tt
  listed-AreNamed (e ∷ es) =
      if_branches AreNamed (not e.is_directory) (λ _. listed-AreNamed es)
        (λ _.
          if_branches AreNamed (not (is_hex32 e.id)) (λ _. listed-AreNamed es)
            (λ h. (ground (arith, h), listed-AreNamed es)))

  place_entry-AreNamed :
      (e : Entry Text) (es : List (Entry Text))
      → is_hex32 e.id ≡ true
      → AreNamed es
      → AreNamed (place_entry e es)
  unfolding place_entry
  place_entry-AreNamed e [] h k = (h, tt)
  place_entry-AreNamed e (x ∷ xs) h (a, k) =
      if_branches AreNamed (older e x) (λ _. (h, (a, k))) (λ _. (a, place_entry-AreNamed e xs h k))

  sort_entries-AreNamed : (es : List (Entry Text)) → AreNamed es → AreNamed (sort_entries es)
  unfolding sort_entries
  sort_entries-AreNamed [] h = tt
  sort_entries-AreNamed (e ∷ es) (a, h) =
      place_entry-AreNamed e (sort_entries es) a (sort_entries-AreNamed es h)

  map-AreHex : (es : List (Entry Text)) → AreNamed es → AreHex is_hex32 (map (λ e. e.id) es)
  map-AreHex [] h = tt
  map-AreHex (e ∷ es) (a, h) = (a, map-AreHex es h)

  pub outbox_ids-AreHex : (es : List (Entry Text)) → AreHex is_hex32 (outbox_ids is_hex32 es)
  unfolding outbox_ids ordered
  outbox_ids-AreHex es =
      map-AreHex (sort_entries (listed is_hex32 es))
        (sort_entries-AreNamed (listed is_hex32 es) (listed-AreNamed es))

module _ {j : Json} (c : Core j) (laws : CoreLaws c) where
  open j use {Text, empty, is_empty}

  abbrev IsOfAssignment : Verified Text → Type 0
  IsOfAssignment v = (v.damage == "") ≡ true → c.is_hex32 v.pkg.assignment_id ≡ true

  verify_whole-pkg : (dir : String → Option Text) (p : Package) → (verify_whole c dir p).pkg ≡ p
  unfolding verify_whole
  verify_whole-pkg dir p = elim (Option-cases (c.sha256_file (dir package_file_name))) [
    | inl n ↦ rw (n, verify_whole) refl
    | inr (d, y) ↦ rw (y, verify_whole) refl
  ]

  verify_dir-IsOfAssignment :
      (dir : String → Option Text) (id : String) → IsOfAssignment (verify_dir c dir id)
  unfolding verify_dir
  verify_dir-IsOfAssignment dir id =
      let text : Text = elim (dir package_file_name) [ none ↦ empty | some t ↦ t ] in
      let p : Package = (c.parse_package text).1 in
      if_branches IsOfAssignment (is_empty text) (λ _. λ h. absurd (ground (arith, h)))
        (λ _.
          if_branches IsOfAssignment (not (c.parse_package text).0)
            (λ _. λ h. absurd (ground (arith, h)))
            (λ b.
              if_branches IsOfAssignment (not (p.package_id == id))
                (λ _. λ h. laws.of_assignment text (ground (arith, b)))
                (λ _.
                  λ h. rw (verify_whole-pkg dir p) (laws.of_assignment text (ground (arith, b))))))

  -- An undamaged package is of an assignment.
  pub verify_package-assignment :
      (outbox : List (Entry Text)) (id : String) → IsOfAssignment (verify_package c outbox id)
  unfolding verify_package
  verify_package-assignment outbox id = elim (Option-cases (payload outbox id)) [
    | inl n ↦ rw (n, verify_package) (λ h. absurd (ground (arith, h)))
    | inr (dir, y) ↦ rw (y, verify_package) (verify_dir-IsOfAssignment dir id)
  ]
