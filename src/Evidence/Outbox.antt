-- ===== src/Evidence/Outbox.antt =====
-- The outbox packages, oldest first, and their verification (src/shared/evidence_queue.hpp).
pub mod Order
pub mod Names
use virule_client.Prelude.{
  ℕ, ◌≤◌, ◌<◌, String, ◌≡◌, ◌⊎◌, refl, List, [], ◌∷◌, map, Option, none, some, Bool, true, false,
  not, ◌&&◌, ◌||◌, arith, eqb, ltb, leb, ◌==◌, eq_iff, if◌then◌else◌, All, contains, precedes,
}
use Prim.Native.String.{◌++◌}
use virule_client.Evidence.Json.{Json}
use virule_client.Evidence.Core.{Core, Box, Entry, Package, PackageFile, no_package, payload}
use virule_client.Evidence.Answer.{OfferFile}

abbrev pub package_file_name : String
package_file_name = "package.json"

-- The comparison that the entries are sorted by.
unfoldable pub older : {Text : Type 0} → Entry Text → Entry Text → Bool
older a b = if not (eqb a.created b.created) then ltb a.created b.created else precedes a.id b.id

place_entry : {Text : Type 0} → Entry Text → List (Entry Text) → List (Entry Text)
place_entry e [] = e ∷ []
place_entry e (x ∷ xs) = let rest = place_entry e xs in if older e x then e ∷ x ∷ xs else x ∷ rest

sort_entries : {Text : Type 0} → List (Entry Text) → List (Entry Text)
sort_entries [] = []
sort_entries (e ∷ es) = place_entry e (sort_entries es)

-- The directory loop: directories named by 32 hex digits.
pub listed : {Text : Type 0} → (String → Bool) → List (Entry Text) → List (Entry Text)
listed is_hex32 [] = []
listed is_hex32 (e ∷ es) =
    let rest = listed is_hex32 es in
    if not e.is_directory then rest else if not (is_hex32 e.id) then rest else e ∷ rest

-- The listed entries, oldest first.
unfoldable pub ordered : {Text : Type 0} → (String → Bool) → List (Entry Text) → List (Entry Text)
unfolding sort_entries place_entry listed older
ordered is_hex32 es = sort_entries (listed is_hex32 es)

unfoldable pub outbox_ids : {Text : Type 0} → (String → Bool) → List (Entry Text) → List String
unfolding ordered
outbox_ids is_hex32 es = map (λ e. e.id) (ordered is_hex32 es)

-- What is wrong with a package (the empty text: nothing), the package as far as it was read, and
-- its files.
pub record Verified (Text : Type 0) : Type 0 where
  pub damage : String
  pub pkg : Package
  pub files : List (OfferFile Text)

module _ {j : Json} (c : Core j) where
  open j use {Text, empty, is_empty}

  abbrev damaged_as : String → Package → List (OfferFile Text) → Verified Text
  damaged_as why p fs = record { damage = why; pkg = p; files = fs }

  -- The loop over the package's files: the damage, and the files that were whole before it.
  unfoldable pub verify_files :
      (String → Option Text) → List PackageFile → String × List (OfferFile Text)
  verify_files dir [] = ("", [])
  verify_files dir (f ∷ fs) =
      let rest = verify_files dir fs in
      elim (c.sha256_file (dir f.file)) [
        | none ↦ ("missing file " ++ f.file, [])
        | some (sha, bytes) ↦
            if not (eqb bytes f.bytes)
            then ("size mismatch in " ++ f.file, [])
            else if not (sha == f.sha256)
            then ("hash mismatch in " ++ f.file, [])
            else (
              rest.0,
              record { file = f.file; sha256 = sha; bytes = bytes; body = dir f.file } ∷ rest.1,
            )
      ]

  -- After package.json is read: its own digest, then every file that it lists.
  unfoldable pub verify_whole : (String → Option Text) → Package → Verified Text
  verify_whole dir p = elim (c.sha256_file (dir package_file_name)) [
    | none ↦ damaged_as "package.json could not be read" p []
    | some (sha, bytes) ↦
        let head : OfferFile Text = record {
          file = package_file_name;
          sha256 = sha;
          bytes = bytes;
          body = dir package_file_name;
        } in
        let (damage, files) = verify_files dir p.files in damaged_as damage p (head ∷ files)
  ]

  unfoldable pub verify_dir : (String → Option Text) → String → Verified Text
  verify_dir dir id =
      let text : Text = elim (dir package_file_name) [ none ↦ empty | some t ↦ t ] in
      if is_empty text
      then damaged_as "package.json is missing or unreadable" no_package []
      else let (parsed, p) = c.parse_package text in
        if not parsed
        then damaged_as "package.json is not a valid evidence package" p []
        else if not (p.package_id == id)
        then damaged_as "package.json names a different package" p []
        else verify_whole dir p

  -- A package whose folder is gone has no package.json.
  unfoldable pub verify_package : List (Entry Text) → String → Verified Text
  verify_package outbox id = elim (payload outbox id) [
    | none ↦ damaged_as "package.json is missing or unreadable" no_package []
    | some dir ↦ verify_dir dir id
  ]
