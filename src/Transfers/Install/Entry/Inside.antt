-- ===== src/Transfers/Install/Entry/Inside.antt =====
-- A file of a package stays inside the folder into which it is extracted (src/client/transfers.hpp,
-- safe_entry).
use virule_client.Prelude.{
  ℕ, ◌≡◌, refl, List, [], ◌∷◌, ◌++◌, Option, none, some, Bool, true, false, ◌||◌, eqb, ltb,
  if_branches, All, arith,
}
use virule_client.Transfers.Upload.Parts.{count}
use virule_client.Transfers.Install.Chain.{and_then}
use virule_client.Transfers.Install.Entry.{
  ByteString, is_separator, has_byte, is_dots, close_part, split_name, unless_empty, safe_entry,
}

abbrev pub is_named {ℓ} : {A : Type ℓ} → List A → Bool
is_named [] = false
is_named (x ∷ xs) = true

-- A part names a file or a folder in the one above it.
pub record IsInside (part : ByteString) : Type 0 where
  pub named : is_named part ≡ true
  pub no_dots : is_dots part ≡ false
  pub no_colon : has_byte (eqb 58) part ≡ false
  pub no_separator : has_byte is_separator part ≡ false

abbrev pub AreInside : Option (List ByteString) → Type 0
AreInside none = Unit
AreInside (some parts) = All IsInside parts

has_byte-append :
    (f : ℕ → Bool) (xs ys : ByteString) → has_byte f (xs ++ ys) ≡ (has_byte f xs || has_byte f ys)
unfolding has_byte
has_byte-append f [] ys = refl
has_byte-append f (x ∷ xs) ys = ground (arith, has_byte-append f xs ys)

All-append : (ps qs : List ByteString) → All IsInside ps → All IsInside qs → All IsInside (ps ++ qs)
All-append [] qs h k = k
All-append (p ∷ ps) qs (h, hs) k = (h, All-append ps qs hs k)

close_part-AreInside :
    (at_start : Bool) (part : ByteString) (parts : List ByteString)
    → has_byte is_separator part ≡ false
    → All IsInside parts
    → AreInside (close_part at_start part parts)
unfolding close_part
close_part-AreInside at_start [] parts s h = if_branches AreInside at_start (λ _. tt) (λ _. h)
close_part-AreInside at_start (c ∷ cs) parts s h =
    if_branches AreInside (is_dots (c ∷ cs) || has_byte (eqb 58) (c ∷ cs)) (λ _. tt)
      (λ b. All-append parts ((c ∷ cs) ∷ []) h (
        record {
          named = refl;
          no_dots = ground (arith, b);
          no_colon = ground (arith, b);
          no_separator = s;
        },
        tt,
      ))

split_name-AreInside :
    (at_start : Bool) (part : ByteString) (parts : List ByteString) (name : ByteString)
    → has_byte is_separator part ≡ false
    → All IsInside parts
    → AreInside (split_name at_start part parts name)
unfolding split_name has_byte
split_name-AreInside at_start part parts [] s h = close_part-AreInside at_start part parts s h
split_name-AreInside at_start part parts (c ∷ cs) s h =
    if_branches AreInside (is_separator c)
      (λ _.
        goes (close_part at_start part parts) (close_part-AreInside at_start part parts s h)
          (λ closed. split_name-AreInside false [] closed cs refl))
      (λ b.
        split_name-AreInside false (part ++ (c ∷ [])) parts cs
          (ground (arith, has_byte-append is_separator part (c ∷ []), s, b)) h)
  where
    goes :
        (o : Option (List ByteString))
        → AreInside o
        → ((closed : List ByteString)
            → All IsInside closed
            → AreInside (split_name false [] closed cs))
        → AreInside (and_then o (λ closed. split_name false [] closed cs))
    goes none _ _ = tt
    goes (some closed) k next = next closed k

-- A path of at least one part.
abbrev pub IsPathInside : Option (List ByteString) → Type 0
IsPathInside none = Unit
IsPathInside (some parts) = (is_named parts ≡ true) × All IsInside parts

unless_empty-IsPathInside :
    (parts : List ByteString) → All IsInside parts → IsPathInside (unless_empty parts)
unless_empty-IsPathInside [] h = tt
unless_empty-IsPathInside (p ∷ ps) h = (refl, h)

-- A name that is taken has at least one part, and its parts are not empty, are not `.` or `..`,
-- and hold no colon and no separator.
pub safe_entry-IsPathInside : (name : ByteString) → IsPathInside (safe_entry name)
unfolding safe_entry has_byte
safe_entry-IsPathInside name =
    if_branches IsPathInside (eqb (count name) 0 || ltb 1024 (count name)) (λ _. tt)
      (λ _. goes (split_name true [] [] name) (split_name-AreInside true [] [] name refl tt))
  where
    goes : (o : Option (List ByteString)) → AreInside o → IsPathInside (and_then o unless_empty)
    goes none _ = tt
    goes (some parts) h = unless_empty-IsPathInside parts h
