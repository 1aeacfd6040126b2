-- ===== src/Transfers/Install/Entry.antt =====
-- The names of the files in a package (src/client/transfers.hpp, safe_entry), as lists of bytes.
pub mod Inside
use virule_client.Prelude.{
  ℕ, suc, List, [], ◌∷◌, ◌++◌, Option, none, some, Bool, true, false, not, ◌&&◌, ◌||◌, eqb, ltb,
  if◌then◌else◌,
}
use virule_client.Transfers.Upload.Parts.{count}
use virule_client.Transfers.Install.Chain.{and_then}

abbrev pub ByteString : Type 0
ByteString = List ℕ

-- `/` or `\`
abbrev pub is_separator : ℕ → Bool
is_separator c = eqb c 47 || eqb c 92

unfoldable pub has_byte : (ℕ → Bool) → ByteString → Bool
has_byte f [] = false
has_byte f (c ∷ cs) = f c || has_byte f cs

-- `.` and `..`
abbrev pub is_dots : ByteString → Bool
is_dots (a ∷ []) = eqb a 46
is_dots (a ∷ b ∷ []) = eqb a 46 && eqb b 46
is_dots _ = false

-- A part of the name ends; an empty one is skipped but at the name's start.
unfoldable pub close_part : Bool → ByteString → List ByteString → Option (List ByteString)
close_part at_start [] parts = if at_start then none else some parts
close_part at_start (c ∷ cs) parts =
    if is_dots (c ∷ cs) || has_byte (eqb 58) (c ∷ cs) then none else some (parts ++ ((c ∷ cs) ∷ []))

unfoldable pub split_name :
    Bool → ByteString → List ByteString → ByteString → Option (List ByteString)
split_name at_start part parts [] = close_part at_start part parts
split_name at_start part parts (c ∷ cs) =
    if is_separator c
    then and_then (close_part at_start part parts) (λ closed. split_name false [] closed cs)
    else split_name false (part ++ (c ∷ [])) parts cs

abbrev pub unless_empty : List ByteString → Option (List ByteString)
unless_empty [] = none
unless_empty (p ∷ ps) = some (p ∷ ps)

-- The parts of the path below the folder, if the name is safe.
unfoldable pub safe_entry : ByteString → Option (List ByteString)
safe_entry name =
    if eqb (count name) 0 || ltb 1024 (count name)
    then none
    else and_then (split_name true [] [] name) unless_empty
