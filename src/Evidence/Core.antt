-- ===== src/Evidence/Core.antt =====
-- What src/shared/evidence_queue.hpp takes from virule_core's evaluation_evidence.hpp, third-party
-- code: its types as far as the client reads them, its functions as a parameter, and what its
-- documentation says of `acknowledge`.
use virule_client.Prelude.{
  ℕ, String, ◌≡◌, List, [], ◌∷◌, Option, none, some, Bool, true, false, Dict, ◌==◌, if◌then◌else◌,
}
use virule_client.Evidence.Json.{Json}

pub record PackageFile : Type 0 where
  pub file : String
  pub sha256 : String
  pub bytes : ℕ

-- `files` is what `package_files` gives of the captures.
pub record Package : Type 0 where
  pub package_id : String
  pub assignment_id : String
  pub evaluator_id : String
  pub files : List PackageFile

abbrev pub no_package : Package
no_package = record { package_id = ""; assignment_id = ""; evaluator_id = ""; files = [] }

pub record Receipt : Type 0 where
  pub package_id : String
  pub assignment_id : String
  pub receipt_id : String
  pub acknowledged_utc : String
  pub files : List PackageFile
  pub simulated : Bool

-- One entry of the outbox folder; `files` are the files of a directory by their names.
pub record Entry (Text : Type 0) : Type 0 where
  pub created : ℕ
  pub id : String
  pub is_directory : Bool
  pub files : String → Option Text

-- The two folders that a delivery ends in: the receipts by package id, and the outbox.
pub record Box (Text : Type 0) : Type 0 where
  pub receipts : Dict Text
  pub outbox : List (Entry Text)

-- The files of a package in the outbox.
unfoldable pub payload :
    {Text : Type 0} → List (Entry Text) → String → Option (String → Option Text)
payload [] id = none
payload (e ∷ es) id = let rest = payload es id in if e.id == id then some e.files else rest

-- A number counts the calls made so far: a call may end differently the next time.
pub record Core (j : Json) : Type 0 where
  pub is_hex32 : String → Bool
  -- false, or a package that may be read in part
  pub parse_package : j.Text → Bool × Package
  -- none where the file is missing or cannot be read
  pub sha256_file : Option j.Text → Option (String × ℕ)
  pub read_receipt : Dict j.Text → String → Option Receipt
  pub acknowledge : ℕ → Box j.Text → Receipt → Bool × Box j.Text
  -- the progress folder after a progress document is offered to it
  pub store_progress : ℕ → Dict j.Text → String → j.Text → Dict j.Text
  -- whether a `write_file_atomic` is made; one that is not leaves the file as it was
  pub writes : ℕ → Bool

-- What a written receipt must have to be read: an id, an assignment and a name of its own.
pub record IsReadable (is_hex32 : String → Bool) (r : Receipt) : Type 0 where
  pub package_hex : is_hex32 r.package_id ≡ true
  pub assignment_hex : is_hex32 r.assignment_id ≡ true
  pub named : (r.receipt_id == "") ≡ false

abbrev pub is_read : Option Receipt → Bool
is_read none = false
is_read (some _) = true

module _ {j : Json} (c : Core j) where
  -- The receipt first, durably, then the payload goes: a failed write leaves everything in place. A
  -- receipt is written as a document that is read as some receipt, though not with all of its members;
  -- a package that is read is of an assignment.
  pub record CoreLaws : Type 0 where
    pub of_assignment :
        (text : j.Text)
        → (c.parse_package text).0 ≡ true
        → c.is_hex32 (c.parse_package text).1.assignment_id ≡ true
    pub refused :
        (n : ℕ) (b : Box j.Text) (r : Receipt)
        → (c.acknowledge n b r).0 ≡ false
        → (c.acknowledge n b r).1 ≡ b
    pub written :
        (n : ℕ) (b : Box j.Text) (r : Receipt)
        → IsReadable c.is_hex32 r
        → (c.acknowledge n b r).0 ≡ true
        → is_read (c.read_receipt (c.acknowledge n b r).1.receipts r.package_id) ≡ true
    pub other_receipts :
        (n : ℕ) (b : Box j.Text) (r : Receipt) (id : String)
        → (r.package_id == id) ≡ false
        → c.read_receipt (c.acknowledge n b r).1.receipts id ≡ c.read_receipt b.receipts id
    pub other_payloads :
        (n : ℕ) (b : Box j.Text) (r : Receipt) (id : String)
        → (r.package_id == id) ≡ false
        → payload (c.acknowledge n b r).1.outbox id ≡ payload b.outbox id
