-- ===== src/Tests/Sample.antt =====
-- A JSON reader over document trees, an evidence library over it, and a transport: values of the
-- parameters of the evidence model, with the laws that it asks of them.
use Prim.Native.Char.{code}
use virule_client.Prelude.{
  ℕ, String, ◌≡◌, refl, ap, List, [], ◌∷◌, map, Option, none, some, Bool, true, false, not,
  if_branches, ◌&&◌, ◌||◌, arith, Dict, lookup, put, lookup-put, eqb, leb, length, ◌==◌, eq_iff,
  if◌then◌else◌,
}
use virule_client.Evidence.Json.{Json, JsonLaws}
use virule_client.Evidence.Core.{
  Core, CoreLaws, IsReadable, Entry, Box, Package, PackageFile, Receipt, no_package, payload,
}

-- A document: a JSON value, a file's bytes by their digest and size, a package or a receipt.
mutual
  pub data Doc : Type 0 where
    blank : Doc
    text : String → Doc
    num : ℕ → Doc
    truth : Bool → Doc
    arr : Docs → Doc
    obj : Fields → Doc
    blob : String → ℕ → Doc
    pack : Package → Doc
    slip : Receipt → Doc

  pub data Docs : Type 0 where
    nil : Docs
    cons : Doc → Docs → Docs

  pub data Fields : Type 0 where
    end : Fields
    field : String → Doc → Fields → Fields

abbrev pub to_docs : List Doc → Docs
to_docs [] = nil
to_docs (d ∷ ds) = cons d (to_docs ds)

abbrev pub of_docs : Docs → List Doc
of_docs nil = []
of_docs (cons d ds) = d ∷ of_docs ds

of_docs-to_docs : (ds : List Doc) → of_docs (to_docs ds) ≡ ds
of_docs-to_docs [] = refl
of_docs-to_docs (d ∷ ds) = ap (◌∷◌ d) (of_docs-to_docs ds)

abbrev pub to_fields : Dict Doc → Fields
to_fields [] = end
to_fields ((k, d) ∷ ms) = field k d (to_fields ms)

abbrev pub find : Fields → String → Option Doc
find end k = none
find (field j d fs) k = if j == k then some d else find fs k

find-to_fields : (ms : Dict Doc) (k : String) → find (to_fields ms) k ≡ lookup k ms
unfolding lookup
find-to_fields [] k = refl
find-to_fields ((j, d) ∷ ms) k = ground (arith, find-to_fields ms k)

abbrev pub is_blank : Doc → Bool
is_blank blank = true
is_blank _ = false

abbrev pub is_obj : Doc → Bool
is_obj (obj _) = true
is_obj _ = false

abbrev pub member_of : Doc → String → Option Doc
member_of (obj fs) k = find fs k
member_of _ k = none

abbrev pub items_of : Doc → Option (List Doc)
items_of (arr ds) = some (of_docs ds)
items_of _ = none

abbrev pub string_of : Doc → Option String
string_of (text s) = some s
string_of _ = none

abbrev pub int_of : Doc → Option ℕ
int_of (num n) = some n
int_of _ = none

abbrev pub bool_of : Doc → Option Bool
bool_of (truth b) = some b
bool_of _ = none

abbrev pub json : Json
json = record {
  Text = Doc;
  empty = blank;
  is_empty = is_blank;
  is_object = is_obj;
  quote = text;
  number = num;
  boolean = truth;
  array = λ ds. arr (to_docs ds);
  object = λ ms. obj (to_fields ms);
  line = λ d. d;
  member = member_of;
  items = items_of;
  as_string = string_of;
  as_int = int_of;
  as_bool = bool_of;
}

pub json_laws : JsonLaws json
json_laws = record {
  empty_text = refl;
  object_text = λ ms. refl;
  member_line = λ t k. refl;
  member_object = find-to_fields;
  string_quote = λ s. refl;
  int_number = λ n. refl;
  bool_boolean = λ b. refl;
  items_array = λ ts. ap some (of_docs-to_docs ts);
}

-- 0 to 9 and a to f
is_hex : List ℕ → Bool
is_hex [] = true
is_hex (c ∷ cs) = ((leb b'0' c && leb c b'9') || (leb b'a' c && leb c b'f')) && is_hex cs

codes : String → List ℕ
codes String.[] = []
codes (String.◌∷◌ c s) = code c ∷ codes s

unfoldable pub hex32 : String → Bool
unfolding is_hex codes
hex32 s = eqb (length (codes s)) 32 && is_hex (codes s)

abbrev pub package_of : Doc → Bool × Package
package_of (pack p) = if hex32 p.assignment_id then (true, p) else (false, p)
package_of _ = (false, no_package)

-- A package.json has a digest and a size of its own.
abbrev pub digest : Option Doc → Option (String × ℕ)
digest (some (blob sha n)) = some (sha, n)
digest (some (pack p)) = some ("head", 2)
digest _ = none

-- A stored receipt keeps no sizes of files.
abbrev as_stored : Receipt → Receipt
as_stored r = record r { files = map (λ (f : PackageFile). record f { bytes = 0 }) r.files }

abbrev is_readable : Receipt → Bool
is_readable r = hex32 r.package_id && (hex32 r.assignment_id && not (r.receipt_id == ""))

abbrev slip_of : Option Doc → Option Receipt
slip_of (some (slip r)) = if is_readable r then some r else none
slip_of _ = none

abbrev pub receipt_at : Dict Doc → String → Option Receipt
receipt_at d id = slip_of (lookup id d)

abbrev pub drop_entry : String → List (Entry Doc) → List (Entry Doc)
drop_entry id [] = []
drop_entry id (e ∷ es) = let rest = drop_entry id es in if e.id == id then rest else e ∷ rest

abbrev pub write_slip : Box Doc → Receipt → Box Doc
write_slip b r = record {
  receipts = put r.package_id (slip (as_stored r)) b.receipts;
  outbox = drop_entry r.package_id b.outbox;
}

-- Every write is made.
abbrev pub core : Core json
core = record {
  is_hex32 = hex32;
  parse_package = package_of;
  sha256_file = digest;
  read_receipt = receipt_at;
  acknowledge = λ n b r. (true, write_slip b r);
  store_progress = λ n d a p. put a p d;
  writes = λ n. true;
}

payload-drop_entry :
    (id k : String) (es : List (Entry Doc))
    → (id == k) ≡ false
    → payload (drop_entry id es) k ≡ payload es k
unfolding payload
payload-drop_entry id k [] h = refl
payload-drop_entry id k (e ∷ es) h =
    ground (arith, payload-drop_entry id k es h, eq_iff e.id id, eq_iff e.id k, eq_iff id k)

parsed_assignment :
    (d : Doc) → (package_of d).0 ≡ true → hex32 (package_of d).1.assignment_id ≡ true
parsed_assignment (pack p) h =
    if_branches (λ (r : Bool × Package). r.0 ≡ true → hex32 r.1.assignment_id ≡ true)
      (hex32 p.assignment_id) (λ b. λ _. b) (λ _. λ k. absurd (ground (arith, k))) h
parsed_assignment d h = absurd (ground (arith, h))

as_stored-IsStored : (r : Receipt) → IsReadable hex32 r → is_readable (as_stored r) ≡ true
as_stored-IsStored r k = ground (arith, k.package_hex, k.assignment_hex, k.named)

pub core_laws : CoreLaws core
core_laws = record {
  refused = λ n b r h. cc;
  of_assignment = parsed_assignment;
  written = λ n b r k h. ground (
    arith,
    lookup-put r.package_id r.package_id (slip (as_stored r)) b.receipts,
    eq_iff r.package_id r.package_id,
    as_stored-IsStored r k,
  );
  other_receipts =
      λ n b r id h. ground (arith, lookup-put r.package_id id (slip (as_stored r)) b.receipts);
  other_payloads = λ n b r id h. payload-drop_entry r.package_id id b.outbox h;
}
