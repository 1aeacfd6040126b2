-- ===== src/Evidence/Json.antt =====
-- virule_core's JSON reader, third-party code: the functions that evidence_queue.hpp calls, as a
-- parameter, and the laws that its documentation gives.
-- A document's text is abstract. The texts that the client puts together by `+` are built by
-- `object` (the members in order), `array`, `number`, `boolean` and `line`, the reader's `quote`
-- among them.
use virule_client.Prelude.{
  ℕ, String, ◌≡◌, List, Option, none, some, Bool, true, false, Dict, lookup,
}

pub record Json : Type 1 where
  pub Text : Type 0
  -- the empty text, which `read_document` also gives for a file that is not there
  pub empty : Text
  pub is_empty : Text → Bool
  -- the text's first character is `{`
  pub is_object : Text → Bool
  pub quote : String → Text
  pub number : ℕ → Text
  pub boolean : Bool → Text
  pub array : List Text → Text
  pub object : Dict Text → Text
  -- the text and a newline
  pub line : Text → Text
  pub member : Text → String → Option Text
  pub items : Text → Option (List Text)
  pub as_string : Text → Option String
  pub as_int : Text → Option ℕ
  pub as_bool : Text → Option Bool

module _ (j : Json) where
  open j use {Text, member, as_string, as_int, as_bool}

  -- The reader's shorthands, by their documentation: a member, read as a value of one kind.
  abbrev pub get_string : Text → String → Option String
  get_string t k = elim (member t k) [ none ↦ none | some raw ↦ as_string raw ]

  abbrev pub get_bool : Text → String → Option Bool
  get_bool t k = elim (member t k) [ none ↦ none | some raw ↦ as_bool raw ]

  abbrev pub get_int : Text → String → Option ℕ
  get_int t k = elim (member t k) [ none ↦ none | some raw ↦ as_int raw ]

  abbrev pub opt_string : Text → String → String
  opt_string t k = elim (get_string t k) [ none ↦ "" | some s ↦ s ]

  abbrev pub opt_int : Text → String → ℕ
  opt_int t k = elim (get_int t k) [ none ↦ 0 | some n ↦ n ]

  -- What is built is read back.
  pub record JsonLaws : Type 0 where
    pub empty_text : j.is_empty j.empty ≡ true
    pub object_text : (ms : Dict Text) → j.is_empty (j.line (j.object ms)) ≡ false
    pub member_line : (t : Text) (k : String) → member (j.line t) k ≡ member t k
    pub member_object : (ms : Dict Text) (k : String) → member (j.object ms) k ≡ lookup k ms
    pub string_quote : (s : String) → as_string (j.quote s) ≡ some s
    pub int_number : (n : ℕ) → as_int (j.number n) ≡ some n
    pub bool_boolean : (b : Bool) → as_bool (j.boolean b) ≡ some b
    pub items_array : (ts : List Text) → j.items (j.array ts) ≡ some ts
