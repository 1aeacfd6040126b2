-- ===== src/Evidence/World.antt =====
-- The evidence root and the counters of src/shared/evidence_queue.hpp as one state, what the
-- outside decides, and the operations on the delivery documents.
pub mod Load
use virule_client.Prelude.{
  ℕ, suc, ◌+◌, ◌%◌, ◌^◌, String, ◌≡◌, List, [], ◌∷◌, Option, none, some, Bool, true, false, Dict,
  lookup, put, without, ◌==◌, if◌then◌else◌,
}
use virule_client.Evidence.Json.{Json}
use virule_client.Evidence.Core.{Core, Box, Entry}
use virule_client.Evidence.Document.{State, fresh_state, state_json, parse_state}

pub data Kind : Type 0 where
  early report : Kind

abbrev pub is_early : Kind → Bool
is_early early = true
is_early report = false

abbrev pub same_kind : Kind → Kind → Bool
same_kind early early = true
same_kind report report = true
same_kind _ _ = false

-- A folder of one kind changed.
abbrev pub at_kind : {Text : Type 0} → Kind → Dict Text → (Kind → Dict Text) → Kind → Dict Text
at_kind k d f k' = if same_kind k k' then d else f k'

pub record World (Text : Type 0) : Type 0 where
  pub box : Box Text
  pub open box use *
  -- evidence\delivery\<id>.json by id
  pub delivery : Dict Text
  -- evidence\progress\<assignment>.json by assignment
  pub progress : Dict Text
  -- evidence\requests, the state of their delivery and their receipts, each by kind and assignment
  pub requests : Kind → Dict Text
  pub request_delivery : Kind → Dict Text
  pub request_receipts : Kind → Dict Text
  -- calls made of the file system and of the clock
  pub steps : ℕ
  pub changes : ℕ
  pub acked_files : ℕ

-- What the file system and the clock answer at each step. A removal that fails may have taken some
-- of a directory's files: `left` says what it leaves.
pub record Outside (Text : Type 0) : Type 0 where
  -- the evidence root is not the empty path
  pub rooted : Bool
  pub removes : ℕ → Bool
  pub left : ℕ → (String → Option Text) → String → Option Text
  pub clock : ℕ → ℕ
  -- gmtime_s and strftime
  pub utc_text : ℕ → String

-- std::atomic<std::uint64_t>::fetch_add(1)
abbrev pub count_up : ℕ → ℕ
count_up n = (n + 1) % 2 ^ 64

unfoldable pub remove_dir :
    {Text : Type 0} → Outside Text → ℕ → String → List (Entry Text) → List (Entry Text)
remove_dir o n id [] = []
remove_dir o n id (e ∷ es) =
    let rest = remove_dir o n id es in
    if e.id == id
    then if o.removes n then rest else record e { files = o.left n e.files } ∷ rest
    else e ∷ rest

-- A document that does not parse, or is another package's, counts as none.
unfoldable pub own : String → Option State → State
own id none = fresh_state id
own id (some s) = if s.package_id == id then s else fresh_state id

module _ {j : Json} (c : Core j) (o : Outside j.Text) where
  open j use {Text, empty, is_empty}

  -- read_document: an absent file reads as the empty text
  abbrev pub read_document : Option Text → Text
  read_document f = elim f [ none ↦ empty | some t ↦ t ]

  unfoldable pub load_state : World Text → String → State
  unfolding own
  load_state w id =
      let text = read_document (lookup id w.delivery) in
      if is_empty text then fresh_state id else own id (parse_state j c.is_hex32 text)

  -- Every caller drops whether the write was made, so it is not returned.
  unfoldable pub save_state : State → World Text → World Text
  save_state s w = record w {
    delivery =
        if c.writes w.steps then put s.package_id (state_json j s) w.delivery else w.delivery;
    steps = suc w.steps;
  }

  unfoldable pub remove_state : String → World Text → World Text
  remove_state id w = record w {
    delivery = if o.removes w.steps then without id w.delivery else w.delivery;
    steps = suc w.steps;
  }

  unfoldable pub note_change : World Text → World Text
  note_change w = record w { changes = count_up w.changes }

  -- fs::remove_all of a package's outbox folder
  unfoldable pub remove_payload : String → World Text → World Text
  unfolding remove_dir
  remove_payload id w = record w {
    box = record w.box { outbox = remove_dir o w.steps id w.outbox };
    steps = suc w.steps;
  }
