-- ===== src/Evidence/Document.antt =====
-- The delivery state and its document, evidence\delivery\<id>.json (src/shared/evidence_queue.hpp).
use virule_client.Prelude.{
  ap, ℕ, String, ◌≡◌, ◌∙◌, ◌⊎◌, refl, List, [], ◌∷◌, map, Option, none, some, Bool, true, false,
  arith, ◌==◌, eq_iff, lookup, contains, sort, unique, IsOrdered, All, contains-sort,
  contains-unique, if◌then◌else◌, sort_of_IsOrdered, unique_of_IsOrdered,
}
use virule_client.Evidence.Json.{Json, JsonLaws, get_string, get_bool, opt_string, opt_int}

abbrev pub reason_signed_out : String
reason_signed_out = "signed_out"

abbrev pub reason_other_account : String
reason_other_account = "other_account"

abbrev pub reason_offline : String
reason_offline = "offline"

abbrev pub reason_refused : String
reason_refused = "refused"

-- `next_attempt_utc` 0 is due now; `failures` counts the attempts in a row without progress.
pub record State : Type 0 where
  pub package_id : String
  pub assignment_id : String
  pub attempts : ℕ
  pub failures : ℕ
  pub next_attempt_utc : ℕ
  pub last_error : String
  pub damaged : Bool
  pub acked : List String
  pub state : String
  pub reason : String
  pub updated_utc : ℕ

-- `State{}` with its package_id set.
abbrev pub fresh_state : String → State
fresh_state id = record {
  package_id = id;
  assignment_id = "";
  attempts = 0;
  failures = 0;
  next_attempt_utc = 0;
  last_error = "";
  damaged = false;
  acked = [];
  state = "waiting";
  reason = "";
  updated_utc = 0;
}

module _ (j : Json) where
  open j use {Text, quote, number, boolean, array, object, line}

  unfoldable pub state_json : State → Text
  state_json s = line (
      object (
        ("package_id", quote s.package_id)
        ∷ ("assignment_id", quote s.assignment_id)
        ∷ ("attempts", number s.attempts)
        ∷ ("failures", number s.failures)
        ∷ ("next_attempt_utc", number s.next_attempt_utc)
        ∷ ("last_error", quote s.last_error)
        ∷ ("damaged", boolean s.damaged)
        ∷ ("state", quote s.state)
        ∷ ("reason", quote s.reason)
        ∷ ("updated_utc", number s.updated_utc)
        ∷ ("acked", array (map quote s.acked))
        ∷ []))

module _ (j : Json) (is_hex32 : String → Bool) where
  open j use {Text, quote, number, boolean, array, object, member, items, as_string}

  -- The loop over the items of `acked`: what is no text, or empty, is left out.
  collect_names : List Text → List String
  collect_names [] = []
  collect_names (t ∷ ts) =
      let rest = collect_names ts in
      elim (as_string t) [ none ↦ rest | some f ↦ if f == "" then rest else f ∷ rest ]

  read_names : Option Text → List String
  read_names raw = elim raw [
    | none ↦ []
    | some t ↦ elim (items t) [ none ↦ [] | some ts ↦ collect_names ts ]
  ]

  unfoldable pub parse_state : Text → Option State
  unfolding read_names collect_names
  parse_state text = elim (get_string j text "package_id") [
    | none ↦ none
    | some id ↦
        if is_hex32 id
        then some (record {
          package_id = id;
          assignment_id = opt_string j text "assignment_id";
          attempts = opt_int j text "attempts";
          failures = opt_int j text "failures";
          next_attempt_utc = opt_int j text "next_attempt_utc";
          last_error = opt_string j text "last_error";
          damaged = elim (get_bool j text "damaged") [ none ↦ false | some b ↦ b ];
          acked = unique (sort (read_names (member text "acked")));
          state = if opt_string j text "state" == "sending" then "sending" else "waiting";
          reason = opt_string j text "reason";
          updated_utc = opt_int j text "updated_utc";
        })
        else none
  ]

  -- The empty names left out.
  nonempty : List String → List String
  nonempty [] = []
  nonempty (f ∷ fs) = let rest = nonempty fs in if f == "" then rest else f ∷ rest

  -- A delivery state as it is read back.
  pub normal : State → State
  unfolding nonempty
  normal s = record s {
    acked = unique (sort (nonempty s.acked));
    state = if s.state == "sending" then "sending" else "waiting";
  }

  pub normal-package_id : (s : State) → (normal s).package_id ≡ s.package_id
  unfolding normal
  normal-package_id s = refl

  pub normal-next_attempt_utc : (s : State) → (normal s).next_attempt_utc ≡ s.next_attempt_utc
  unfolding normal
  normal-next_attempt_utc s = refl

  contains-nonempty :
      (fs : List String) (f : String) → (f == "") ≡ false → contains (nonempty fs) f ≡ contains fs f
  unfolding nonempty contains
  contains-nonempty [] f h = refl
  contains-nonempty (g ∷ fs) f h =
      ground (arith, contains-nonempty fs f h, eq_iff g f, eq_iff g "", eq_iff f "")

  -- Every file but the empty name is read back.
  pub normal-acked :
      (s : State) (f : String)
      → (f == "") ≡ false
      → contains (normal s).acked f ≡ contains s.acked f
  unfolding normal
  normal-acked s f h =
      contains-unique (sort (nonempty s.acked)) f
      ∙ contains-sort (nonempty s.acked) f
      ∙ contains-nonempty s.acked f h

  pub normal_counters :
      (s : State) → ((normal s).attempts ≡ s.attempts) × ((normal s).failures ≡ s.failures)
  unfolding normal
  normal_counters s = (refl, refl)

  -- What every delivery state that the client writes satisfies.
  pub record IsStored (s : State) : Type 0 where
    pub hex_id : is_hex32 s.package_id ≡ true
    pub mode : (s.state ≡ "sending") ⊎ (s.state ≡ "waiting")
    pub ordered : IsOrdered s.acked
    pub named : All (λ f. (f == "") ≡ false) s.acked

  module _ (laws : JsonLaws j) where
    collect_names-map-quote : (fs : List String) → collect_names (map quote fs) ≡ nonempty fs
    unfolding collect_names nonempty
    collect_names-map-quote [] = refl
    collect_names-map-quote (f ∷ fs) = rw (laws.string_quote f, collect_names-map-quote fs)

    member_state :
        (s : State) (k : String)
        → member (state_json j s) k
          ≡ lookup k (
              ("package_id", quote s.package_id)
              ∷ ("assignment_id", quote s.assignment_id)
              ∷ ("attempts", number s.attempts)
              ∷ ("failures", number s.failures)
              ∷ ("next_attempt_utc", number s.next_attempt_utc)
              ∷ ("last_error", quote s.last_error)
              ∷ ("damaged", boolean s.damaged)
              ∷ ("state", quote s.state)
              ∷ ("reason", quote s.reason)
              ∷ ("updated_utc", number s.updated_utc)
              ∷ ("acked", array (map quote s.acked))
              ∷ [])
    unfolding state_json
    member_state s k = laws.member_line _ k ∙ laws.member_object _ k

    pub parse-state_json :
        (s : State) → is_hex32 s.package_id ≡ true → parse_state (state_json j s) ≡ some (normal s)
    unfolding parse_state lookup read_names normal
    parse-state_json s h = ground (
      arith,
      member_state s "package_id",
      member_state s "assignment_id",
      member_state s "attempts",
      member_state s "failures",
      member_state s "next_attempt_utc",
      member_state s "last_error",
      member_state s "damaged",
      member_state s "state",
      member_state s "reason",
      member_state s "updated_utc",
      member_state s "acked",
      laws.string_quote s.package_id,
      laws.string_quote s.assignment_id,
      laws.string_quote s.last_error,
      laws.string_quote s.state,
      laws.string_quote s.reason,
      laws.int_number s.attempts,
      laws.int_number s.failures,
      laws.int_number s.next_attempt_utc,
      laws.int_number s.updated_utc,
      laws.bool_boolean s.damaged,
      laws.items_array (map quote s.acked),
      collect_names-map-quote s.acked,
    )

    nonempty-All : (fs : List String) → All (λ f. (f == "") ≡ false) fs → nonempty fs ≡ fs
    unfolding nonempty
    nonempty-All [] h = refl
    nonempty-All (f ∷ fs) h = rw (h.0, nonempty-All fs h.1)

    normal_of_IsStored : (s : State) → IsStored s → normal s ≡ s
    unfolding normal
    normal_of_IsStored s h = ground (
      arith,
      nonempty-All s.acked h.named,
      sort_of_IsOrdered s.acked h.ordered,
      unique_of_IsOrdered s.acked h.ordered,
      eq_iff s.state "sending",
      h.mode,
    )

    -- A delivery state that the client writes is read back as it was: a kill between two writes
    -- loses nothing of it.
    pub parse-state_json_stored : (s : State) → IsStored s → parse_state (state_json j s) ≡ some s
    parse-state_json_stored s h = parse-state_json s h.hex_id ∙ ap some (normal_of_IsStored s h)

module _ (j : Json) (laws : JsonLaws j) where
  unfoldable pub state_json_nonempty : (s : State) → j.is_empty (state_json j s) ≡ false
  unfolding state_json
  state_json_nonempty s = laws.object_text _
