-- ===== src/Evidence/Answer.antt =====
-- What a transport is offered and what it answers (src/shared/evidence_queue.hpp): the answers'
-- parsing, the service's errors, and which of them are refusals.
use virule_client.Prelude.{
  ℕ, String, List, [], ◌∷◌, Option, none, some, Bool, true, false, ◌&&◌, ◌||◌, eqb, ltb, leb, ◌==◌,
  if◌then◌else◌,
}
use Prim.Native.String.{◌++◌}
use virule_client.Evidence.Json.{Json, opt_string}

-- `body` is what stands at the file's path.
pub record OfferFile (Text : Type 0) : Type 0 where
  pub file : String
  pub sha256 : String
  pub bytes : ℕ
  pub body : Option Text

-- `on_acked` is not a field: `deliver` lists the calls that a transport makes of it.
pub record Offer (Text : Type 0) : Type 0 where
  pub package_id : String
  pub assignment_id : String
  pub files : List (OfferFile Text)
  pub already_acked : List String

pub data AnswerKind : Type 0 where
  answered unavailable failed : AnswerKind

pub record Answer (Text : Type 0) : Type 0 where
  pub kind : AnswerKind
  pub acked : List String
  pub complete : Bool
  pub receipt_id : String
  pub error : String
  pub progress : Option Text
  pub status : ℕ
  pub refused : Bool
  pub signed_out : Bool
  pub no_answer : Bool

-- `Answer{}`
abbrev pub no_reply : {Text : Type 0} → Answer Text
no_reply = record {
  kind = failed;
  acked = [];
  complete = false;
  receipt_id = "";
  error = "";
  progress = none;
  status = 0;
  refused = false;
  signed_out = false;
  no_answer = false;
}

-- A 4xx but 401, 408, 429 and a 409 `integrity`.
pub refusal_status : ℕ → String → Bool
refusal_status status code =
    if ltb status 400 || leb 500 status
    then false
    else if eqb status 401 || (eqb status 408 || eqb status 429)
    then false
    else if eqb status 409 && (code == "integrity")
    then false
    else true

pub record ServiceReply (Text : Type 0) : Type 0 where
  pub status : ℕ
  pub body : Text

-- What an attempt comes to: the acknowledged sets that it reports as it goes, and its answer.
pub record Delivery (Text : Type 0) : Type 0 where
  pub reported : List (List String)
  pub answer : Answer Text

-- The interface that a pass works with. The number counts the calls made so far.
pub record Transport (Text : Type 0) : Type 0 where
  pub name : String
  pub simulated : Bool
  pub ready : ℕ → Bool
  pub deliver : ℕ → Offer Text → Delivery Text
  -- none: the transport carries no requests
  pub post_request : ℕ → String → Text → Option (ServiceReply Text)

module _ (j : Json) where
  open j use {Text, member, items, as_string, as_bool, is_object}

  -- The loop over `acked`: an item that is no text refuses the whole answer.
  read_all : List Text → Option (List String)
  read_all [] = some []
  read_all (t ∷ ts) =
      let rest = read_all ts in
      elim (as_string t) [
        | none ↦ none
        | some f ↦ elim rest [ none ↦ none | some fs ↦ some (f ∷ fs) ]
      ]

  -- `complete`, false if the member is absent; none if it is no truth value.
  read_complete : Text → Option Bool
  read_complete text = elim (member text "complete") [ none ↦ some false | some raw ↦ as_bool raw ]

  acked_items : Text → Option (List Text)
  acked_items text = elim (member text "acked") [ none ↦ none | some raw ↦ items raw ]

  -- Every caller passes a default `Answer`.
  pub parse_answer : Text → Option (Answer Text)
  unfolding read_all read_complete acked_items
  parse_answer text = elim (acked_items text) [
    | none ↦ none
    | some list ↦ elim (read_all list) [
      | none ↦ none
      | some names ↦ elim (read_complete text) [
        | none ↦ none
        | some whole ↦ some (record (no_reply {Text = Text}) {
          kind = answered;
          acked = names;
          complete = whole;
          receipt_id = opt_string j text "receipt_id";
          progress = elim (member text "progress") [
            | none ↦ none
            | some raw ↦ if is_object raw then some raw else none
          ];
        })
      ]
    ]
  ]

  -- The number's text is the outside's.
  pub service_error : (ℕ → String) → ServiceReply Text → String
  service_error to_string r =
      if eqb r.status 0
      then "Couldn't reach our servers right now."
      else let m : String = elim (member r.body "error") [
        | none ↦ ""
        | some raw ↦ opt_string j raw "message"
      ] in
        if m == "" then "the service answered " ++ to_string r.status else m

  pub service_code : ServiceReply Text → String
  service_code r = elim (member r.body "error") [ none ↦ "" | some raw ↦ opt_string j raw "code" ]
