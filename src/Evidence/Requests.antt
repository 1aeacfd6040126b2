-- ===== src/Evidence/Requests.antt =====
-- The early completion and the report of an assignment, their delivery state, and the local
-- evidence completeness that a report waits for (src/shared/evidence_queue.hpp).
pub mod Visit
pub mod Run
use virule_client.Prelude.{
  ℕ, suc, ◌+◌, ◌-◌, String, List, [], ◌∷◌, ◌++◌, map, Option, none, some, Bool, true, false, not,
  ◌&&◌, ◌||◌, eqb, ltb, leb, ◌==◌, if◌then◌else◌, Dict, lookup, put, without, sort, unique, length,
}
use Prim.Native.String.{◌++◌ as join}
use virule_client.Evidence.Json.{Json, get_string, get_bool, opt_string, opt_int}
use virule_client.Evidence.Core.{Box}
use virule_client.Evidence.World.{World, Outside, Kind}

pub record RequestState : Type 0 where
  pub id : String
  pub attempts : ℕ
  pub failures : ℕ
  pub next_attempt_utc : ℕ
  pub last_error : String
  pub code : String
  pub refused : Bool

abbrev pub fresh_request : String → RequestState
fresh_request id = record {
  id = id;
  attempts = 0;
  failures = 0;
  next_attempt_utc = 0;
  last_error = "";
  code = "";
  refused = false;
}

pub record RequestResult : Type 0 where
  pub acknowledged : ℕ
  pub refused : ℕ
  pub pending : ℕ
  pub waiting_account : ℕ
  pub next_due_utc : ℕ
  -- the calls made of `on_ack`, the latest first
  pub heard : List (Kind × String)

-- ee::DeliveryState: the packages of an assignment.
pub record DeliveryState : Type 0 where
  pub pending : List String
  pub staging : List String
  pub acknowledged : List String
  pub simulated_acknowledged : List String

-- ee::Unlock, as far as it is read.
pub record Unlock : Type 0 where
  pub unacknowledged : List String
  pub service_receiving : Bool

-- What the requests take from virule_core, and the local documents that they read.
pub record RequestCore (j : Json) : Type 0 where
  -- the assignment and the request that an early completion names
  pub parse_early_request : j.Text → Option (String × String)
  -- the assignment and the submission that a report names
  pub report_request_ids : j.Text → Option (String × String)
  pub request_body : j.Text → j.Text
  pub delivery_state : Box j.Text → String → DeliveryState
  -- of the finalized sessions, by the assignment's progress document
  pub writing_unlock : Bool → List String → DeliveryState → Option j.Text → Bool → Unlock
  -- with_packages: the body with its `packages` member set, a change of the raw text
  pub with_packages : j.Text → List String → j.Text
  pub to_string : ℕ → String
  -- evaluator\assignments\<id>\ticket.json, ledger.json and open_session.json
  pub ticket : String → Option j.Text
  pub ledger : String → Option j.Text
  pub open_session : String → Bool

module _ (j : Json) where
  open j use {Text, quote, number, boolean, object, line}

  unfoldable pub request_state_json : RequestState → Text
  request_state_json s = line (
      object (
        ("id", quote s.id)
        ∷ ("attempts", number s.attempts)
        ∷ ("failures", number s.failures)
        ∷ ("next_attempt_utc", number s.next_attempt_utc)
        ∷ ("last_error", quote s.last_error)
        ∷ ("code", quote s.code)
        ∷ ("refused", boolean s.refused)
        ∷ []))

  unfoldable pub load_request_state : Option Text → RequestState
  load_request_state file =
      let text : Text = elim file [ none ↦ j.empty | some t ↦ t ] in
      if j.is_empty text then fresh_request "" else record {
        id = opt_string j text "id";
        attempts = opt_int j text "attempts";
        failures = opt_int j text "failures";
        next_attempt_utc = opt_int j text "next_attempt_utc";
        last_error = opt_string j text "last_error";
        code = opt_string j text "code";
        refused = elim (get_bool j text "refused") [ none ↦ false | some b ↦ b ];
      }

module _ {j : Json} (r : RequestCore j) (is_hex32 : String → Bool) where
  open j use {Text}

  -- The evaluator that a request names, else its assignment's ticket.
  unfoldable pub request_evaluator : String → Text → String
  request_evaluator assignment text =
      let id : String = opt_string j text "evaluator_id" in
      if not (id == "") then id else elim (r.ticket assignment) [
        | none ↦ ""
        | some ticket ↦ opt_string j ticket "evaluator_id"
      ]

  -- The loop over the ledger's sessions.
  session_ids : List Text → List String
  session_ids [] = []
  session_ids (t ∷ ts) =
      let rest = session_ids ts in
      elim (get_string j t "session_id") [
        | none ↦ rest
        | some id ↦ if is_hex32 id then id ∷ rest else rest
      ]

  ledger_sessions : Option Text → List String
  ledger_sessions file = elim file [
    | none ↦ []
    | some ledger ↦ elim (j.member ledger "sessions") [
      | none ↦ []
      | some raw ↦ elim (j.items raw) [ none ↦ [] | some ts ↦ session_ids ts ]
    ]
  ]

  -- Every session finalized on this computer: the ledger's, and the packages held here.
  unfoldable pub finalized_here : Box Text → String → List String
  unfolding ledger_sessions session_ids
  finalized_here box assignment =
      let d = r.delivery_state box assignment in
      unique (
        sort (
          ledger_sessions (r.ledger assignment)
          ++ (d.pending ++ (d.staging ++ (d.acknowledged ++ d.simulated_acknowledged)))))

  pub record LocalCompleteness : Type 0 where
    pub complete : Bool
    pub why : String
    pub finalized : List String

  unfoldable pub local_completeness : World Text → String → Bool → LocalCompleteness
  local_completeness w assignment simulated_counts =
      let ids : List String = finalized_here w.box assignment in
      let u : Unlock =
        r.writing_unlock true ids (r.delivery_state w.box assignment) (lookup assignment w.progress)
          simulated_counts in
      if r.open_session assignment
      then record {
        complete = false;
        why = "a session is still open on this computer";
        finalized = ids;
      }
      else if not (eqb (length u.unacknowledged) 0)
      then record {
        complete = false;
        why =
            join (r.to_string (length u.unacknowledged))
              " session(s) finalized here are not acknowledged yet";
        finalized = ids;
      }
      else if u.service_receiving
      then record {
        complete = false;
        why = "the service is still receiving a session";
        finalized = ids;
      }
      else record { complete = true; why = ""; finalized = ids }
