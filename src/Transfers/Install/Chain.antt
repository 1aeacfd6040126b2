-- ===== src/Transfers/Install/Chain.antt =====
-- The ticket and the credential of a launch (src/client/transfers.hpp, ensure_launch_chain).
pub mod Kept
pub mod Written
use virule_client.Prelude.{
  ℕ, suc, String, List, [], ◌∷◌, Option, none, some, Bool, true, false, not, ◌&&◌, ◌||◌, eqb,
  if◌then◌else◌, put, ◌==◌,
}
use Prim.Native.String.{◌++◌ as join}
use virule_client.Evidence.Json.{Json, get_string}
use virule_client.Transfers.Site.{Env, Site, ServiceCall, Reply, json, no_body}
use virule_client.Transfers.Outcome.{
  At, tick, call, answer, body_message, body_code, unreachable, why_of,
}

pub record ChainOutcome : Type 0 where
  pub ok : Bool
  pub retryable : Bool
  pub why : String
  pub code : String

-- The members of a ticket and of a credential.
pub record Ticket : Type 0 where
  pub assignment_id : String
  pub evaluator_id : String
  pub game_uuid : String
  pub accepted_utc : String
  pub signature : String

pub record Credential : Type 0 where
  pub evaluator_id : String
  pub machine_key : String
  pub bound_utc : String
  pub signature : String

-- What the chain is asked for.
pub record Asked : Type 0 where
  pub assignment_id : String
  pub install_dir : String
  pub launch_exe : String
  pub revision_id : String

abbrev pub again : String → ChainOutcome
again why = record { ok = false; retryable = true; why = why; code = "" }

abbrev pub and_then {ℓ κ} : {A : Type ℓ} {B : Type κ} → Option A → (A → Option B) → Option B
and_then none f = none
and_then (some a) f = f a

module _ {j : Json} (e : Env j) where
  open j use {Text}
  open e use {Bytes}

  -- How the chain stands, and what was done for it.
  abbrev pub Chained : Type 0
  Chained = ChainOutcome × At Text Bytes

  unfoldable pub read_ticket : Text → Option Ticket
  read_ticket t = and_then (get_string j t "assignment_id") (λ aid.
      and_then (get_string j t "evaluator_id") (λ evid.
        and_then (get_string j t "game_uuid") (λ guid.
          and_then (get_string j t "accepted_utc") (λ acc.
            and_then (get_string j t "signature") (λ sig. some (record {
              assignment_id = aid;
              evaluator_id = evid;
              game_uuid = guid;
              accepted_utc = acc;
              signature = sig;
            }))))))

  unfoldable pub read_credential : Text → Option Credential
  read_credential t = and_then (get_string j t "evaluator_id") (λ cev.
      and_then (get_string j t "machine_key") (λ ckey.
        and_then (get_string j t "bound_utc") (λ bound.
          and_then (get_string j t "signature") (λ csig. some (record {
            evaluator_id = cev;
            machine_key = ckey;
            bound_utc = bound;
            signature = csig;
          })))))

  -- The ticket of this assignment, and the credential of this evaluator on this computer.
  unfoldable pub ticket_for : String → Text → Option Ticket
  ticket_for id t = and_then (read_ticket t) (λ k. if k.assignment_id == id then some k else none)

  unfoldable pub credential_for : String → String → Text → Option Credential
  credential_for evaluator machine t =
      and_then (read_credential t)
        (λ c. if (c.evaluator_id == evaluator) && (c.machine_key == machine) then some c else none)

  unfoldable pub ticket_doc : Asked → Ticket → Text
  ticket_doc a k = j.line (
      j.object (
        ("version", j.number 1)
        ∷ ("assignment_id", j.quote k.assignment_id)
        ∷ ("evaluator_id", j.quote k.evaluator_id)
        ∷ ("game_uuid", j.quote k.game_uuid)
        ∷ ("accepted_utc", j.quote k.accepted_utc)
        ∷ ("signature", j.quote k.signature)
        ∷ ("install_path", j.quote a.install_dir)
        ∷ ("launch_exe", j.quote a.launch_exe)
        ∷ ("revision_id", j.quote a.revision_id)
        ∷ []))

  unfoldable pub credential_doc : Credential → Text
  credential_doc c = j.line (
      j.object (
        ("version", j.number 1)
        ∷ ("evaluator_id", j.quote c.evaluator_id)
        ∷ ("machine_key", j.quote c.machine_key)
        ∷ ("bound_utc", j.quote c.bound_utc)
        ∷ ("signature", j.quote c.signature)
        ∷ []))

  abbrev pub ticket_call : String → ServiceCall Text Bytes
  ticket_call id = record {
    method = "GET";
    path = join (join "/v1/assignments/" id) "/ticket";
    body = no_body;
  }

  abbrev pub credential_call : Text → ServiceCall Text Bytes
  credential_call t = record { method = "POST"; path = "/v1/assignments/credential"; body = json t }

  unfoldable pub ticket_refused : Reply Text → ChainOutcome
  ticket_refused r = record {
    ok = false;
    retryable = not (eqb r.status 409 && (body_code e r.body == "security_hold"));
    why = why_of e r;
    code = if eqb r.status 0 then "" else body_code e r.body;
  }

  unfoldable pub keep_credential : Credential → At Text Bytes → Chained
  keep_credential c s =
      if e.writes s.site.steps
      then (
        record { ok = true; retryable = true; why = ""; code = "" },
        tick e (record s { site = record s.site { credential = some (credential_doc c) } }),
      )
      else (again "The credential could not be written.", tick e s)

  unfoldable pub hear_credential : String → String → Reply Text → At Text Bytes → Chained
  hear_credential evaluator machine r s =
      if not (eqb r.status 200 || eqb r.status 201)
      then (again (why_of e r), s)
      else elim (j.member r.body "credential") [
        | none ↦ (again "The service answered without a credential.", s)
        | some raw ↦ elim (credential_for evaluator machine raw) [
          | none ↦ (again "The service answered with a malformed credential.", s)
          | some c ↦ keep_credential c s
        ]
      ]

  -- The key is proved every time, even where a credential is held.
  unfoldable pub ask_credential : String → At Text Bytes → Chained
  ask_credential evaluator s =
      let machine = e.machine_key s.site.steps in
      let q : ServiceCall Text Bytes =
        credential_call (e.machine_bind_body s.site.steps "evaluator") in
      if machine == ""
      then (
        record {
          ok = false;
          retryable = false;
          why = "This computer has no VIRULE identity.";
          code = "";
        },
        s,
      )
      else hear_credential evaluator machine (answer e q s) (call e q s)

  unfoldable pub keep_ticket : Asked → Ticket → At Text Bytes → Chained
  keep_ticket a k s =
      if e.writes s.site.steps
      then ask_credential k.evaluator_id (
          tick e (record s {
            site = record s.site { tickets = put k.assignment_id (ticket_doc a k) s.site.tickets };
          }))
      else (again "The ticket could not be written.", tick e s)

  unfoldable pub hear_chain_ticket : Asked → Reply Text → At Text Bytes → Chained
  hear_chain_ticket a r s =
      if not (eqb r.status 200) then (ticket_refused r, s) else elim (j.member r.body "ticket") [
        | none ↦ (again "The service answered without a ticket.", s)
        | some raw ↦ elim (ticket_for a.assignment_id raw) [
          | none ↦ (again "The service answered with a malformed ticket.", s)
          | some k ↦ keep_ticket a k s
        ]
      ]

  unfoldable pub ensure_launch_chain : Asked → At Text Bytes → Chained
  ensure_launch_chain a s =
      let q : ServiceCall Text Bytes = ticket_call a.assignment_id in
      hear_chain_ticket a (answer e q s) (call e q s)
