-- ===== src/Evidence/Requests/Visit.antt =====
-- run_requests of src/shared/evidence_queue.hpp: what a request that is sent comes to. The lines that
-- it logs are not modelled.
use virule_client.Prelude.{
  ℕ, suc, ◌+◌, String, [], ◌∷◌, Option, none, some, Bool, true, not, ◌&&◌, ◌||◌, eqb, leb, ◌==◌,
  if◌then◌else◌, put, without,
}
use Prim.Native.String.{◌++◌ as join}
use virule_client.Evidence.Ladder.{backoff_seconds}
use virule_client.Evidence.Json.{Json, opt_string}
use virule_client.Evidence.Core.{Core}
use virule_client.Evidence.Answer.{Transport, ServiceReply, service_code, service_error}
use virule_client.Evidence.World.{
  World, Outside, Kind, early, report, is_early, at_kind, note_change,
}
use virule_client.Evidence.Attempt.{note_due}
use virule_client.Evidence.Pass.{OwnerFn}
use virule_client.Evidence.Requests.{
  RequestState, RequestResult, RequestCore, request_state_json, local_completeness,
  LocalCompleteness,
}

-- kLocalEvidenceRecheckSeconds
abbrev pub recheck_seconds : ℕ
recheck_seconds = 30

pub record Requests (Text : Type 0) : Type 0 where
  pub world : World Text
  pub res : RequestResult

module _ {j : Json} (c : Core j) (r : RequestCore j) (o : Outside j.Text) (t : Transport j.Text)
    (owner : Option OwnerFn) (force : Bool) (now : ℕ) where
  open j use {Text}

  -- write_file_atomic of a request's delivery state.
  unfoldable pub save_request : Kind → String → RequestState → World Text → World Text
  save_request k a st w = record w {
    request_delivery =
        if c.writes w.steps
        then at_kind k (put a (request_state_json j st) (w.request_delivery k)) w.request_delivery
        else w.request_delivery;
    steps = suc w.steps;
  }

  unfoldable pub remove_request : Kind → String → World Text → World Text
  remove_request k a w = record w {
    requests =
        if o.removes w.steps then at_kind k (without a (w.requests k)) w.requests else w.requests;
    steps = suc w.steps;
  }

  unfoldable pub remove_request_state : Kind → String → World Text → World Text
  remove_request_state k a w = record w {
    request_delivery =
        if o.removes w.steps
        then at_kind k (without a (w.request_delivery k)) w.request_delivery
        else w.request_delivery;
    steps = suc w.steps;
  }

  unfoldable pub hold : ℕ → RequestResult → RequestResult
  hold next res = record res {
    pending = res.pending + 1;
    next_due_utc = note_due next res.next_due_utc;
  }

  -- The lambda `schedule`.
  unfoldable pub schedule : Kind → String → RequestState → Requests Text → Requests Text
  schedule k a st s =
      let next : ℕ = now + backoff_seconds (st.failures + 1) in
      record {
        world =
            save_request k a (record st { failures = st.failures + 1; next_attempt_utc = next })
              s.world;
        res = hold next s.res;
      }

  -- The request that a file names, if it is the assignment's.
  unfoldable pub request_id : Kind → String → Text → Option String
  request_id k a text =
      elim (if is_early k then r.parse_early_request text else r.report_request_ids text) [
        | none ↦ none
        | some (assignment, id) ↦ if assignment == a then some id else none
      ]

  -- The receipt, from the record that the service holds.
  unfoldable pub receipt_doc : Kind → String → String → Text → Option Text
  receipt_doc early a id body = elim (j.member body "early_completion") [
    | none ↦ none
    | some rec ↦ some (
        j.line (
          j.object (
            ("assignment_id", j.quote a)
            ∷ ("request_id", j.quote id)
            ∷ ("reason", j.quote (opt_string j rec "reason"))
            ∷ ("explanation", j.quote (opt_string j rec "explanation"))
            ∷ ("recorded_utc", j.quote (opt_string j rec "recorded_utc"))
            ∷ [])))
  ]
  receipt_doc report a id body = elim (j.member body "report") [
    | none ↦ none
    | some rec ↦ some (
        j.line (
          j.object (
            ("assignment_id", j.quote a)
            ∷ ("submission_id", j.quote id)
            ∷ ("submitted_utc", j.quote (opt_string j rec "submitted_utc"))
            ∷ [])))
  ]

  -- The receipt is written: the request and its delivery state go.
  unfoldable pub acknowledge_request : Kind → String → Text → Requests Text → Requests Text
  acknowledge_request k a doc s =
      let w : World Text = record s.world {
        request_receipts =
            at_kind k (put a doc (s.world.request_receipts k)) s.world.request_receipts;
        steps = suc s.world.steps;
      } in
      record {
        world = note_change c o (remove_request_state k a (remove_request k a w));
        res = record s.res { acknowledged = s.res.acknowledged + 1; heard = (k, a) ∷ s.res.heard };
      }

  -- The service recorded the request, now or before.
  unfoldable pub recorded :
      Kind → String → RequestState → Option Text → Requests Text → Requests Text
  recorded k a st none s =
      schedule k a (record st { last_error = "the answer carried no record" }) s
  recorded k a st (some doc) s =
      if c.writes s.world.steps
      then acknowledge_request k a doc s
      else schedule k a (record st { last_error = "the receipt could not be written" })
          (record s { world = record s.world { steps = suc s.world.steps } })

  -- A refusal of the request itself: kept until a new request replaces it.
  unfoldable pub refuse : Kind → String → RequestState → Requests Text → Requests Text
  refuse k a st s = record {
    world = note_change c o (save_request k a (record st { refused = true }) s.world);
    res = record s.res { refused = s.res.refused + 1 };
  }

  stands : Kind → ℕ → String → Bool
  stands k status code =
      eqb status 409 && (if is_early k then code == "exists" else code == "already_submitted")

  -- The service has it, or holds it already.
  unfoldable pub is_recorded : Kind → ℕ → String → Bool
  unfolding stands
  is_recorded k status code = eqb status 200 || (eqb status 201 || stands k status code)

  -- What the service will have soon, or the network: the ladder.
  unfoldable pub is_later : ℕ → String → Bool
  is_later status code =
      eqb status 0
      || (leb 500 status
          || (eqb status 429
              || (eqb status 401
                  || ((code == "session_required") || (code == "evidence_pending")))))

  unfoldable pub settle_reply :
      Kind → String → String → RequestState → ServiceReply Text → Requests Text → Requests Text
  settle_reply k a id st reply s =
      let code : String = service_code j reply in
      if is_recorded k reply.status code
      then recorded k a st (receipt_doc k a id reply.body) s
      else let st' : RequestState = record st {
        last_error = service_error j r.to_string reply;
        code = code;
      } in
        if is_later reply.status code then schedule k a st' s else refuse k a st' s

  -- ee::store_progress of the progress that an answer carries.
  unfoldable pub keep_progress : String → ServiceReply Text → World Text → World Text
  keep_progress a reply w = elim (j.member reply.body "progress") [
    | none ↦ w
    | some p ↦
        if j.is_object p then record w { progress = c.store_progress w.steps w.progress a p } else w
  ]

  unfoldable pub request_path : Kind → String → String
  request_path k a =
      join (join "/v1/assignments/" a) (if is_early k then "/early-completion" else "/report")

  unfoldable pub post : Kind → String → String → Text → RequestState → Requests Text → Requests Text
  unfolding keep_progress
  post k a id body st s =
      let st' : RequestState = record st { attempts = st.attempts + 1 } in
      elim (t.post_request s.world.steps (request_path k a) body) [
        | none ↦ schedule k a (record st' { last_error = "this transport carries no requests" }) s
        | some reply ↦
            settle_reply k a id st' reply (record s { world = keep_progress a reply s.world })
      ]

  -- A report held for this computer's own sessions: no failure, no step of the ladder.
  unfoldable pub hold_report : String → String → RequestState → Requests Text → Requests Text
  hold_report a why st s =
      let next : ℕ = now + recheck_seconds in
      record {
        world =
            save_request report a
              (record st {
                last_error = join "waiting for this computer's sessions: " why;
                code = "local_evidence_pending";
                next_attempt_utc = next;
              })
              s.world;
        res = hold next s.res;
      }

  unfoldable pub send : Kind → String → String → Text → RequestState → Requests Text → Requests Text
  send early a id text st s = post early a id (r.request_body text) st s
  send report a id text st s =
      let lc : LocalCompleteness r c.is_hex32 =
        local_completeness r c.is_hex32 s.world a (not (t.name == "service")) in
      if not lc.complete
      then hold_report a lc.why st s
      else post report a id (r.with_packages (r.request_body text) lc.finalized) st s
