-- ===== src/Tests/Requests.antt =====
-- Passes over an early completion that the service records, and over a report that is held.
use virule_client.Prelude.{
  ◌≤◌, ◌≡◌, refl, String, [], ◌∷◌, Option, none, some, true, false, length, lookup, put, without,
}
use virule_client.Evidence.Answer.{Transport}
use virule_client.Evidence.World.{World, Kind, early, report, note_change}
use virule_client.Evidence.Pass.Cases.{is_foreign}
use virule_client.Evidence.Requests.{
  RequestCore, DeliveryState, local_completeness, finalized_here, load_request_state,
}
use virule_client.Evidence.Requests.Visit.{
  Requests, save_request, remove_request, remove_request_state, hold, request_id, receipt_doc,
  acknowledge_request, recorded, is_recorded, settle_reply, keep_progress, request_path, post,
  hold_report, send,
}
use virule_client.Evidence.Requests.Run.{
  no_requests, request_owner, state_of, is_waiting, try_request, text_of, visit_request, items_of,
  run_requests,
}
use virule_client.Evidence.Requests.Run.Safety.{KeepsRequests, run_requests-KeepsRequests}
use virule_client.Evidence.Requests.Run.Counts.{tally, IsDue, run_requests-accounted}
use virule_client.Evidence.Requests.Run.Receipts.{IsAnswered, visit_request-receipt}
use virule_client.Evidence.Requests.Run.Held.{IsReady, IsCounted, held_state, visit_request-held}
use virule_client.Tests.Sample.{
  Doc, text, obj, field, end, json, json_laws, core, hex32, member_of, string_of,
}
use virule_client.Tests.Passes.{id_one, world_one, outside, carrier}

abbrev text_at : Doc → String → Option String
text_at d k = elim (member_of d k) [ none ↦ none | some v ↦ string_of v ]

abbrev pair_at : String → Doc → Option (String × String)
pair_at k d = elim (text_at d "assignment_id") [
  | none ↦ none
  | some a ↦ elim (text_at d k) [ none ↦ none | some id ↦ some (a, id) ]
]

abbrev no_packages : DeliveryState
no_packages = record { pending = []; staging = []; acknowledged = []; simulated_acknowledged = [] }

abbrev pub request_core : RequestCore json
request_core = record {
  parse_early_request = pair_at "request_id";
  report_request_ids = pair_at "submission_id";
  request_body = λ d. d;
  delivery_state = λ b a. no_packages;
  writing_unlock =
      λ finished ids d p simulated. record { unacknowledged = ids; service_receiving = false };
  with_packages = λ d ids. d;
  to_string = λ n. "1";
  ticket = λ a. none;
  ledger = λ a. none;
  open_session = λ a. true;
}

abbrev early_one : Doc
early_one = obj (field "assignment_id" (text id_one) (field "request_id" (text "r1") end))

abbrev report_one : Doc
report_one = obj (field "assignment_id" (text id_one) (field "submission_id" (text "s1") end))

abbrev requests_at : Kind → Doc
requests_at early = early_one
requests_at report = report_one

abbrev pub world_two : World Doc
world_two = record world_one { requests = λ k. (id_one, requests_at k) ∷ [] }

-- A service that records every request.
abbrev pub service : Transport Doc
service = record carrier {
  post_request = λ n path body. some (record {
    status = 201;
    body = obj (field "early_completion" (obj (field "reason" (text "done") end)) end);
  });
}

abbrev begun_two : Requests Doc
begun_two = record { world = world_two; res = no_requests }

visited_two : Kind → Requests Doc
unfolding visit_request text_of request_id lookup try_request state_of load_request_state is_waiting
    request_owner send post request_path keep_progress settle_reply is_recorded receipt_doc recorded
    acknowledge_request remove_request remove_request_state note_change without put hold_report
    local_completeness finalized_here save_request hold hex32 is_foreign
visited_two k = visit_request core request_core outside service none false 100 k id_one begun_two

abbrev receipt_two : Doc
receipt_two = obj (
    field "assignment_id" (text id_one) (
      field "request_id" (text "r1") (
        field "reason" (text "done")
          (field "explanation" (text "") (field "recorded_utc" (text "") end)))))

run_requests-KeepsRequests_example :
    KeepsRequests world_two
      (run_requests core request_core outside service none false 100 world_two).world
run_requests-KeepsRequests_example =
    run_requests-KeepsRequests core request_core outside service none false 100 world_two

run_requests-accounted_example :
    let res = (run_requests core request_core outside service none false 100 world_two).res in
    (tally res ≤ length (items_of core request_core outside service none false 100 world_two))
    × ((length res.heard ≡ res.acknowledged) × IsDue 100 res)
run_requests-accounted_example =
    run_requests-accounted core request_core outside service none false 100 world_two

visit_request-receipt_example :
    (id : String) × ((request_id core request_core outside service none false 100 early id_one
          (text_of core request_core outside service none false 100 early id_one world_two)
        ≡ some id)
      × IsAnswered core request_core outside service none false 100 early id_one 0 id
          (some receipt_two))
unfolding visited_two
visit_request-receipt_example =
    visit_request-receipt core request_core outside service none false 100 early id_one begun_two
      receipt_two refl refl

report_two-IsReady : IsReady core request_core outside service none false 100 id_one "s1" begun_two
unfolding visited_two
report_two-IsReady = record {
  named = refl;
  open_yet = refl;
  unrefused = refl;
  is_due = refl;
  own_account = refl;
}

visit_request-held_example :
    let s' =
      visit_request core request_core outside service none false 100 report id_one begun_two in
    let why = (local_completeness request_core hex32 world_two id_one false).why in
    (state_of core request_core outside service none false 100 report id_one "s1" s'.world
      ≡ held_state core request_core outside service none false 100 why
          (state_of core request_core outside service none false 100 report id_one "s1" world_two))
    × (IsCounted core request_core outside service none false 100 no_requests s'.res
        × ((s'.world.requests ≡ world_two.requests)
            × (s'.world.request_receipts ≡ world_two.request_receipts)))
unfolding local_completeness
visit_request-held_example =
    visit_request-held core request_core outside service none false 100 id_one "s1" begun_two
      report_two-IsReady refl json_laws refl
