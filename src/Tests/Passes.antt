-- ===== src/Tests/Passes.antt =====
-- A pass over one package of two files that the transport delivers whole.
use virule_client.Prelude.{
  ◌+◌, ◌≤◌, ◌⊎◌, ◌≡◌, refl, String, [], ◌∷◌, Option, none, some, true, false, ◌==◌, if◌then◌else◌,
  lookup, contains, insert, place, put, without,
}
use virule_client.Evidence.Core.{Package, payload}
use virule_client.Evidence.Document.{state_json}
use virule_client.Evidence.Answer.{Answer, answered, Transport}
use virule_client.Evidence.Outbox.{verify_package, verify_dir, verify_whole, verify_files}
use virule_client.Evidence.World.{
  World, Outside, load_state, save_state, remove_state, note_change, own,
}
use virule_client.Evidence.Attempt.{
  Pass, known_of, set_of, only_known, merge, merge_one, start, on_acked, on_all_acked, receipt_of,
  delivered, is_answered, is_whole, try_deliver, settle,
}
use virule_client.Evidence.Attempt.Box.{KeepsEvidence, has_receipt}
use virule_client.Evidence.Pass.{
  OwnerFn, no_result, not_due, owner_of, other_account, offer_of, delivery_of, told, merged_of,
  attempt, offer_package, assigned, whole, try_package, visit, run_pass,
}
use virule_client.Evidence.Pass.Safety.{run_pass-KeepsEvidence}
use virule_client.Evidence.Pass.Receipts.{IsEarned, visit-receipt}
use virule_client.Evidence.Pass.Schedule.{visit-IsScheduled}
use virule_client.Evidence.Pass.Cases.{is_foreign}
use virule_client.Evidence.Pass.Waits.{IsWait, SameCounters, visit-IsWait}
use virule_client.Tests.Sample.{Doc, pack, blob, json_laws, core, core_laws, hex32}

abbrev pub id_one : String
id_one = "0123456789abcdef0123456789abcdef"

abbrev pub package_one : Package
package_one = record {
  package_id = id_one;
  assignment_id = "fedcba9876543210fedcba9876543210";
  evaluator_id = "e1";
  files = record { file = "000001.jpg"; sha256 = "s1"; bytes = 7 } ∷ [];
}

abbrev pub files_one : String → Option Doc
files_one name =
    if name == "package.json"
    then some (pack package_one)
    else if name == "000001.jpg"
    then some (blob "s1" 7)
    else none

abbrev pub world_one : World Doc
world_one = record {
  box = record {
    receipts = [];
    outbox = record { created = 1; id = id_one; is_directory = true; files = files_one } ∷ [];
  };
  delivery = [];
  progress = [];
  requests = λ k. [];
  request_delivery = λ k. [];
  request_receipts = λ k. [];
  steps = 0;
  changes = 0;
  acked_files = 0;
}

abbrev pub outside : Outside Doc
outside = record {
  rooted = true;
  removes = λ n. true;
  left = λ n files. files;
  clock = λ n. 100;
  utc_text = λ t. "2026-11-26T00:00:00Z";
}

abbrev whole_answer : Answer Doc
whole_answer = record {
  kind = answered;
  acked = "package.json" ∷ "000001.jpg" ∷ [];
  complete = true;
  receipt_id = "r1";
  error = "";
  progress = none;
  status = 200;
  refused = false;
  signed_out = false;
  no_answer = false;
}

abbrev pub carrier : Transport Doc
carrier = record {
  name = "service";
  simulated = false;
  ready = λ n. true;
  deliver = λ n offer. record {
    reported = ("package.json" ∷ []) ∷ ("package.json" ∷ "000001.jpg" ∷ []) ∷ [];
    answer = whole_answer;
  };
  post_request = λ n path body. none;
}

abbrev begun : Pass Doc
begun = record { world = world_one; res = no_result }

-- The visit of the package, run.
visited : Pass Doc
unfolding visit try_package offer_package attempt told merged_of delivery_of offer_of whole assigned
    not_due owner_of start on_all_acked on_acked merge merge_one known_of set_of only_known settle
    is_whole is_answered try_deliver receipt_of delivered save_state remove_state note_change
    load_state own verify_package verify_dir verify_whole verify_files payload lookup contains
    insert place put without has_receipt hex32 state_json
visited = visit core outside carrier none false 100 id_one begun

visited_receipt : has_receipt core visited.world id_one ≡ true
unfolding visited
visited_receipt = refl

run_pass-KeepsEvidence_example :
    KeepsEvidence core world_one (run_pass core outside carrier none false 100 world_one).world
run_pass-KeepsEvidence_example =
    run_pass-KeepsEvidence core outside carrier none false 100 core_laws world_one

visit-IsScheduled_example :
    let after = visit core outside carrier none false 100 id_one begun in
    (has_receipt core after.world id_one ≡ true)
    ⊎ ((load_state core outside after.world id_one).next_attempt_utc ≤ 100 + 1800)
unfolding hex32
visit-IsScheduled_example =
    visit-IsScheduled core outside carrier none false 100 json_laws core_laws (λ n. refl) id_one
      refl begun

visit-receipt_example :
    let v = verify_package core world_one.outbox id_one in
    let st = load_state core outside world_one id_one in
    IsEarned v st (
      delivery_of core outside carrier none false 100 id_one v
        (whole core outside carrier none false 100 v st)
        begun)
unfolding visited
visit-receipt_example = visit-receipt core outside carrier none false 100 id_one begun refl refl

abbrev other : OwnerFn
other n assignment evaluator = other_account

visit-IsWait_example :
    IsWait begun (visit core outside carrier (some other) false 100 id_one begun)
    × SameCounters
        (load_state core outside
          (visit core outside carrier (some other) false 100 id_one begun).world
          id_one)
        (load_state core outside world_one id_one)
unfolding visited is_foreign
visit-IsWait_example =
    visit-IsWait core outside carrier (some other) false 100 id_one begun json_laws refl (λ n. refl)
      refl refl refl refl
