-- ===== src/Tests/Uploads.antt =====
-- An upload of a package of one part, to a service that takes everything, and to one whose storage
-- upload has always expired.
use virule_client.Prelude.{
  ℕ, ◌+◌, ◌-◌, ◌≡◌, refl, String, [], ◌∷◌, none, some, true, false, not, arith, if◌then◌else◌,
  lookup, ◌==◌,
}
use virule_client.Evidence.Json.{opt_string}
use virule_client.Transfers.Job.{
  TransferJob, upload, packaged, Scan, Outcome, clean, removed_by_antivirus,
}
use virule_client.Transfers.Site.{
  Env, appends, Verification, ServiceCall, Reply, listed, whole, copied,
}
use virule_client.Transfers.Outcome.{At, tick}
use virule_client.Transfers.Upload.Session.{Step, uploaded_of, sort_numbers, numbers_of}
use virule_client.Transfers.Upload.Parts.{count, part_of, send_parts, parts_from}
use virule_client.Transfers.Upload.Parts.Ends.{send_parts-ends}
use virule_client.Transfers.Upload.Parts.Renewals.{AlwaysExpired, parts_from_lem}
use virule_client.Transfers.Upload.Verify.{verify_upload}
use virule_client.Transfers.Upload.Verify.Verdict.{IsVerdict}
use virule_client.Transfers.Upload.Verify.Ends.{verify_upload-IsVerdict}
use virule_client.Transfers.Incidents.{read_incident, report_incident, establish_host_detection}
use virule_client.Transfers.Incidents.Reported.{
  IsReport, report_incident-IsReport, IsLookedInto, establish_host_detection-IsLookedInto,
}
use virule_client.Tests.Sample.{
  Doc, Fields, text, num, obj, arr, field, end, cons, nil, blank, json,
}

abbrev scan_of : Outcome → Scan
scan_of o = record {
  outcome = o;
  why_unavailable = 0;
  scanner = "defender";
  path = "engine";
  engine_version = "1";
  signature_version = "1";
  threats = "";
  detail = "";
}

-- The answers to a part and to a message are of these statuses; a session holds no part before, and part 1 after.
abbrev identities : Fields → Fields
identities rest = field "evaluator_id" (text "ev") (
    field "machine_key" (text "key")
      (field "signature" (text "s") (field "bound_utc" (text "b") rest)))

abbrev everything : Doc
everything = obj (
    field "session_id" (text "feed") (
      field "uploaded" (arr nil) (
        field "ticket"
          (obj (
            identities (
              field "assignment_id" (text "as")
                (field "game_uuid" (text "game") (field "accepted_utc" (text "then") end)))))
          (field "credential" (obj (identities end)) (
            field "download_id" (text "dl") (
              field "revision_id" (text "rev") (
                field "package_sha256" (text "whole")
                  (field "launch_exe" (text "game.exe") (field "package_bytes" (num 10) end)))))))))

abbrev answers : ℕ → ℕ → ServiceCall Doc String → Reply Doc
answers put_status post_status q =
    if q.method == "PUT"
    then record { status = put_status; body = obj (field "uploaded" (arr (cons (num 1) nil)) end) }
    else record { status = if q.method == "POST" then post_status else 200; body = everything }

-- A digest is the text itself, and the package is its one part.
abbrev pub service : ℕ → ℕ → Env json
service put_status post_status = record {
  Bytes = String;
  parts_total = λ n. 1;
  is_hex32 = λ s. not (s == "");
  is_sha256_hex = λ s. not (s == "");
  part_bytes = λ total n. total;
  part_limit = 100;
  range_limit = 100;
  package_max = 1000;
  within_cap = λ n. true;
  list_jobs = λ js. [];
  newest_upload = λ js g. none;
  is_terminal = λ k. false;
  installed_revision = λ k. k.installed_revision_id;
  too_large_sentence = λ n. "too large";
  format_gb = λ n. "gb";
  unverified_sentence = λ o n s. "unverified";
  removed_scan = λ a b c. scan_of removed_by_antivirus;
  outcome_name = λ o. "clean";
  incident_json = λ n r a b c. blank;
  to_string = λ n. "1";
  plain = text;
  find_string = opt_string json;
  now = λ n. 1000;
  utc = λ n. "now";
  stops = λ n. false;
  writes = λ n. true;
  sealed = λ n. true;
  reply = λ n. answers put_status post_status;
  identity_of = λ n p. some (record { bytes = 10; mtime = 7 });
  digest_package = λ n p b. some (record { sha256 = "whole"; parts = "part" ∷ [] });
  read_part = λ n p k. some "part";
  sha256_hex = λ n b. b;
  md5_hex = λ n b. b;
  zip_contents = λ n p. listed 20 2;
  free_bytes_at = λ n p. 1000000000;
  beside = λ p n. n;
  attach = λ n t. t;
  extract_zip = λ n p. whole;
  has_file = λ n p. true;
  originals = λ n p. copied;
  run_scan = λ n ps. scan_of clean;
  threats_seen = λ n ps. none;
  unverified = λ n p r. record { is_whole = true; files = [] };
  plan_scan = λ u l. record { is_whole = true; is_launch_changed = false; targets = [] };
  originals_installed = λ n. copied;
  scan_installed = λ n p. scan_of clean;
  after_clean_scan = λ p r u. text r;
  first_path = λ t. t;
  pauses = λ n a. false;
  busy = λ n a. false;
  is_ended = λ n a. false;
  opens = λ n. appends;
  get_range = λ n p a b. record { is_whole = true; got = b + 1 - a; status = 206 };
  file_digest = λ n. some "whole";
  extracted = λ n f. ("game.exe", "new") ∷ [];
  scan_staged = λ n. scan_of clean;
  originals_staged = λ n. copied;
  is_carried = λ n p. true;
  cannot_carry = λ n. none;
  renames = λ n. true;
  placed_record = λ r p f. text r;
  digests_record = λ r f. text r;
  machine_key = λ n. "key";
  machine_bind_body = λ n r. text r;
  parent_of = λ p. "games";
  name_of = λ p. p;
  removes = λ n. true;
  leaves = λ n f. f;
  install_for = λ d a. lookup a d;
  process_alive = λ n p. false;
}

abbrev pub upload_job : TransferJob
upload_job = record {
  id = "job";
  kind = upload;
  state = packaged;
  error = "";
  account_email = "";
  game_uuid = "game";
  build_uuid = "build";
  created_utc = "";
  updated_utc = "";
  attempts = 0;
  next_attempt_utc = 0;
  bytes_done = 0;
  bytes_total = 0;
  permille = 0;
  game_id = "g";
  owner_pid = 4;
  package_path = "game.zip";
  launch_exe = "game.exe";
  built_utc = "then";
  file_count = 2;
  content_bytes = 20;
  package_bytes = 10;
  package_sha256 = "whole";
  source_path = "";
  build_path = "";
  session_id = "";
  parts_total = 0;
  parts_done = [];
  assignment_id = "";
  revision_id = "";
  download_id = "";
  revision = 0;
  install_root = "";
  install_dir = "";
  temp_path = "";
  is_paused = false;
  installed_revision_id = "";
  scan_outcome = "";
  scan_revision_id = "";
  security_held = false;
}

abbrev pub at_start : At Doc String
at_start = record {
  job = upload_job;
  site = record {
    jobs = [];
    last_states = [];
    changes = 0;
    verifications = [];
    incidents = [];
    scratch = false;
    temp = none;
    game = none;
    staging = none;
    old = none;
    tickets = [];
    credential = none;
    content_records = [];
    digest_records = [];
    after_installs = [];
    sent = [];
    steps = 0;
  };
}

abbrev verified : Verification
verified = record {
  job_id = "job";
  game_uuid = "game";
  build_uuid = "build";
  package_path = "game.zip";
  archive = record { bytes = 10; mtime = 7 };
  package_sha256 = "whole";
  part_sha256 = "part" ∷ [];
  content_bytes = 20;
  file_count = 2;
  launch_exe = "game.exe";
  scanner = "defender";
  scan_path = "engine";
  engine_version = "1";
  signature_version = "1";
  verified_utc = "now";
}

verify_upload-IsVerdict_example :
    IsVerdict (service 200 200) (λ a b c. refl) at_start (verify_upload (service 200 200) at_start)
verify_upload-IsVerdict_example = verify_upload-IsVerdict (service 200 200) (λ a b c. refl) at_start

send_parts-ends_example :
    (t : Step Doc String) × (send_parts (service 410 404) verified 9 at_start ≡ some t)
unfolding count
send_parts-ends_example =
    send_parts-ends (service 410 404) verified 0 (λ k l (m, s, _, h). ground (arith, h)) 9 at_start
      (omega arith)

always_expired : AlwaysExpired (service 410 200) verified
unfolding part_of uploaded_of sort_numbers numbers_of
always_expired = record {
  digest = "part";
  content = "part";
  first_part = refl;
  runs = λ k. refl;
  reads = λ k p. refl;
  hashes = λ k. refl;
  has_digest = refl;
  has_md5 = λ k. refl;
  expired = λ k sha md5 s. refl;
  renewed = λ k s. refl;
  nothing_held = λ k s. refl;
}

parts_from_lem_example : parts_from (service 410 200) verified 1000 1 0 at_start ≡ none
parts_from_lem_example =
    parts_from_lem (service 410 200) verified always_expired 1000 0 at_start refl

abbrev with_incident : At Doc String
with_incident = record at_start {
  site = record at_start.site {
    incidents =
        (
          "job",
          record {
            incident = some (text "found");
            route = "/incident";
            examined = true;
            reported = false;
          },
        )
        ∷ [];
  };
}

report_incident-IsReport_example :
    IsReport (service 200 200) with_incident (report_incident (service 200 200) with_incident)
report_incident-IsReport_example = report_incident-IsReport (service 200 200) with_incident

establish_host_detection-IsLookedInto_example :
    IsLookedInto
      (service 200 200)
      at_start
      (establish_host_detection (service 200 200) [] at_start).1
    × ((establish_host_detection
          (service 200 200)
          (establish_host_detection (service 200 200) [] at_start).0
          at_start).1
        ≡ tick (service 200 200) at_start)
unfolding read_incident lookup
establish_host_detection-IsLookedInto_example =
    establish_host_detection-IsLookedInto (service 200 200) [] at_start at_start refl refl
