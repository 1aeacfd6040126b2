-- ===== src/Transfers/Upload/Session.antt =====
-- The session of an upload (src/client/transfers.hpp): open_session, complete_session, and the parts
-- that the service says it holds.
use virule_client.Prelude.{
  ℕ, ◌+◌, String, List, [], ◌∷◌, none, some, Bool, true, false, not, ◌&&◌, ◌||◌, eqb, leb,
  if◌then◌else◌, ◌==◌,
}
use Prim.Native.String.{◌++◌ as join}
use virule_client.Evidence.Json.{Json}
use virule_client.Transfers.Job.{TransferJob, Stage, packaged, uploading, registering, done}
use virule_client.Transfers.Site.{Env, ServiceCall, Reply, json, no_body, Verification}
use virule_client.Transfers.Outcome.{
  At, save_job, defer_job, fail_job, hold_upload, call, answer, body_message, body_code,
  unreachable, why_of, refused_for_eligibility,
}

-- A step of a job, and whether the next one follows.
pub record Step (Text Bytes : Type 0) : Type 0 where
  pub at : At Text Bytes
  pub goes_on : Bool

abbrev pub ended : {Text Bytes : Type 0} → At Text Bytes → Step Text Bytes
ended s = record { at = s; goes_on = false }

abbrev pub followed : {Text Bytes : Type 0} → At Text Bytes → Step Text Bytes
followed s = record { at = s; goes_on = true }

-- std::sort of numbers.
unfoldable pub place_number : ℕ → List ℕ → List ℕ
place_number n [] = n ∷ []
place_number n (m ∷ ms) = if leb n m then n ∷ m ∷ ms else m ∷ place_number n ms

unfoldable pub sort_numbers : List ℕ → List ℕ
sort_numbers [] = []
sort_numbers (n ∷ ns) = place_number n (sort_numbers ns)

unfoldable pub has_part : ℕ → List ℕ → Bool
has_part n [] = false
has_part n (m ∷ ms) = eqb n m || has_part n ms

module _ {j : Json} (e : Env j) where
  open j use {Text}
  open e use {Bytes}

  unfoldable pub numbers_of : List Text → List ℕ
  numbers_of [] = []
  numbers_of (t ∷ ts) =
      let rest = numbers_of ts in elim (j.as_int t) [ none ↦ rest | some n ↦ n ∷ rest ]

  unfoldable pub uploaded_of : Text → List ℕ
  uploaded_of body = elim (j.member body "uploaded") [
    | none ↦ []
    | some raw ↦ elim (j.items raw) [ none ↦ [] | some items ↦ sort_numbers (numbers_of items) ]
  ]

  -- The bytes of the parts that the service holds.
  unfoldable pub bytes_of : ℕ → List ℕ → ℕ
  bytes_of total [] = 0
  bytes_of total (n ∷ ns) = e.part_bytes total n + bytes_of total ns

  -- The parts as the service lists them.
  abbrev pub with_parts : ℕ → List ℕ → TransferJob → TransferJob
  with_parts total ns k = record k { parts_done = ns; bytes_done = bytes_of total ns }

  abbrev pub upload_path : At Text Bytes → String
  upload_path s = join "/v1/evaluations/uploads/" s.job.session_id

  abbrev pub empty_object : Text
  empty_object = j.object []

  -- The session is gone: opened again from the record.
  unfoldable pub reopen : At Text Bytes → At Text Bytes
  reopen s = save_job e (record s {
    job = record s.job { session_id = ""; parts_done = []; bytes_done = 0; state = packaged };
  })

  unfoldable pub advance : Stage → At Text Bytes → At Text Bytes
  advance st s = save_job e (record s { job = record s.job { state = st } })

  -- The session's first message: the figures of the client's own verification.
  unfoldable pub opening_of : Verification → At Text Bytes → ServiceCall Text Bytes
  opening_of v s = record {
    method = "POST";
    path = join (join "/v1/evaluations/games/" s.job.game_uuid) "/uploads";
    body = json (
        j.object (
          ("build_uuid", e.plain v.build_uuid)
          ∷ ("built_utc", e.plain s.job.built_utc)
          ∷ ("file_count", j.number v.file_count)
          ∷ ("content_bytes", j.number v.content_bytes)
          ∷ ("package_bytes", j.number v.archive.bytes)
          ∷ ("package_sha256", e.plain v.package_sha256)
          ∷ ("launch_exe", j.quote v.launch_exe)
          ∷ ("part_bytes", j.number e.part_limit)
          ∷ []));
  }

  -- The answer that opens or resumes a session.
  unfoldable pub opened : Verification → Reply Text → At Text Bytes → Step Text Bytes
  opened v r s =
      let sid : String = e.find_string r.body "session_id" in
      if not (e.is_hex32 sid)
      then ended (defer_job e "The service answered without a session." s)
      else followed (
          save_job e (record s {
            job = record (with_parts v.archive.bytes (uploaded_of r.body) s.job) {
              session_id = sid;
              state = if e.find_string r.body "state" == "verified" then registering else uploading;
              error = "";
            };
          }))

  unfoldable pub open_session : Verification → At Text Bytes → Step Text Bytes
  open_session v s =
      let q : ServiceCall Text Bytes = opening_of v s in
      let r : Reply Text = answer e q s in
      let s1 : At Text Bytes = call e q s in
      if eqb r.status 200 || eqb r.status 201
      then opened v r s1
      else if refused_for_eligibility e r
      then ended (hold_upload e (body_message e r.body) s1)
      else if eqb r.status 400 || eqb r.status 404 || eqb r.status 403 || eqb r.status 409
      then ended (fail_job e (body_message e r.body) s1)
      else ended (defer_job e (why_of e r) s1)

  -- The session is read back.
  abbrev pub reading_of : At Text Bytes → ServiceCall Text Bytes
  reading_of s = record { method = "GET"; path = upload_path s; body = no_body }

  abbrev pub completion_of : At Text Bytes → ServiceCall Text Bytes
  completion_of s = record {
    method = "POST";
    path = join (upload_path s) "/complete";
    body = json empty_object;
  }

  -- The service holds fewer parts than the record: read back.
  unfoldable pub read_back : At Text Bytes → At Text Bytes
  read_back s =
      let r : Reply Text = answer e (reading_of s) s in
      let s1 : At Text Bytes = call e (reading_of s) s in
      if eqb r.status 200
      then save_job e
          (record s1 { job = record s1.job { parts_done = uploaded_of r.body; state = uploading } })
      else defer_job e unreachable s1

  unfoldable pub complete_session : At Text Bytes → At Text Bytes
  complete_session s =
      let r : Reply Text = answer e (completion_of s) s in
      let s1 : At Text Bytes = call e (completion_of s) s in
      if eqb r.status 200
      then save_job e (record s1 {
        job = record s1.job {
          state = done;
          bytes_done = s1.job.package_bytes;
          permille = 1000;
          error = "";
          attempts = 0;
        };
      })
      else if eqb r.status 409 && (body_code e r.body == "incomplete")
      then read_back s1
      else if eqb r.status 410 || eqb r.status 404
      then reopen s1
      else if refused_for_eligibility e r
      then hold_upload e (body_message e r.body) s1
      else if eqb r.status 400 || eqb r.status 403 || eqb r.status 409
      then fail_job e (body_message e r.body) s1
      else defer_job e (why_of e r) s1
