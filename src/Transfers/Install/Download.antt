-- ===== src/Transfers/Install/Download.antt =====
-- The download of a package, and its verification (src/client/transfers.hpp, run_install).
pub mod Ends
pub mod Open
use virule_client.Prelude.{
  ℕ, suc, zero, ◌+◌, ◌-◌, String, List, [], ◌∷◌, Option, none, some, Bool, true, false, not, ◌&&◌,
  ◌||◌, eqb, ltb, leb, if◌then◌else◌, ◌==◌,
}
use Prim.Native.String.{◌++◌ as join}
use virule_client.Evidence.Json.{Json, opt_int}
use virule_client.Transfers.Job.{
  Scan, TransferJob, Stage, downloading, paused, verifying, extracting,
}
use virule_client.Transfers.Site.{
  Env, Site, ServiceCall, Reply, json, Opening, appends, refused_by_antivirus, cannot_open, Range,
}
use virule_client.Transfers.Outcome.{
  At, tick, save_job, defer_job, fail_job, call, answer, body_message, body_code, unreachable,
  why_of,
}
use virule_client.Transfers.Upload.Session.{Step, ended, followed, advance, empty_object}
use virule_client.Transfers.Install.Refusal.{
  install_threat, download_path, failure_of, without_temp, scan_failed, revision_held_here,
}

-- What the service authorizes.
pub record Authorized : Type 0 where
  pub download_id : String
  pub revision_id : String
  pub package_sha256 : String
  pub launch_exe : String
  pub package_bytes : ℕ
  pub content_bytes : ℕ
  pub revision : ℕ

abbrev pub min_size : ℕ → ℕ → ℕ
min_size a b = if ltb b a then b else a

module _ {j : Json} (e : Env j) where
  open j use {Text}
  open e use {Bytes}

  unfoldable pub authorized_of : Text → Authorized
  authorized_of body = record {
    download_id = e.find_string body "download_id";
    revision_id = e.find_string body "revision_id";
    package_sha256 = e.find_string body "package_sha256";
    launch_exe = e.find_string body "launch_exe";
    package_bytes = opt_int j body "package_bytes";
    content_bytes = opt_int j body "content_bytes";
    revision = opt_int j body "revision";
  }

  abbrev pub is_malformed : Authorized → Bool
  is_malformed a =
      not (e.is_hex32 a.download_id)
      || not (e.is_hex32 a.revision_id)
      || not (e.is_sha256_hex a.package_sha256)
      || (a.launch_exe == "")

  -- Another revision than the job was made for: it starts over with it.
  unfoldable pub take_revision : Authorized → At Text Bytes → At Text Bytes
  take_revision a s =
      if not (a.revision_id == s.job.revision_id) || not (a.package_sha256 == s.job.package_sha256)
      then without_temp e (record s {
        job = record s.job {
          revision_id = a.revision_id;
          package_sha256 = a.package_sha256;
          package_bytes = a.package_bytes;
          content_bytes = a.content_bytes;
          launch_exe = a.launch_exe;
          revision = a.revision;
          bytes_done = 0;
          bytes_total = a.package_bytes;
        };
      })
      else s

  -- What of the package is there: never past its end.
  unfoldable pub resume_from : ℕ → At Text Bytes → At Text Bytes
  resume_from size s = elim s.site.temp [
    | none ↦ record s { job = record s.job { bytes_done = 0 } }
    | some have ↦
        if ltb size have
        then without_temp e (record s { job = record s.job { bytes_done = 0 } })
        else record s { job = record s.job { bytes_done = have } }
  ]

  unfoldable pub start_download : Authorized → At Text Bytes → At Text Bytes
  start_download a s =
      let s1 : At Text Bytes = take_revision a s in
      save_job e (
        resume_from a.package_bytes (record s1 {
          job = record s1.job {
            download_id = a.download_id;
            package_bytes = a.package_bytes;
            bytes_total = a.package_bytes;
            state = downloading;
            is_paused = false;
            error = "";
          };
        }))

  -- A range arrived whole.
  unfoldable pub took_range : ℕ → At Text Bytes → At Text Bytes
  took_range got s =
      save_job e
        (record s { job = record s.job { bytes_done = s.job.bytes_done + got; attempts = 0 } })

  unfoldable pub lost_range : ℕ → At Text Bytes → At Text Bytes
  lost_range status s =
      if eqb status 410 || eqb status 404 || eqb status 409
      then save_job e (record s { job = record s.job { download_id = "" } })
      else defer_job e (if eqb status 0 then unreachable else "The download was interrupted.") s

  -- The bytes are appended to the file.
  unfoldable pub with_bytes : ℕ → At Text Bytes → At Text Bytes
  with_bytes got s = record s {
    site = record s.site {
      temp = some (elim s.site.temp [ none ↦ got | some have ↦ have + got ]);
      steps = suc s.site.steps;
    };
  }

  abbrev pub range_of : At Text Bytes → Range
  range_of s =
      e.get_range s.site.steps (download_path e s.job) s.job.bytes_done
        (min_size (s.job.package_bytes - 1) (s.job.bytes_done + e.range_limit - 1))

  -- The ranges, one for each fuel; none where the fuel ends first. The download goes on where it is whole.
  unfoldable pub ranges : ℕ → At Text Bytes → Option (Step Text Bytes)
  ranges zero s = none
  ranges (suc fuel) s =
      let r : Range = range_of s in
      let s1 : At Text Bytes = with_bytes r.got s in
      let rest = ranges fuel (took_range r.got s1) in
      if not (ltb s.job.bytes_done s.job.package_bytes)
      then some (followed s)
      else if e.stops s.site.steps || e.pauses s.site.steps s.job.assignment_id
      then some (ended (tick e s))
      else if not r.is_whole || not (eqb r.status 206)
      then some (ended (lost_range r.status s1))
      else if eqb r.got 0
      then some (ended (defer_job e "The download was interrupted." (took_range r.got s1)))
      else rest

  -- A pause that came meanwhile is recorded.
  unfoldable pub close_download : Step Text Bytes → Step Text Bytes
  close_download t =
      if t.goes_on
      then followed (advance e verifying t.at)
      else if e.pauses t.at.site.steps t.at.job.assignment_id
      then ended
          (save_job e (record t.at { job = record t.at.job { state = paused; is_paused = true } }))
      else t

  -- The antivirus refused the file: what Defender's record says of it.
  unfoldable pub refused_open : At Text Bytes → Scan
  refused_open s =
      e.removed_scan
        (elim (e.threats_seen s.site.steps (s.job.temp_path ∷ [])) [
          | none ↦ ""
          | some threats ↦ threats
        ])
        s.job.temp_path "Windows refused the downloaded package."

  unfoldable pub fetch : ℕ → At Text Bytes → Option (Step Text Bytes)
  fetch fuel s =
      let fetched = ranges fuel s in
      elim (e.opens s.site.steps) [
        | appends ↦ elim fetched [ none ↦ none | some t ↦ some (close_download t) ]
        | refused_by_antivirus ↦ some (ended (scan_failed e false (refused_open s) "download" s))
        | cannot_open ↦ some (ended (defer_job e "The download could not be written." s))
      ]

  unfoldable pub refused_download : Reply Text → At Text Bytes → At Text Bytes
  refused_download r s =
      if (eqb r.status 409 && (body_code e r.body == "no_build"))
        || (eqb r.status 409 && (body_code e r.body == "security_hold"))
        || eqb r.status 404
        || eqb r.status 403
      then fail_job e (body_message e r.body) s
      else defer_job e (why_of e r) s

  unfoldable pub begin_download : ℕ → Authorized → At Text Bytes → Option (Step Text Bytes)
  begin_download fuel a s =
      if is_malformed a
      then some (ended (defer_job e "The service answered with a malformed download." s))
      else if revision_held_here e s.job.assignment_id a.revision_id s
      then some (
          ended (
            fail_job e install_threat (record s {
              job = record s.job { security_held = true; revision_id = a.revision_id };
            })))
      else fetch fuel (start_download a s)

  abbrev pub authorization_of : At Text Bytes → ServiceCall Text Bytes
  authorization_of s = record {
    method = "POST";
    path = join (join "/v1/assignments/" s.job.assignment_id) "/download";
    body = json (empty_object e);
  }

  -- The authorization is asked for at every start.
  unfoldable pub download : ℕ → At Text Bytes → Option (Step Text Bytes)
  download fuel s =
      let r : Reply Text = answer e (authorization_of s) s in
      let s1 : At Text Bytes = call e (authorization_of s) s in
      if not (eqb r.status 200)
      then some (ended (refused_download r s1))
      else begin_download fuel (authorized_of r.body) s1

  unfoldable pub mismatched : At Text Bytes → At Text Bytes
  mismatched s =
      let s1 : At Text Bytes = without_temp e (call e (failure_of e "integrity" s.job) s) in
      fail_job e "The downloaded game did not verify. Install it again."
        (record s1 { job = record s1.job { download_id = ""; bytes_done = 0 } })

  unfoldable pub compare_package : Option String → At Text Bytes → Step Text Bytes
  compare_package none s = ended (defer_job e "The download could not be verified." s)
  compare_package (some sha) s =
      if not (sha == s.job.package_sha256)
      then ended (mismatched s)
      else followed (advance e extracting s)

  -- The downloaded file: digested, looked up in Defender's record, compared.
  unfoldable pub verify_download : At Text Bytes → Step Text Bytes
  verify_download s =
      let sha = e.file_digest s.site.steps in
      if elim sha [ none ↦ true | some _ ↦ false ] && e.stops s.site.steps
      then ended (tick e s)
      else elim (e.threats_seen s.site.steps (s.job.temp_path ∷ [])) [
        | some threats ↦ ended (
            scan_failed e false
              (e.removed_scan threats s.job.temp_path
                "The downloaded package was removed or refused by the antivirus.")
              "download" s)
        | none ↦ compare_package sha (tick e s)
      ]
