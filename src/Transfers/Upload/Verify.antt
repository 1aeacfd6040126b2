-- ===== src/Transfers/Upload/Verify.antt =====
-- The client's own verification of a package before its upload (src/client/transfers.hpp,
-- verify_package). The two scratch folders are one here.
pub mod Ends
pub mod Verdict
use virule_client.Prelude.{
  ℕ, suc, ◌+◌, ◌*◌, String, List, [], ◌∷◌, Option, none, some, Bool, true, false, not, ◌&&◌, ◌||◌,
  eqb, ltb, leb, if◌then◌else◌, without, ◌==◌,
}
use Prim.Native.String.{◌++◌ as join}
use virule_client.Evidence.Json.{Json}
use virule_client.Transfers.Job.{
  TransferJob, packaged, verifying, Scan, Outcome, clean, canceled, is_incident, is_clean,
  is_canceled, scan_error,
}
use virule_client.Transfers.Site.{
  Env, Site, Identity, Digests, Verification, Contents, listed, unlisted, whole, broken, copied,
  blocked, unread,
}
use virule_client.Transfers.Outcome.{
  At, tick, save_job, defer_job, fail_job, keep_incident, remove_record,
}
use virule_client.Transfers.Upload.Session.{Step, ended, followed}
use virule_client.Transfers.Upload.Parts.{count, package_changed}
use virule_client.Transfers.Upload.Record.{write_record, is_same_identity}
use virule_client.Transfers.Upload.Examine.{
  Examined, interrupted, unusable, scanned, defender, failed_scan, scratch_of, originals_of,
  with_scratch, unless_acted, scan_originals, examine,
}

abbrev pub upload_threat : String
upload_threat = "Windows Security found a threat in this game, so it was not sent."

-- The figures of the package that was read.
pub record Figures : Type 0 where
  pub before : Identity
  pub digests : Digests
  pub content : ℕ
  pub files : ℕ

module _ {j : Json} (e : Env j) where
  open j use {Text}
  open e use {Bytes}

  unfoldable pub upload_scan_sentence : Scan → String
  upload_scan_sentence r =
      if is_incident r.outcome
      then upload_threat
      else e.unverified_sentence r.outcome r.why_unavailable "Build"

  unfoldable pub record_of : Figures → Scan → At Text Bytes → Verification
  record_of f r s = record {
    job_id = s.job.id;
    game_uuid = s.job.game_uuid;
    build_uuid = s.job.build_uuid;
    package_path = s.job.package_path;
    archive = f.before;
    package_sha256 = f.digests.sha256;
    part_sha256 = f.digests.parts;
    content_bytes = f.content;
    file_count = f.files;
    launch_exe = s.job.launch_exe;
    scanner = r.scanner;
    scan_path = r.path;
    engine_version = r.engine_version;
    signature_version = r.signature_version;
    verified_utc = e.utc s.site.steps;
  }

  -- Verified: the job carries the client's own figures.
  unfoldable pub packaged_as : Verification → At Text Bytes → At Text Bytes
  packaged_as v s = save_job e (record s {
    job = record s.job {
      package_bytes = v.archive.bytes;
      package_sha256 = v.package_sha256;
      content_bytes = v.content_bytes;
      file_count = v.file_count;
      parts_total = count v.part_sha256;
      bytes_total = v.archive.bytes;
      bytes_done = 0;
      permille = 0;
      state = packaged;
    };
  })

  -- A clean scan: the package must still be what was read.
  unfoldable pub vouch_for : Figures → Scan → At Text Bytes → Step Text Bytes
  vouch_for f r s = elim (e.identity_of s.site.steps s.job.package_path) [
    | none ↦ ended (fail_job e package_changed s)
    | some after ↦
        if not (is_same_identity after f.before)
        then ended (fail_job e package_changed s)
        else if not (e.writes s.site.steps)
        then ended (
            defer_job e "The verification could not be recorded."
              (write_record e (record_of f r s) s))
        else followed (packaged_as (record_of f r s) (write_record e (record_of f r s) s))
  ]

  unfoldable pub with_attached : Scan → At Text Bytes → Scan
  with_attached r s =
      if is_incident r.outcome then record r { threats = e.attach s.site.steps r.threats } else r

  abbrev pub with_outcome : Scan → At Text Bytes → At Text Bytes
  with_outcome r s = record s { job = record s.job { scan_outcome = e.outcome_name r.outcome } }

  -- A scan that is not clean ends the job with one sentence, an incident kept for the service.
  unfoldable pub refuse_scan : Scan → At Text Bytes → Step Text Bytes
  refuse_scan r s = ended (
      fail_job e (upload_scan_sentence r) (
        if is_incident r.outcome
        then keep_incident e (e.incident_json s.site.steps r "scan_package" s.job.build_uuid "") s
        else s))

  unfoldable pub settle_scan : Figures → Scan → At Text Bytes → Step Text Bytes
  settle_scan f r s =
      if is_canceled r.outcome && e.stops s.site.steps
      then ended s
      else if not (is_clean r.outcome)
      then refuse_scan r (with_outcome r s)
      else vouch_for f r (with_outcome r (tick e s))

  unfoldable pub settle_examined : Figures → Examined Text Bytes → Step Text Bytes
  settle_examined f (interrupted s) = ended (with_scratch e false s)
  settle_examined f (unusable why s) = ended (fail_job e why (with_scratch e false s))
  settle_examined f (scanned r s) = settle_scan f (with_attached r s) (with_scratch e false s)

  unfoldable pub verify_contents : Identity → Digests → ℕ → ℕ → At Text Bytes → Step Text Bytes
  verify_contents before d content files s =
      let needed = content + 256 * 1024 * 1024 in
      let free_now = e.free_bytes_at s.site.steps s.job.package_path in
      if not (e.within_cap content)
      then ended (fail_job e (e.too_large_sentence content) s)
      else if ltb free_now needed
      then ended (
          fail_job e
            (join "Not enough free space on the build drive: "
              (join (e.format_gb needed) (join " needed, " (join (e.format_gb free_now) " free."))))
            (with_scratch e false s))
      else settle_examined
          (record { before = before; digests = d; content = content; files = files })
          (examine e (with_scratch e true (with_scratch e false s)))

  unfoldable pub verify_digests : Identity → Digests → At Text Bytes → Step Text Bytes
  verify_digests before d s =
      if not (s.job.package_sha256 == "") && not (d.sha256 == s.job.package_sha256)
      then ended (fail_job e package_changed s)
      else elim (e.zip_contents s.site.steps s.job.package_path) [
        | unlisted why ↦ ended (fail_job e why s)
        | listed content files ↦ verify_contents before d content files s
      ]

  unfoldable pub verify_identity : Identity → At Text Bytes → Step Text Bytes
  verify_identity before s =
      if ltb e.package_max before.bytes
      then ended (fail_job e (e.too_large_sentence before.bytes) s)
      else elim (e.digest_package s.site.steps s.job.package_path before.bytes) [
        | none ↦
            if e.stops s.site.steps
            then ended (tick e s)
            else ended (defer_job e "The package could not be read." s)
        | some d ↦ verify_digests before d (tick e s)
      ]

  abbrev pub is_incomplete : TransferJob → Bool
  is_incomplete k =
      not (e.is_hex32 k.build_uuid)
      || not (e.is_hex32 k.game_uuid)
      || (k.package_path == "")
      || (k.launch_exe == "")

  -- The state `verifying` is saved and the record of an earlier verification goes.
  unfoldable pub begin_verifying : At Text Bytes → At Text Bytes
  begin_verifying s = remove_record e (
      save_job e (record s {
        job = record s.job {
          state = verifying;
          owner_pid = 0;
          error = "";
          permille = 1000;
          bytes_done = 0;
        };
      }))

  unfoldable pub verify_upload : At Text Bytes → Step Text Bytes
  verify_upload s =
      let s1 : At Text Bytes = begin_verifying s in
      if is_incomplete s1.job
      then ended (fail_job e "The build is incomplete. Build it again." s1)
      else elim (e.identity_of s1.site.steps s1.job.package_path) [
        | none ↦ ended (fail_job e package_changed s1)
        | some before ↦ verify_identity before (tick e s1)
      ]
