-- ===== src/Transfers/Install/Refusal.antt =====
-- A scan that is not clean ends an install (src/client/transfers.hpp, scan_failed).
use virule_client.Prelude.{
  suc, String, List, [], ◌∷◌, none, Bool, true, false, not, ◌&&◌, ◌||◌, if◌then◌else◌, ◌==◌,
}
use Prim.Native.String.{◌++◌ as join}
use virule_client.Evidence.Json.{Json}
use virule_client.Transfers.Job.{TransferJob, Scan, is_upload, is_incident}
use virule_client.Transfers.Site.{Env, ServiceCall, json}
use virule_client.Transfers.Outcome.{At, fail_job, keep_incident, call}

abbrev pub install_threat : String
install_threat = "Windows Security found a threat in this game, so it was not installed."

module _ {j : Json} (e : Env j) where
  open j use {Text}
  open e use {Bytes}

  unfoldable pub scan_sentence : Scan → String
  scan_sentence r =
      if is_incident r.outcome
      then install_threat
      else e.unverified_sentence r.outcome r.why_unavailable "Install"

  abbrev pub download_path : TransferJob → String
  download_path k = join (join "/v1/assignments/" k.assignment_id) (join "/download/" k.download_id)

  -- The service is told why the download came to nothing.
  abbrev pub failure_of : String → TransferJob → ServiceCall Text Bytes
  failure_of reason k = record {
    method = "POST";
    path = join (download_path k) "/failed";
    body = json (j.object (("reason", j.quote reason) ∷ []));
  }

  abbrev pub without_temp : At Text Bytes → At Text Bytes
  without_temp s = record s { site = record s.site { temp = none; steps = suc s.site.steps } }

  abbrev pub tell_failure : String → At Text Bytes → At Text Bytes
  tell_failure reason s = if s.job.download_id == "" then s else call e (failure_of reason s.job) s

  -- A threat: the downloaded file goes, the revision is held on this computer, the service is told.
  unfoldable pub hold_revision : Scan → String → At Text Bytes → At Text Bytes
  hold_revision r operation s =
      let s1 : At Text Bytes =
        without_temp (record s { job = record s.job { security_held = true } }) in
      let s2 : At Text Bytes =
        tell_failure "security"
          (keep_incident e (e.incident_json s1.site.steps r operation "" s1.job.revision_id) s1) in
      record s2 { job = record s2.job { bytes_done = 0 } }

  unfoldable pub scan_failed : Bool → Scan → String → At Text Bytes → At Text Bytes
  scan_failed staged r operation s =
      let r1 : Scan =
        if is_incident r.outcome
        then record r { threats = e.attach s.site.steps r.threats }
        else r in
      let s1 : At Text Bytes = record s {
        job = record s.job { scan_outcome = e.outcome_name r.outcome };
        site = record s.site {
          staging =
              if staged
              then (if e.removes s.site.steps then none else e.leaves s.site.steps s.site.staging)
              else s.site.staging;
        };
      } in
      fail_job e (scan_sentence r1)
        (if is_incident r.outcome then hold_revision r1 operation s1 else s1)

  -- Another job of this assignment held this revision.
  unfoldable pub held_among : String → String → List TransferJob → Bool
  held_among assignment revision [] = false
  held_among assignment revision (k ∷ ks) =
      (not (is_upload k.kind)
        && (k.assignment_id == assignment)
        && k.security_held
        && (k.revision_id == revision))
      || held_among assignment revision ks

  abbrev pub revision_held_here : String → String → At Text Bytes → Bool
  revision_held_here assignment revision s =
      held_among assignment revision (e.list_jobs s.site.jobs)
