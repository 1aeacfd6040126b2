-- ===== src/Transfers/Installed.antt =====
-- The installed content, verified again (src/client/transfers.hpp, verify_installed). The scan copies
-- beside the game are not kept.
pub mod Vouched
use virule_client.Prelude.{
  ℕ, suc, String, List, [], ◌∷◌, Option, none, some, Bool, true, false, not, ◌&&◌, ◌||◌,
  if◌then◌else◌, lookup, put, ◌==◌,
}
use virule_client.Evidence.Json.{Json}
use virule_client.Transfers.Job.{TransferJob, Scan, is_incident, is_clean}
use virule_client.Transfers.Site.{Env, Site, Unverified, Plan, Originals, copied, blocked, unread}
use virule_client.Transfers.Outcome.{At, tick, save_job, keep_incident}
use virule_client.Transfers.Upload.Examine.{failed_scan}
use virule_client.Transfers.Install.Refusal.{install_threat}

module _ {j : Json} (e : Env j) where
  open j use {Text}
  open e use {Bytes}

  -- The record of the last clean scan, if it is of this revision.
  abbrev pub prior_of : String → At Text Bytes → Option Text
  prior_of revision s =
      if s.job.scan_revision_id == revision then lookup s.job.id s.site.content_records else none

  unfoldable pub scan_with_originals : Plan → At Text Bytes → Originals → Scan
  scan_with_originals p s copied = e.scan_installed s.site.steps p
  scan_with_originals p s (blocked why) = e.removed_scan "" s.job.launch_exe why
  scan_with_originals p s (unread why) = record (failed_scan e why) { scanner = "" }

  -- The wrapper's original is copied out only for a whole scan or a changed launch file.
  unfoldable pub scan_plan : Plan → At Text Bytes → Scan
  scan_plan p s =
      if p.is_whole || p.is_launch_changed
      then scan_with_originals p s (e.originals_installed s.site.steps)
      else e.scan_installed s.site.steps p

  abbrev pub attached : Scan → At Text Bytes → Scan
  attached r s =
      if is_incident r.outcome then record r { threats = e.attach s.site.steps r.threats } else r

  -- Clean: the scanned files are taken into the record.
  unfoldable pub take_clean : String → Option Text → Unverified → At Text Bytes → At Text Bytes
  take_clean revision prior u s =
      if e.writes s.site.steps
      then tick e (record s {
        job = record s.job { scan_revision_id = revision };
        site = record s.site {
          content_records =
              put s.job.id (e.after_clean_scan prior revision u) s.site.content_records;
        };
      })
      else tick e s

  -- A threat: the revision is held here, and the incident is kept.
  unfoldable pub hold_installed : String → Scan → At Text Bytes → At Text Bytes
  hold_installed revision r s =
      keep_incident e (e.incident_json s.site.steps r "launch" "" revision)
        (record s { job = record s.job { security_held = true; error = install_threat } })

  unfoldable pub apply_scan :
      String → Option Text → Unverified → Scan → At Text Bytes → At Text Bytes
  apply_scan revision prior u r s =
      if is_clean r.outcome
      then take_clean revision prior u s
      else if is_incident r.outcome
      then hold_installed revision (attached r s) s
      else s

  unfoldable pub settle_installed :
      String → Option Text → Unverified → Scan → At Text Bytes → At Text Bytes
  settle_installed revision prior u r s = save_job e (
      apply_scan revision prior u r
        (record s { job = record s.job { scan_outcome = e.outcome_name r.outcome } }))

  abbrev pub is_vouched_for : Unverified → Bool
  is_vouched_for u = not u.is_whole && elim u.files [ [] ↦ true | ◌∷◌ _ _ ↦ false ]

  unfoldable pub verify_unverified :
      String → Option Text → Unverified → At Text Bytes → At Text Bytes
  verify_unverified revision prior u s =
      let p : Plan = e.plan_scan u s.job.launch_exe in
      if is_vouched_for u
      then (if s.job.scan_revision_id == revision
          then s
          else save_job e (record s { job = record s.job { scan_revision_id = revision } }))
      else settle_installed revision prior u (scan_plan p s) s

  unfoldable pub verify_installed : At Text Bytes → At Text Bytes
  verify_installed s =
      let revision = e.installed_revision s.job in
      if (revision == "") || not (e.has_file s.site.steps s.job.install_dir) || s.job.security_held
      then s
      else verify_unverified revision (prior_of revision s)
          (e.unverified s.site.steps (prior_of revision s) revision) (tick e s)
