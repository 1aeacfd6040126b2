-- ===== src/Transfers/Install/Build.antt =====
-- The extraction, the scan and the placement of a downloaded build (src/client/transfers.hpp, run_install).
pub mod Clean
pub mod Justified
use virule_client.Prelude.{
  ℕ, suc, ◌+◌, String, List, [], ◌∷◌, Option, none, some, Bool, true, false, not, ◌&&◌, ◌||◌, eqb,
  if◌then◌else◌, lookup, put, ◌==◌,
}
use Prim.Native.String.{◌++◌ as join}
use virule_client.Evidence.Json.{Json}
use virule_client.Transfers.Job.{
  TransferJob, Stage, queued, scanning, installed, Scan, is_clean, is_canceled,
}
use virule_client.Transfers.Site.{
  Env, Site, Folder, ServiceCall, Reply, json, Extraction, whole, broken, Originals, copied,
  blocked, unread,
}
use virule_client.Transfers.Outcome.{
  At, tick, save_job, defer_job, fail_job, call, answer, body_message, body_code, why_of,
}
use virule_client.Transfers.Upload.Session.{Step, ended, followed, advance}
use virule_client.Transfers.Upload.Examine.{failed_scan}
use virule_client.Transfers.Install.Chain.{ChainOutcome, Asked, Chained, ensure_launch_chain}
use virule_client.Transfers.Install.Place.{
  carry_files, with_staging, clear_staging, fresh_staging, staged_files, is_there, place_build,
}
use virule_client.Transfers.Install.Refusal.{download_path, without_temp, scan_failed}

abbrev pub while_running_seconds : ℕ
while_running_seconds = 15

module _ {j : Json} (e : Env j) where
  open j use {Text}
  open e use {Bytes}

  -- An update waits for the game to close, not on the ladder.
  unfoldable pub wait_for_close : At Text Bytes → At Text Bytes
  wait_for_close s = save_job e (record s {
    job = record s.job {
      error = "Close the game to finish the update.";
      next_attempt_utc = e.now s.site.steps + while_running_seconds;
    };
  })

  unfoldable pub unless_taken : String → String → String → At Text Bytes → At Text Bytes
  unless_taken why path detail s =
      elim (e.threats_seen s.site.steps
        (e.beside s.job.install_root ".virule-staging" ∷ s.job.temp_path ∷ [])) [
          | some threats ↦ scan_failed e true (e.removed_scan threats path detail) "install" s
          | none ↦ fail_job e why (clear_staging e s)
        ]

  unfoldable pub extract_build : At Text Bytes → Step Text Bytes
  extract_build s =
      let s1 : At Text Bytes =
        with_staging e (some (e.extracted s.site.steps (staged_files e s))) s in
      elim (e.extract_zip s.site.steps s.job.temp_path) [
        | broken why ↦
            if e.stops s1.site.steps
            then ended (clear_staging e s1)
            else ended (
                unless_taken why why
                  "A game file was refused or removed by the antivirus while it was extracted." s1)
        | whole ↦
            if not (e.has_file s1.site.steps s.job.launch_exe)
            then ended (
                unless_taken (join "The installed game has no " (join s.job.launch_exe "."))
                  s.job.launch_exe "The game's launch file was removed by the antivirus." s1)
            else followed s1
      ]

  -- Only a clean scan goes on.
  unfoldable pub settle_staged : Scan → At Text Bytes → Step Text Bytes
  settle_staged r s =
      if is_canceled r.outcome && e.stops s.site.steps
      then ended (clear_staging e s)
      else if not (is_clean r.outcome)
      then ended (scan_failed e true r "install" s)
      else followed (save_job e (record s { job = record s.job { scan_outcome = "clean" } }))

  unfoldable pub scan_build : At Text Bytes → Step Text Bytes
  scan_build s =
      let s1 : At Text Bytes = advance e scanning s in
      elim (e.originals_staged s1.site.steps) [
        | copied ↦ settle_staged (e.scan_staged s1.site.steps) s1
        | blocked why ↦
            if e.stops s1.site.steps
            then ended (clear_staging e s1)
            else settle_staged (e.removed_scan "" s1.job.launch_exe why) (tick e s1)
        | unread why ↦
            if e.stops s1.site.steps
            then ended (clear_staging e s1)
            else settle_staged (failed_scan e why) (tick e s1)
      ]

  -- The game's own files stay: they are carried into the build that replaces it.
  unfoldable pub carry_over : At Text Bytes → Step Text Bytes
  carry_over s = elim s.site.game [
    | none ↦ followed s
    | some previous ↦ elim (e.cannot_carry s.site.steps) [
      | some why ↦ ended (defer_job e why (clear_staging e s))
      | none ↦
          if e.busy s.site.steps s.job.assignment_id
          then ended (wait_for_close (clear_staging e s))
          else followed (
              with_staging e
                (elim s.site.staging [
                  | none ↦ none
                  | some build ↦ some (carry_files (e.is_carried s.site.steps) previous build)
                ])
                s)
    ]
  ]

  abbrev pub asked_of : TransferJob → Asked
  asked_of k = record {
    assignment_id = k.assignment_id;
    install_dir = k.install_dir;
    launch_exe = k.launch_exe;
    revision_id = k.revision_id;
  }

  unfoldable pub refused_chain : ChainOutcome → At Text Bytes → At Text Bytes
  refused_chain c s =
      let s1 : At Text Bytes = clear_staging e s in
      if c.code == "security_hold"
      then fail_job e c.why (without_temp e s1)
      else if c.retryable
      then defer_job e c.why s1
      else fail_job e c.why s1

  -- The service's current word before anything is placed.
  unfoldable pub authorize_placement : At Text Bytes → Step Text Bytes
  authorize_placement s =
      let c : Chained e = ensure_launch_chain e (asked_of s.job) s in
      if c.0.ok then followed c.1 else ended (refused_chain c.0 c.1)

  -- The records of what was placed.
  unfoldable pub record_placed : Option Text → Folder → At Text Bytes → At Text Bytes
  record_placed previous delivered s =
      let content = e.placed_record s.job.revision_id previous delivered in
      let digests = e.digests_record s.job.revision_id delivered in
      record s {
        site = record s.site {
          content_records =
              if e.writes s.site.steps
              then put s.job.id content s.site.content_records
              else s.site.content_records;
          digest_records =
              if e.writes (suc s.site.steps)
              then put s.job.id digests s.site.digest_records
              else s.site.digest_records;
          steps = suc (suc s.site.steps);
        };
      }

  abbrev pub installation_of : TransferJob → ServiceCall Text Bytes
  installation_of k = record {
    method = "POST";
    path = join (download_path e k) "/complete";
    body = json (
        j.object (("sha256", e.plain k.package_sha256) ∷ ("bytes", j.number k.package_bytes) ∷ []));
  }

  unfoldable pub queue_again : At Text Bytes → At Text Bytes
  queue_again s = save_job e (record s { job = record s.job { download_id = ""; state = queued } })

  -- The service does not count the package as delivered, or holds the game.
  unfoldable pub not_complete : Reply Text → At Text Bytes → At Text Bytes
  not_complete r s =
      if eqb r.status 409 && (body_code e r.body == "security_hold")
      then fail_job e (body_message e r.body) (without_temp e s)
      else if eqb r.status 409 && (body_code e r.body == "not_delivered")
      then queue_again (without_temp e (record s { job = record s.job { bytes_done = 0 } }))
      else if eqb r.status 409 && (body_code e r.body == "conflict")
      then queue_again s
      else defer_job e (why_of e r) s

  unfoldable pub finish_install : At Text Bytes → At Text Bytes
  finish_install s =
      let s1 : At Text Bytes = without_temp e s in
      save_job e (record s1 {
        job = record s1.job {
          state = installed;
          installed_revision_id = s1.job.revision_id;
          scan_revision_id = s1.job.revision_id;
          bytes_done = s1.job.package_bytes;
          permille = 1000;
          error = "";
          attempts = 0;
        };
        site = record s1.site { after_installs = s1.job.assignment_id ∷ s1.site.after_installs };
      })

  unfoldable pub report_install : At Text Bytes → At Text Bytes
  report_install s =
      let r : Reply Text = answer e (installation_of s.job) s in
      let s1 : At Text Bytes = call e (installation_of s.job) s in
      if eqb r.status 200 then finish_install s1 else not_complete r s1

  unfoldable pub place_and_report : Option Text → Folder → At Text Bytes → At Text Bytes
  place_and_report previous delivered s =
      let t : Step Text Bytes = place_build e s in
      if t.goes_on then report_install (record_placed previous delivered t.at) else t.at

  unfoldable pub authorize_and_place : Option Text → Folder → Step Text Bytes → At Text Bytes
  authorize_and_place previous delivered t =
      let u : Step Text Bytes = authorize_placement t.at in
      if not t.goes_on
      then t.at
      else if u.goes_on
      then place_and_report previous delivered u.at
      else u.at

  -- A scanned build.
  unfoldable pub put_in_place : Step Text Bytes → At Text Bytes
  put_in_place t =
      let previous : Option Text =
        if is_there e t.at.site.game then lookup t.at.job.id t.at.site.content_records else none in
      let delivered : Folder = elim t.at.site.staging [ none ↦ [] | some build ↦ build ] in
      if t.goes_on then authorize_and_place previous delivered (carry_over t.at) else t.at

  unfoldable pub scan_and_place : Step Text Bytes → At Text Bytes
  scan_and_place t =
      let u : Step Text Bytes = scan_build t.at in if t.goes_on then put_in_place u else t.at

  unfoldable pub install_build : At Text Bytes → At Text Bytes
  install_build s =
      if is_there e s.site.game && e.busy s.site.steps s.job.assignment_id
      then wait_for_close s
      else scan_and_place (extract_build (fresh_staging e s))
