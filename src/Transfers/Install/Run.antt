-- ===== src/Transfers/Install/Run.antt =====
-- One attempt at an install (src/client/transfers.hpp, run_install), and the removal of a game.
pub mod Safety
pub mod Ends
use virule_client.Prelude.{
  ℕ, suc, ◌+◌, String, Option, none, some, Bool, true, false, not, ◌&&◌, ◌||◌, if◌then◌else◌, ◌==◌,
}
use virule_client.Evidence.Json.{Json}
use virule_client.Transfers.Job.{
  TransferJob, Stage, queued, paused, downloading, verifying, extracting, scanning, removing,
  removed, is_at,
}
use virule_client.Transfers.Site.{Env, Site}
use virule_client.Transfers.Outcome.{At, tick, save_job, defer_job}
use virule_client.Transfers.Upload.Session.{Step, ended, followed}
use virule_client.Transfers.Install.Download.{download, verify_download}
use virule_client.Transfers.Install.Build.{while_running_seconds, install_build}

module _ {j : Json} (e : Env j) where
  open j use {Text}
  open e use {Bytes}

  -- A verified package, or one whose scan was interrupted.
  unfoldable pub build_stage : Step Text Bytes → At Text Bytes
  build_stage t =
      if t.goes_on && (is_at t.at.job.state extracting || is_at t.at.job.state scanning)
      then install_build e t.at
      else t.at

  unfoldable pub verify_stage : Step Text Bytes → At Text Bytes
  verify_stage t =
      if t.goes_on && is_at t.at.job.state verifying
      then build_stage (verify_download e t.at)
      else build_stage t

  abbrev pub is_to_download : Stage → Bool
  is_to_download st = is_at st queued || is_at st paused || is_at st downloading

  unfoldable pub download_stage : ℕ → At Text Bytes → Option (At Text Bytes)
  download_stage fuel s =
      let fetched = download e fuel s in
      if is_to_download s.job.state
      then elim fetched [ none ↦ none | some t ↦ some (verify_stage t) ]
      else some (verify_stage (followed s))

  unfoldable pub note_pause : At Text Bytes → At Text Bytes
  note_pause s =
      if is_at s.job.state queued || is_at s.job.state downloading
      then save_job e (record s { job = record s.job { state = paused; is_paused = true } })
      else s

  unfoldable pub claim_install : String → At Text Bytes → At Text Bytes
  claim_install email s =
      if s.job.account_email == ""
      then save_job e (record s { job = record s.job { account_email = email } })
      else s

  unfoldable pub install_claimed : ℕ → String → At Text Bytes → Option (At Text Bytes)
  install_claimed fuel email s =
      if not (s.job.account_email == email)
      then some s
      else if e.pauses s.site.steps s.job.assignment_id || s.job.is_paused
      then some (note_pause s)
      else download_stage fuel (tick e s)

  -- An assignment that ended installs nothing again: what is there is removed.
  unfoldable pub run_install : ℕ → String → At Text Bytes → Option (At Text Bytes)
  run_install fuel email s =
      if e.is_ended s.site.steps s.job.assignment_id
      then some
          (save_job e (record s { job = record s.job { state = removing; next_attempt_utc = 0 } }))
      else install_claimed fuel email (claim_install email (tick e s))
