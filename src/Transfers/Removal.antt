-- ===== src/Transfers/Removal.antt =====
-- The removal of a game (src/client/transfers.hpp, run_removal).
pub mod Own
use virule_client.Prelude.{
  ℕ, suc, ◌+◌, String, List, [], ◌∷◌, Option, none, some, Bool, true, false, not, ◌&&◌, ◌||◌,
  if◌then◌else◌, ◌==◌,
}
use virule_client.Evidence.Json.{Json}
use virule_client.Transfers.Job.{TransferJob, Stage, removed}
use virule_client.Transfers.Site.{Env, Site}
use virule_client.Transfers.Outcome.{At, tick, save_job, defer_job}
use virule_client.Transfers.Install.Build.{while_running_seconds}

module _ {j : Json} (e : Env j) where
  open j use {Text}
  open e use {Bytes}

  -- The job's own folder, directly inside the installs location.
  abbrev pub is_own_folder : TransferJob → Bool
  is_own_folder k =
      not (k.install_dir == "")
      && not (k.install_root == "")
      && (e.parent_of k.install_dir == k.install_root)
      && (e.name_of k.install_dir == k.game_uuid)

  unfoldable pub finish_game_removal : At Text Bytes → At Text Bytes
  finish_game_removal s = save_job e (record s {
    job = record s.job { state = removed; error = ""; attempts = 0 };
    site = record s.site { temp = if s.job.temp_path == "" then s.site.temp else none };
  })

  unfoldable pub remove_folder : At Text Bytes → At Text Bytes
  remove_folder s =
      if e.removes s.site.steps
      then finish_game_removal (tick e (record s { site = record s.site { game = none } }))
      else defer_job e "The game could not be removed yet."
          (tick e (record s { site = record s.site { game = e.leaves s.site.steps s.site.game } }))

  unfoldable pub run_removal : At Text Bytes → At Text Bytes
  run_removal s =
      if e.busy s.site.steps s.job.assignment_id
      then save_job e (record s {
        job = record s.job { next_attempt_utc = e.now s.site.steps + while_running_seconds };
      })
      else if is_own_folder s.job
      then remove_folder s
      else finish_game_removal s
