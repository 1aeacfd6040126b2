-- ===== src/Transfers/Install/Place.antt =====
-- A scanned build is put in the game's folder (src/client/transfers.hpp, carry_over and the renames of run_install).
pub mod Back
use virule_client.Prelude.{
  ℕ, suc, String, List, [], ◌∷◌, Option, none, some, Bool, true, false, not, ◌&&◌, if◌then◌else◌,
  Dict, lookup, put, ◌==◌,
}
use virule_client.Evidence.Json.{Json}
use virule_client.Transfers.Job.{TransferJob}
use virule_client.Transfers.Site.{Env, Site, Folder}
use virule_client.Transfers.Outcome.{At, tick, save_job, defer_job, fail_job}
use virule_client.Transfers.Upload.Session.{Step, ended, followed}

-- A file is copied if the other folder does not have it.
unfoldable pub carry_file : String → String → Folder → Folder
carry_file path content to = elim (lookup path to) [ none ↦ put path content to | some _ ↦ to ]

-- The files that the walk takes.
unfoldable pub carry_files : (String → Bool) → Folder → Folder → Folder
carry_files is_carried [] to = to
carry_files is_carried ((path, content) ∷ files) to =
    carry_files is_carried files (if is_carried path then carry_file path content to else to)

module _ {j : Json} (e : Env j) where
  open j use {Text}
  open e use {Bytes}

  abbrev pub with_staging : Option Folder → At Text Bytes → At Text Bytes
  with_staging f s = record s { site = record s.site { staging = f; steps = suc s.site.steps } }

  -- A removal whose errors are ignored: it may leave a part.
  abbrev pub left_of : ℕ → Option Folder → Option Folder
  left_of n f = if e.removes n then none else e.leaves n f

  abbrev pub clear_staging : At Text Bytes → At Text Bytes
  clear_staging s = with_staging (left_of s.site.steps s.site.staging) s

  abbrev pub staged_files : At Text Bytes → Folder
  staged_files s = elim s.site.staging [ none ↦ [] | some files ↦ files ]

  -- The staging folder is cleared and made again.
  abbrev pub fresh_staging : At Text Bytes → At Text Bytes
  fresh_staging s = with_staging (some (staged_files (clear_staging s))) (clear_staging s)

  abbrev pub is_there : Option Folder → Bool
  is_there none = false
  is_there (some _) = true

  -- The build could not move in: the previous folder is put back.
  unfoldable pub move_back : Option Folder → At Text Bytes → At Text Bytes
  move_back none s = fail_job e "The game could not be placed in its folder." (clear_staging s)
  move_back (some previous) s =
      if e.renames s.site.steps
      then defer_job e "The update could not be put in place. The installed game is unchanged."
          (clear_staging (record s { site = record s.site { game = some previous; old = none } }))
      else fail_job e "The game could not be placed in its folder." (clear_staging s)

  -- The build moves in, and only then does the previous folder go.
  unfoldable pub move_in : Option Folder → At Text Bytes → Step Text Bytes
  move_in previous s =
      if e.renames s.site.steps
      then followed (
          tick e (record s {
            site = record s.site {
              game = s.site.staging;
              staging = none;
              old = if is_there previous then left_of s.site.steps s.site.old else s.site.old;
            };
          }))
      else ended (move_back previous (tick e s))

  -- The previous folder steps aside.
  unfoldable pub place_over : Option Folder → At Text Bytes → Step Text Bytes
  place_over none s = move_in none s
  place_over (some previous) s =
      if e.renames s.site.steps
      then move_in (some previous)
          (tick e (record s { site = record s.site { game = none; old = some previous } }))
      else ended (
          defer_job e "The previous installation is in use. Close the game and try again." (
            clear_staging
              (record s { site = record s.site { old = left_of s.site.steps s.site.old } })))

  unfoldable pub place_build : At Text Bytes → Step Text Bytes
  place_build s = place_over s.site.game s
