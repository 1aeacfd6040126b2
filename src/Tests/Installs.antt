-- ===== src/Tests/Installs.antt =====
-- An install and an update of a game, what is asked of them, and the visit of a job in a pass.
use virule_client.Prelude.{
  List, false, none, ◌<◌, ◌≡◌, refl, String, [], ◌∷◌, some, true, arith, if_branches, ◌==◌,
}
use virule_client.Evidence.Json.{opt_int}
use virule_client.Transfers.Job.{TransferJob, install, queued, failed}
use virule_client.Transfers.Site.{Reply}
use virule_client.Transfers.Outcome.{At}
use virule_client.Transfers.Install.Chain.{Asked}
use virule_client.Transfers.Install.Place.{place_build}
use virule_client.Transfers.Install.Place.Back.{HasPlace, place_build-HasPlace}
use virule_client.Transfers.Install.Download.{ranges}
use virule_client.Transfers.Install.Download.Ends.{Within, ranges-Within}
use virule_client.Transfers.Install.Run.{run_install}
use virule_client.Transfers.Install.Run.Ends.{run_install-ends}
use virule_client.Transfers.Install.Run.Safety.{EndsJustified, run_install-EndsJustified}
use virule_client.Transfers.Control.Last.{Asking, noted, last_word, is_paused_now-noted}
use virule_client.Transfers.Control.{
  Controls, pause, resume, is_paused_now, retry, acted, set_aside_refusal,
}
use virule_client.Transfers.Control.Held.{
  IsControlled, acted-IsControlled, SetsAside, set_aside_refusal-SetsAside,
}
use virule_client.Transfers.Removal.{run_removal}
use virule_client.Transfers.Removal.Own.{IsOwnRemoval, run_removal-IsOwnRemoval}
use virule_client.Transfers.Upload.Parts.{count}
use virule_client.Transfers.Install.Entry.{safe_entry, split_name, close_part, has_byte}
use virule_client.Transfers.Install.Entry.Inside.{IsPathInside, safe_entry-IsPathInside}
use virule_client.Transfers.Installed.{verify_installed}
use virule_client.Transfers.Installed.Vouched.{IsVouched, verify_installed-IsVouched}
use virule_client.Tests.Sample.{Doc, json}
use virule_client.Tests.Uploads.{service, upload_job, at_start}

abbrev install_job : TransferJob
install_job = record upload_job {
  kind = install;
  state = queued;
  assignment_id = "as";
  install_root = "games";
  install_dir = "game";
  temp_path = "game.part";
}

abbrev at_install : At Doc String
at_install = record {
  job = install_job;
  site = record at_start.site {
    game = some (("save", "mine") ∷ ("game.exe", "old") ∷ []);
    staging = some (("game.exe", "new") ∷ []);
  };
}

abbrev held_job : TransferJob
held_job = record install_job {
  state = failed;
  security_held = true;
  revision_id = "rev";
  scan_outcome = "detected";
}

abbrev asked : Asked
asked = record {
  assignment_id = "as";
  install_dir = "game";
  launch_exe = "game.exe";
  revision_id = "rev";
}

run_install-EndsJustified_example :
    EndsJustified
      (service 200 200)
      (λ a b c. refl)
      (run_install (service 200 200) 20 "me" at_install)
run_install-EndsJustified_example =
    run_install-EndsJustified (service 200 200) (λ a b c. refl) 20 "me" at_install refl

run_install-ends_example :
    (t : At Doc String) × (run_install (service 200 200) 20 "me" at_install ≡ some t)
run_install-ends_example =
    run_install-ends (service 200 200) 20
      (λ k q.
        if_branches (λ (r : Reply Doc). opt_int json r.body "package_bytes" < 20)
          (q.method == "PUT") (λ _. omega arith) (λ _. omega arith))
      "me" at_install

ranges-Within_example : Within (service 200 200) (ranges (service 200 200) 20 at_install)
ranges-Within_example =
    ranges-Within (service 200 200) (λ k p a b. omega arith) 20 at_install (omega arith)

place_build-HasPlace_example :
    HasPlace (service 200 200) at_install (place_build (service 200 200) at_install)
place_build-HasPlace_example = place_build-HasPlace (service 200 200) at_install

acted-IsControlled_example : IsControlled retry held_job (acted retry held_job)
acted-IsControlled_example = acted-IsControlled retry held_job

set_aside_refusal-SetsAside_example :
    SetsAside
      (service 200 200)
      "as"
      "rev"
      held_job
      (set_aside_refusal (service 200 200) "as" "rev" held_job)
set_aside_refusal-SetsAside_example =
    set_aside_refusal-SetsAside (service 200 200) "as" "rev" held_job

run_removal-IsOwnRemoval_example :
    IsOwnRemoval (service 200 200) at_install (run_removal (service 200 200) at_install)
run_removal-IsOwnRemoval_example = run_removal-IsOwnRemoval (service 200 200) at_install

-- a/b
safe_entry-IsPathInside_example : IsPathInside (safe_entry (97 ∷ 47 ∷ 98 ∷ []))
safe_entry-IsPathInside_example = safe_entry-IsPathInside (97 ∷ 47 ∷ 98 ∷ [])

-- ../a
unsafe_entry : safe_entry (46 ∷ 46 ∷ 47 ∷ 97 ∷ []) ≡ none
unfolding safe_entry split_name close_part has_byte count
unsafe_entry = refl

abbrev no_controls : Controls
no_controls = record { paused_ids = []; retry_ids = []; verify_ids = []; release_held = false }

abbrev asks : List Asking
asks =
    record { action = resume; assignment = "b" } ∷ record { action = pause; assignment = "as" } ∷ []

is_paused_now-noted_example :
    is_paused_now "as" (noted asks no_controls) ≡ last_word asks no_controls "as"
is_paused_now-noted_example = is_paused_now-noted asks no_controls "as"

abbrev at_installed : At Doc String
at_installed = record at_install { job = record install_job { installed_revision_id = "rev" } }

verify_installed-IsVouched_example :
    IsVouched (service 200 200) at_installed (verify_installed (service 200 200) at_installed)
verify_installed-IsVouched_example =
    verify_installed-IsVouched (service 200 200) (λ a b c. refl) at_installed
