-- ===== src/Transfers/Install/Run/Safety.antt =====
-- What an installed game has behind it (src/client/transfers.hpp, run_install).
use virule_client.Prelude.{
  ℕ, ◌≡◌, String, Option, none, some, false, not, ◌&&◌, ◌||◌, if_branches, arith, ◌==◌,
}
use virule_client.Evidence.Json.{Json}
use virule_client.Transfers.Job.{
  installed, queued, downloading, verifying, extracting, scanning, is_at, is_clean,
}
use virule_client.Transfers.Site.{Env}
use virule_client.Transfers.Outcome.{At, tick, save_job}
use virule_client.Transfers.Upload.Session.{Step, followed}
use virule_client.Transfers.Install.Download.{download, verify_download}
use virule_client.Transfers.Install.Build.Clean.{IsOpen, StaysOpen, IsJustified, IsJustified-open}
use virule_client.Transfers.Install.Build.Justified.{install_build-IsJustified}
use virule_client.Transfers.Install.Run.{
  build_stage, verify_stage, is_to_download, download_stage, note_pause, claim_install,
  install_claimed, run_install,
}
use virule_client.Transfers.Install.Download.Open.{
  KeepsOpen, download-KeepsOpen, verify_download-StaysOpen,
}

module _ {j : Json} (e : Env j) where
  open j use {Text}
  open e use {Bytes}

  claim_install-IsOpen :
      (email : String) (s : At Text Bytes) → IsOpen e s → IsOpen e (claim_install e email s)
  unfolding claim_install save_job
  claim_install-IsOpen email s h =
      if_branches (IsOpen e) (s.job.account_email == "") (λ _. h) (λ _. h)

  module _
      (never_clean : (threats path detail : String)
        → is_clean (e.removed_scan threats path detail).outcome ≡ false) where
    build_stage-IsJustified :
        (t : Step Text Bytes) → StaysOpen e t → IsJustified e (build_stage e t)
    unfolding build_stage
    build_stage-IsJustified t h =
        if_branches (IsJustified e)
          (t.goes_on && (is_at t.at.job.state extracting || is_at t.at.job.state scanning))
          (λ _. install_build-IsJustified e never_clean t.at h) (λ _. IsJustified-open e t.at h)

    verify_stage-IsJustified :
        (t : Step Text Bytes) → StaysOpen e t → IsJustified e (verify_stage e t)
    unfolding verify_stage
    verify_stage-IsJustified t h =
        if_branches (IsJustified e) (t.goes_on && is_at t.at.job.state verifying)
          (λ _.
            build_stage-IsJustified (verify_download e t.at) (verify_download-StaysOpen e t.at h))
          (λ _. build_stage-IsJustified t h)

    -- What a run leaves, where it ends.
    abbrev pub EndsJustified : Option (At Text Bytes) → Type 0
    EndsJustified none = Unit
    EndsJustified (some s) = IsJustified e s

    download_stage-EndsJustified :
        (fuel : ℕ) (s : At Text Bytes) → IsOpen e s → EndsJustified (download_stage e fuel s)
    unfolding download_stage
    download_stage-EndsJustified fuel s h =
        if_branches EndsJustified (is_to_download e s.job.state)
          (λ _. go (download e fuel s) (download-KeepsOpen e fuel s h))
          (λ _. verify_stage-IsJustified (followed s) h)
      where
        go :
            (r : Option (Step Text Bytes))
            → KeepsOpen e r
            → EndsJustified (elim r [ none ↦ none | some t ↦ some (verify_stage e t) ])
        go none _ = tt
        go (some t) k = verify_stage-IsJustified t k

    install_claimed-EndsJustified :
        (fuel : ℕ) (email : String) (s : At Text Bytes)
        → IsOpen e s
        → EndsJustified (install_claimed e fuel email s)
    unfolding install_claimed note_pause save_job
    install_claimed-EndsJustified fuel email s h =
        if_branches EndsJustified (not (s.job.account_email == email)) (λ _. IsJustified-open e s h)
          (λ _.
            if_branches EndsJustified (e.pauses s.site.steps s.job.assignment_id || s.job.is_paused)
              (λ _.
                if_branches (IsJustified e)
                  (is_at s.job.state queued || is_at s.job.state downloading)
                  (λ _. λ g. absurd (ground (arith, g))) (λ _. IsJustified-open e s h))
              (λ _. download_stage-EndsJustified fuel (tick e s) h))

    -- An attempt at an install of a job that is not installed leaves it installed only if a scan of the
    -- extracted build was clean; the launch chain of the job's assignment, folder, launch file and revision
    -- was in order; and the next call of the service after that chain, the last one of the attempt, was
    -- the completion of this job's download with the digest and the size of its package, which was
    -- answered 200. The result for a removal by the antivirus is never clean.
    pub run_install-EndsJustified :
        (fuel : ℕ) (email : String) (s : At Text Bytes)
        → is_at s.job.state installed ≡ false
        → EndsJustified (run_install e fuel email s)
    unfolding run_install save_job
    run_install-EndsJustified fuel email s h =
        if_branches EndsJustified (e.is_ended s.site.steps s.job.assignment_id)
          (λ _. λ g. absurd (ground (arith, g)))
          (λ _.
            install_claimed-EndsJustified fuel email (claim_install e email (tick e s))
              (claim_install-IsOpen email (tick e s) h))
