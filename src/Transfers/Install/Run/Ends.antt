-- ===== src/Transfers/Install/Run/Ends.antt =====
-- An attempt at an install ends (src/client/transfers.hpp, run_install).
use virule_client.Prelude.{
  ℕ, ◌<◌, ◌≡◌, refl, String, Option, none, some, false, not, ◌||◌, eqb, ltb, if_branches,
  if◌then◌else◌, arith, ◌==◌,
}
use virule_client.Evidence.Json.{Json, opt_int}
use virule_client.Transfers.Site.{
  Env, ServiceCall, Opening, appends, refused_by_antivirus, cannot_open,
}
use virule_client.Transfers.Outcome.{At, tick, save_job, defer_job, call, answer}
use virule_client.Transfers.Upload.Session.{Step, ended}
use virule_client.Transfers.Install.Refusal.{scan_failed, without_temp, revision_held_here}
use virule_client.Transfers.Install.Download.{
  refused_open, Authorized, authorized_of, is_malformed, resume_from, start_download, ranges,
  close_download, fetch, begin_download, authorization_of, download,
}
use virule_client.Transfers.Install.Download.Ends.{Ends, ranges-Ends}
use virule_client.Transfers.Install.Run.{
  verify_stage, is_to_download, download_stage, claim_install, install_claimed, run_install,
}

module _ {j : Json} (e : Env j) (fuel : ℕ) where
  open j use {Text}
  open e use {Bytes}

  fetch-Ends : (s : At Text Bytes) → s.job.package_bytes < fuel → Ends e (fetch e fuel s)
  unfolding fetch
  fetch-Ends s h =
      go (e.opens s.site.steps) (ranges e fuel s) (ranges-Ends e fuel s (omega (arith, h)))
    where
      go :
          (o : Opening) (r : Option (Step Text Bytes))
          → Ends e r
          → Ends e (elim o [
            | appends ↦ elim r [ none ↦ none | some t ↦ some (close_download e t) ]
            | refused_by_antivirus ↦
                some (ended (scan_failed e false (refused_open e s) "download" s))
            | cannot_open ↦ some (ended (defer_job e "The download could not be written." s))
          ])
      go appends none (t, h) = absurd (ground (arith, h))
      go appends (some t) _ = (_, refl)
      go refused_by_antivirus r _ = (_, refl)
      go cannot_open r _ = (_, refl)

  resume_from-package :
      (size : ℕ) (s : At Text Bytes)
      → (resume_from e size s).job.package_bytes ≡ s.job.package_bytes
  unfolding resume_from
  resume_from-package size s = go s.site.temp
    where
      go :
          (o : Option ℕ)
          → (elim o as (λ _. At Text Bytes) [
            | none ↦ record s { job = record s.job { bytes_done = 0 } }
            | some have ↦
                if ltb size have
                then without_temp e (record s { job = record s.job { bytes_done = 0 } })
                else record s { job = record s.job { bytes_done = have } }
          ]).job.package_bytes
            ≡ s.job.package_bytes
      go none = refl
      go (some have) =
          if_branches (λ (u : At Text Bytes). u.job.package_bytes ≡ s.job.package_bytes)
            (ltb size have) (λ _. refl) (λ _. refl)

  start_download-package :
      (a : Authorized) (s : At Text Bytes)
      → (start_download e a s).job.package_bytes ≡ a.package_bytes
  unfolding start_download save_job
  start_download-package a s = resume_from-package a.package_bytes _

  begin_download-Ends :
      (a : Authorized) (s : At Text Bytes)
      → a.package_bytes < fuel
      → Ends e (begin_download e fuel a s)
  unfolding begin_download
  begin_download-Ends a s h =
      if_branches (Ends e) (is_malformed e a) (λ _. (_, refl))
        (λ _.
          if_branches (Ends e) (revision_held_here e s.job.assignment_id a.revision_id s)
            (λ _. (_, refl))
            (λ _.
              fetch-Ends (start_download e a s)
                (let p = start_download-package a s in omega (arith, h, p))))

  module _
      (small : (k : ℕ) (q : ServiceCall Text Bytes)
        → opt_int j (e.reply k q).body "package_bytes" < fuel) where
    download-Ends : (s : At Text Bytes) → Ends e (download e fuel s)
    unfolding download authorized_of
    download-Ends s =
        if_branches (Ends e) (not (eqb (answer e (authorization_of e s) s).status 200))
          (λ _. (_, refl))
          (λ _.
            begin_download-Ends (authorized_of e (answer e (authorization_of e s) s).body)
              (call e (authorization_of e s) s) (small s.site.steps (authorization_of e s)))

    abbrev pub RunEnds : Option (At Text Bytes) → Type 0
    RunEnds r = (s : At Text Bytes) × (r ≡ some s)

    download_stage-RunEnds : (s : At Text Bytes) → RunEnds (download_stage e fuel s)
    unfolding download_stage
    download_stage-RunEnds s =
        if_branches RunEnds (is_to_download e s.job.state)
          (λ _. go (download e fuel s) (download-Ends s)) (λ _. (_, refl))
      where
        go :
            (r : Option (Step Text Bytes))
            → Ends e r
            → RunEnds (elim r [ none ↦ none | some t ↦ some (verify_stage e t) ])
        go none (t, h) = absurd (ground (arith, h))
        go (some t) _ = (_, refl)

    -- An attempt at an install ends, where the sizes of packages that the service answers with are below the
    -- fuel for ranges.
    pub run_install-ends :
        (email : String) (s : At Text Bytes)
        → (t : At Text Bytes) × (run_install e fuel email s ≡ some t)
    unfolding run_install install_claimed
    run_install-ends email s =
        if_branches RunEnds (e.is_ended s.site.steps s.job.assignment_id) (λ _. (_, refl))
          (λ _.
            let u : At Text Bytes = claim_install e email (tick e s) in
            if_branches RunEnds (not (u.job.account_email == email)) (λ _. (_, refl))
              (λ _.
                if_branches RunEnds (e.pauses u.site.steps u.job.assignment_id || u.job.is_paused)
                  (λ _. (_, refl)) (λ _. download_stage-RunEnds (tick e u))))
