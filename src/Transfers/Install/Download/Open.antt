-- ===== src/Transfers/Install/Download/Open.antt =====
-- A download installs nothing (src/client/transfers.hpp, run_install).
use virule_client.Prelude.{
  ℕ, suc, zero, ◌≡◌, refl, ap, String, [], ◌∷◌, Option, none, some, true, false, not, ◌&&◌, ◌||◌,
  eqb, ltb, if_branches, if◌then◌else◌, ◌==◌,
}
use virule_client.Evidence.Json.{Json}
use virule_client.Transfers.Job.{Stage, installed, is_at}
use virule_client.Transfers.Site.{Env, Reply, Opening, appends, refused_by_antivirus, cannot_open}
use virule_client.Transfers.Outcome.{At, tick, save_job, defer_job, call, answer, body_code}
use virule_client.Transfers.Upload.Session.{Step, ended, advance}
use virule_client.Transfers.Install.Refusal.{scan_failed, without_temp, revision_held_here}
use virule_client.Transfers.Install.Download.{
  refused_open, Authorized, is_malformed, resume_from, start_download, took_range, lost_range,
  with_bytes, range_of, ranges, close_download, fetch, refused_download, begin_download,
  authorization_of, download, mismatched, compare_package, verify_download,
}
use virule_client.Transfers.Install.Build.Clean.{
  IsOpen, StaysOpen, fail_job-IsOpen, scan_failed-IsOpen,
}

module _ {j : Json} (e : Env j) where
  open j use {Text}
  open e use {Bytes}

  -- Where a download ends, the job is not installed.
  abbrev pub KeepsOpen : Option (Step Text Bytes) → Type 0
  KeepsOpen none = Unit
  KeepsOpen (some t) = StaysOpen e t

  lost_range-IsOpen :
      (status : ℕ) (s : At Text Bytes) → IsOpen e s → IsOpen e (lost_range e status s)
  unfolding lost_range defer_job save_job
  lost_range-IsOpen status s h =
      if_branches (IsOpen e) (eqb status 410 || eqb status 404 || eqb status 409) (λ _. h) (λ _. h)

  ranges-KeepsOpen : (fuel : ℕ) (s : At Text Bytes) → IsOpen e s → KeepsOpen (ranges e fuel s)
  unfolding ranges took_range with_bytes defer_job save_job
  ranges-KeepsOpen zero s h = tt
  ranges-KeepsOpen (suc fuel) s h =
      if_branches KeepsOpen (not (ltb s.job.bytes_done s.job.package_bytes)) (λ _. h)
        (λ _.
          if_branches KeepsOpen (e.stops s.site.steps || e.pauses s.site.steps s.job.assignment_id)
            (λ _. h)
            (λ _.
              if_branches KeepsOpen
                (not (range_of e s).is_whole || not (eqb (range_of e s).status 206))
                (λ _. lost_range-IsOpen _ (with_bytes e (range_of e s).got s) h)
                (λ _.
                  if_branches KeepsOpen (eqb (range_of e s).got 0) (λ _. h)
                    (λ _.
                      ranges-KeepsOpen fuel
                        (took_range e (range_of e s).got (with_bytes e (range_of e s).got s)) h))))

  close_download-StaysOpen :
      (t : Step Text Bytes) → StaysOpen e t → StaysOpen e (close_download e t)
  unfolding close_download advance save_job
  close_download-StaysOpen t h =
      if_branches (StaysOpen e) t.goes_on (λ _. refl)
        (λ _.
          if_branches (StaysOpen e) (e.pauses t.at.site.steps t.at.job.assignment_id) (λ _. refl)
            (λ _. h))

  fetch-KeepsOpen : (fuel : ℕ) (s : At Text Bytes) → IsOpen e s → KeepsOpen (fetch e fuel s)
  unfolding fetch defer_job save_job
  fetch-KeepsOpen fuel s h = go (e.opens s.site.steps) (ranges e fuel s) (ranges-KeepsOpen fuel s h)
    where
      go :
          (o : Opening) (r : Option (Step Text Bytes))
          → KeepsOpen r
          → KeepsOpen (elim o [
            | appends ↦ elim r [ none ↦ none | some t ↦ some (close_download e t) ]
            | refused_by_antivirus ↦
                some (ended (scan_failed e false (refused_open e s) "download" s))
            | cannot_open ↦ some (ended (defer_job e "The download could not be written." s))
          ])
      go appends none _ = tt
      go appends (some t) k = close_download-StaysOpen t k
      go refused_by_antivirus r _ = scan_failed-IsOpen e false _ "download" s
      go cannot_open r _ = h

  resume_from-state :
      (size : ℕ) (s : At Text Bytes) → (resume_from e size s).job.state ≡ s.job.state
  unfolding resume_from
  resume_from-state size s = go s.site.temp
    where
      go :
          (o : Option ℕ)
          → (elim o as (λ _. At Text Bytes) [
            | none ↦ record s { job = record s.job { bytes_done = 0 } }
            | some have ↦
                if ltb size have
                then without_temp e (record s { job = record s.job { bytes_done = 0 } })
                else record s { job = record s.job { bytes_done = have } }
          ]).job.state
            ≡ s.job.state
      go none = refl
      go (some have) =
          if_branches (λ (u : At Text Bytes). u.job.state ≡ s.job.state) (ltb size have) (λ _. refl)
            (λ _. refl)

  start_download-IsOpen : (a : Authorized) (s : At Text Bytes) → IsOpen e (start_download e a s)
  unfolding start_download save_job
  start_download-IsOpen a s =
      ap (λ (st : Stage). is_at st installed) (resume_from-state a.package_bytes _)

  begin_download-KeepsOpen :
      (fuel : ℕ) (a : Authorized) (s : At Text Bytes)
      → IsOpen e s
      → KeepsOpen (begin_download e fuel a s)
  unfolding begin_download defer_job save_job
  begin_download-KeepsOpen fuel a s h =
      if_branches KeepsOpen (is_malformed e a) (λ _. h)
        (λ _.
          if_branches KeepsOpen (revision_held_here e s.job.assignment_id a.revision_id s)
            (λ _. fail_job-IsOpen e _ _)
            (λ _. fetch-KeepsOpen fuel (start_download e a s) (start_download-IsOpen a s)))

  refused_download-IsOpen :
      (r : Reply Text) (s : At Text Bytes) → IsOpen e s → IsOpen e (refused_download e r s)
  unfolding refused_download defer_job save_job
  refused_download-IsOpen r s h =
      if_branches (IsOpen e)
        ((eqb r.status 409 && (body_code e r.body == "no_build"))
          || (eqb r.status 409 && (body_code e r.body == "security_hold"))
          || eqb r.status 404
          || eqb r.status 403)
        (λ _. fail_job-IsOpen e _ _) (λ _. h)

  pub download-KeepsOpen :
      (fuel : ℕ) (s : At Text Bytes) → IsOpen e s → KeepsOpen (download e fuel s)
  unfolding download call
  download-KeepsOpen fuel s h =
      if_branches KeepsOpen (not (eqb (answer e (authorization_of e s) s).status 200))
        (λ _. refused_download-IsOpen _ (call e (authorization_of e s) s) h)
        (λ _. begin_download-KeepsOpen fuel _ (call e (authorization_of e s) s) h)

  compare_package-StaysOpen :
      (o : Option String) (s : At Text Bytes) → IsOpen e s → StaysOpen e (compare_package e o s)
  unfolding compare_package mismatched advance defer_job save_job
  compare_package-StaysOpen none s h = h
  compare_package-StaysOpen (some sha) s h =
      if_branches (StaysOpen e) (not (sha == s.job.package_sha256)) (λ _. fail_job-IsOpen e _ _)
        (λ _. refl)

  pub verify_download-StaysOpen :
      (s : At Text Bytes) → IsOpen e s → StaysOpen e (verify_download e s)
  unfolding verify_download
  verify_download-StaysOpen s h =
      go (e.file_digest s.site.steps) (e.threats_seen s.site.steps (s.job.temp_path ∷ []))
    where
      go :
          (sha : Option String) (o : Option String)
          → StaysOpen e (
              if elim sha [ none ↦ true | some _ ↦ false ] && e.stops s.site.steps
              then ended (tick e s)
              else elim o [
                | some threats ↦ ended (
                    scan_failed e false
                      (e.removed_scan threats s.job.temp_path
                        "The downloaded package was removed or refused by the antivirus.")
                      "download"
                      s)
                | none ↦ compare_package e sha (tick e s)
              ])
      go sha none =
          if_branches (StaysOpen e)
            (elim sha [ none ↦ true | some _ ↦ false ] && e.stops s.site.steps) (λ _. h)
            (λ _. compare_package-StaysOpen sha (tick e s) h)
      go sha (some threats) =
          if_branches (StaysOpen e)
            (elim sha [ none ↦ true | some _ ↦ false ] && e.stops s.site.steps) (λ _. h)
            (λ _. scan_failed-IsOpen e false _ "download" s)
