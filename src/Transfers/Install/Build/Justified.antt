-- ===== src/Transfers/Install/Build/Justified.antt =====
-- When a game counts as installed (src/client/transfers.hpp, run_install).
use virule_client.Prelude.{
  ◌≡◌, refl, subst, sym, String, ◌∷◌, Option, none, some, true, false, not, ◌&&◌, eqb, if_branches,
  if◌then◌else◌, arith, ap, ◌∙◌, ◌==◌,
}
use virule_client.Evidence.Json.{Json}
use virule_client.Transfers.Job.{TransferJob, installed, is_clean, is_at}
use virule_client.Transfers.Site.{Env, Folder, Reply}
use virule_client.Transfers.Outcome.{At, tick, save_job, defer_job, call, answer, body_code}
use virule_client.Transfers.Upload.Session.{Step, ended, followed}
use virule_client.Transfers.Install.Chain.{Chained, ChainOutcome, ensure_launch_chain}
use virule_client.Transfers.Install.Chain.Written.{ensure_launch_chain-job}
use virule_client.Transfers.Install.Place.Back.{HasPlace, place_build-HasPlace}
use virule_client.Transfers.Install.Place.{
  carry_files, with_staging, clear_staging, fresh_staging, is_there, move_back, move_in, place_over,
  place_build,
}
use virule_client.Transfers.Install.Build.Clean.{
  chain_for, completion_for, IsOpen, StaysOpen, WasScanned, WasAuthorized, IsJustified,
  IsJustified-open, fail_job-IsOpen, extract_build-StaysOpen, GoesOnScanned, scan_build-GoesOn,
}
use virule_client.Transfers.Install.Build.{
  wait_for_close, extract_build, scan_build, carry_over, asked_of, refused_chain,
  authorize_placement, record_placed, installation_of, queue_again, not_complete, report_install,
  finish_install, place_and_report, authorize_and_place, put_in_place, scan_and_place,
  install_build,
}

module _ {j : Json} (e : Env j) where
  open j use {Text}
  open e use {Bytes}

  carry_over-StaysOpen : (s : At Text Bytes) → IsOpen e s → StaysOpen e (carry_over e s)
  unfolding carry_over defer_job save_job wait_for_close
  carry_over-StaysOpen s h = go s.site.game (e.cannot_carry s.site.steps)
    where
      go :
          (o : Option Folder) (c : Option String)
          → StaysOpen e (elim o [
            | none ↦ followed s
            | some previous ↦ elim c [
              | some why ↦ ended (defer_job e why (clear_staging e s))
              | none ↦
                  if e.busy s.site.steps s.job.assignment_id
                  then ended (wait_for_close e (clear_staging e s))
                  else followed (
                      with_staging e
                        (elim s.site.staging [
                          | none ↦ none
                          | some build ↦
                              some (carry_files (e.is_carried s.site.steps) previous build)
                        ])
                        s)
            ]
          ])
      go none _ = h
      go (some previous) (some why) = h
      go (some previous) none =
          if_branches (StaysOpen e) (e.busy s.site.steps s.job.assignment_id) (λ _. h) (λ _. h)

  refused_chain-IsOpen :
      (c : ChainOutcome) (s : At Text Bytes) → IsOpen e s → IsOpen e (refused_chain e c s)
  unfolding refused_chain defer_job save_job
  refused_chain-IsOpen c s h =
      if_branches (IsOpen e) (c.code == "security_hold") (λ _. fail_job-IsOpen e c.why _)
        (λ _. if_branches (IsOpen e) c.retryable (λ _. h) (λ _. fail_job-IsOpen e c.why _))

  abbrev GoesOnAuthorized : Step Text Bytes → Type 0
  GoesOnAuthorized t = StaysOpen e t × (t.goes_on ≡ true → WasAuthorized e t.at)

  authorize_placement-GoesOn :
      (s : At Text Bytes) → IsOpen e s → GoesOnAuthorized (authorize_placement e s)
  unfolding authorize_placement
  authorize_placement-GoesOn s h =
      let c : Chained e = ensure_launch_chain e (asked_of e s.job) s in
      let kept : IsOpen e c.1 =
        ap (λ (k : TransferJob). is_at k.state installed)
          (ensure_launch_chain-job e (asked_of e s.job) s)
        ∙ h in
      let authorized : c.0.ok ≡ true → WasAuthorized e c.1 = λ b. (
        s,
        subst
            (λ (k : TransferJob).
              ((chain_for e k s).0.ok ≡ true) × (c.1.site.sent ≡ (chain_for e k s).1.site.sent))
            (sym (ensure_launch_chain-job e (asked_of e s.job) s)) (b, refl),
      ) in
      if_branches GoesOnAuthorized c.0.ok (λ b. (kept, λ _. authorized b))
        (λ _. (refused_chain-IsOpen c.0 c.1 kept, λ g. ground (arith, g)))

  move_back-IsOpen :
      (o : Option Folder) (s : At Text Bytes) → IsOpen e s → IsOpen e (move_back e o s)
  unfolding move_back defer_job save_job
  move_back-IsOpen none s h = fail_job-IsOpen e _ _
  move_back-IsOpen (some previous) s h =
      if_branches (IsOpen e) (e.renames s.site.steps) (λ _. h) (λ _. fail_job-IsOpen e _ _)

  move_in-StaysOpen :
      (o : Option Folder) (s : At Text Bytes) → IsOpen e s → StaysOpen e (move_in e o s)
  unfolding move_in
  move_in-StaysOpen o s h =
      if_branches (StaysOpen e) (e.renames s.site.steps) (λ _. h)
        (λ _. move_back-IsOpen o (tick e s) h)

  place_over-StaysOpen :
      (o : Option Folder) (s : At Text Bytes) → IsOpen e s → StaysOpen e (place_over e o s)
  unfolding place_over defer_job save_job
  place_over-StaysOpen none s h = move_in-StaysOpen none s h
  place_over-StaysOpen (some previous) s h =
      if_branches (StaysOpen e) (e.renames s.site.steps)
        (λ _. move_in-StaysOpen (some previous) _ h) (λ _. h)

  place_build-StaysOpen : (s : At Text Bytes) → IsOpen e s → StaysOpen e (place_build e s)
  unfolding place_build
  place_build-StaysOpen s h = place_over-StaysOpen s.site.game s h

  not_complete-IsOpen :
      (r : Reply Text) (s : At Text Bytes) → IsOpen e s → IsOpen e (not_complete e r s)
  unfolding not_complete queue_again defer_job save_job
  not_complete-IsOpen r s h =
      if_branches (IsOpen e) (eqb r.status 409 && (body_code e r.body == "security_hold"))
        (λ _. fail_job-IsOpen e _ _)
        (λ _.
          if_branches (IsOpen e) (eqb r.status 409 && (body_code e r.body == "not_delivered"))
            (λ _. refl)
            (λ _.
              if_branches (IsOpen e) (eqb r.status 409 && (body_code e r.body == "conflict"))
                (λ _. refl) (λ _. h)))

  report_install-IsJustified :
      (s : At Text Bytes)
      → IsOpen e s
      → WasScanned e
      → WasAuthorized e s
      → IsJustified e (report_install e s)
  unfolding report_install call finish_install save_job
  report_install-IsJustified s h w a =
      if_branches (IsJustified e) (eqb (answer e (installation_of e s.job) s).status 200)
        (λ b. λ _.
          let (u, (ok, same)) = a in
          (w, (u, ok, ap (◌∷◌ (completion_for e s.job)) same, s.site.steps, ground (arith, b))))
        (λ _.
          let s1 : At Text Bytes = call e (installation_of e s.job) s in
          IsJustified-open e (not_complete e (answer e (installation_of e s.job) s) s1)
            (not_complete-IsOpen _ s1 h))

  placed-WasAuthorized :
      (s : At Text Bytes) (t : Step Text Bytes)
      → HasPlace e s t
      → t.goes_on ≡ true
      → WasAuthorized e s
      → WasAuthorized e t.at
  placed-WasAuthorized s t h g (u, (ok, same)) =
      let (game, job) = h.moved g in
      (
        u,
        subst
            (λ (k : TransferJob).
              ((chain_for e k u).0.ok ≡ true) × (t.at.site.sent ≡ (chain_for e k u).1.site.sent))
            (sym job) (ok, h.quiet ∙ same),
      )

  place_and_report-IsJustified :
      (previous : Option Text) (delivered : Folder) (s : At Text Bytes)
      → IsOpen e s
      → WasScanned e
      → WasAuthorized e s
      → IsJustified e (place_and_report e previous delivered s)
  unfolding place_and_report record_placed
  place_and_report-IsJustified previous delivered s h w a =
      if_branches (IsJustified e) (place_build e s).goes_on
        (λ g.
          report_install-IsJustified (record_placed e previous delivered (place_build e s).at)
            (place_build-StaysOpen s h) w
            (placed-WasAuthorized s (place_build e s) (place_build-HasPlace e s) g a))
        (λ _. IsJustified-open e (place_build e s).at (place_build-StaysOpen s h))

  authorize_and_place-IsJustified :
      (previous : Option Text) (delivered : Folder) (t : Step Text Bytes)
      → StaysOpen e t
      → WasScanned e
      → IsJustified e (authorize_and_place e previous delivered t)
  unfolding authorize_and_place
  authorize_and_place-IsJustified previous delivered t h w =
      let (opened, a) = authorize_placement-GoesOn t.at h in
      if_branches (IsJustified e) (not t.goes_on) (λ _. IsJustified-open e t.at h)
        (λ _.
          if_branches (IsJustified e) (authorize_placement e t.at).goes_on
            (λ b.
              place_and_report-IsJustified previous delivered (authorize_placement e t.at).at opened
                w (a b))
            (λ _. IsJustified-open e (authorize_placement e t.at).at opened))

  module _
      (never_clean : (threats path detail : String)
        → is_clean (e.removed_scan threats path detail).outcome ≡ false) where
    put_in_place-IsJustified :
        (t : Step Text Bytes) → GoesOnScanned e never_clean t → IsJustified e (put_in_place e t)
    unfolding put_in_place
    put_in_place-IsJustified t (h, w) =
        if_branches (IsJustified e) t.goes_on
          (λ b.
            authorize_and_place-IsJustified _ _ (carry_over e t.at) (carry_over-StaysOpen t.at h)
              (w b))
          (λ _. IsJustified-open e t.at h)

    scan_and_place-IsJustified :
        (t : Step Text Bytes) → StaysOpen e t → IsJustified e (scan_and_place e t)
    unfolding scan_and_place
    scan_and_place-IsJustified t h =
        if_branches (IsJustified e) t.goes_on
          (λ _. put_in_place-IsJustified (scan_build e t.at) (scan_build-GoesOn e never_clean t.at))
          (λ _. IsJustified-open e t.at h)

    pub install_build-IsJustified :
        (s : At Text Bytes) → IsOpen e s → IsJustified e (install_build e s)
    unfolding install_build wait_for_close save_job
    install_build-IsJustified s h =
        if_branches (IsJustified e)
          (is_there e s.site.game && e.busy s.site.steps s.job.assignment_id)
          (λ _. IsJustified-open e (wait_for_close e s) h)
          (λ _.
            scan_and_place-IsJustified (extract_build e (fresh_staging e s))
              (extract_build-StaysOpen e (fresh_staging e s) h))
