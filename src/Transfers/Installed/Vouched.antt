-- ===== src/Transfers/Installed/Vouched.antt =====
-- What vouches for an installed game (src/client/transfers.hpp, verify_installed).
use virule_client.Prelude.{
  suc, ◌≡◌, refl, ◌⊎◌, inl, inr, String, List, [], ◌∷◌, Option, none, true, false, not, ◌||◌,
  if_branches, lookup, eq_iff, arith, ◌==◌,
}
use virule_client.Evidence.Json.{Json}
use virule_client.Transfers.Job.{Scan, is_incident, is_clean}
use virule_client.Transfers.Site.{Env, Unverified, Plan, Originals, copied, blocked, unread}
use virule_client.Transfers.Outcome.{At, tick, save_job, keep_incident}
use virule_client.Transfers.Upload.Examine.{failed_scan}
use virule_client.Transfers.Installed.{
  prior_of, scan_with_originals, scan_plan, take_clean, hold_installed, apply_scan,
  settle_installed, is_vouched_for, verify_unverified, verify_installed,
}

module _ {j : Json} (e : Env j) where
  open j use {Text}
  open e use {Bytes}

  -- The record of the last clean scan, which counts only if it is of the installed revision.
  abbrev pub IsPrior : At Text Bytes → Option Text → Type 0
  IsPrior s prior =
      (prior ≡ none)
      ⊎ ((s.job.scan_revision_id ≡ e.installed_revision s.job)
          × (prior ≡ lookup s.job.id s.site.content_records))

  -- What that record does not vouch for, and the plan of its scan.
  abbrev pub unvouched : At Text Bytes → Option Text → Unverified
  unvouched s prior = e.unverified s.site.steps prior (e.installed_revision s.job)

  abbrev pub plan_of : At Text Bytes → Option Text → Plan
  plan_of s prior = e.plan_scan (unvouched s prior) s.job.launch_exe

  -- The record vouches for all of it, or the scan of the rest was clean.
  abbrev pub IsCovered : At Text Bytes → Option Text → Type 0
  IsCovered s prior =
      (((unvouched s prior).is_whole ≡ false) × ((unvouched s prior).files ≡ []))
      ⊎ (is_clean (e.scan_installed (suc s.site.steps) (plan_of s prior)).outcome ≡ true)

  -- Nothing is sent. The job is held as it was, or the scan found a threat; its content counts as scanned
  -- as it did, or it counts for the installed revision, and is covered.
  pub record IsVouched (s t : At Text Bytes) : Type 0 where
    pub sent : t.site.sent ≡ s.site.sent
    pub held :
        (t.job.security_held ≡ s.job.security_held)
        ⊎ ((prior : Option Text) × IsPrior s prior
            × (is_incident (scan_plan e (plan_of s prior) (tick e s)).outcome ≡ true))
    pub counted :
        (t.job.scan_revision_id ≡ s.job.scan_revision_id)
        ⊎ ((t.job.scan_revision_id ≡ e.installed_revision s.job)
            × ((prior : Option Text) × IsPrior s prior × IsCovered s prior))

  IsVouched-same : (s : At Text Bytes) → IsVouched s s
  IsVouched-same s = record { sent = refl; held = inl refl; counted = inl refl }

  prior_of-IsPrior : (s : At Text Bytes) → IsPrior s (prior_of e (e.installed_revision s.job) s)
  prior_of-IsPrior s =
      if_branches (IsPrior s) (s.job.scan_revision_id == e.installed_revision s.job)
        (λ b.
          inr (ground (arith, b, eq_iff s.job.scan_revision_id (e.installed_revision s.job)), refl))
        (λ _. inl refl)

  is_vouched_for-covers :
      (u : Unverified) → is_vouched_for e u ≡ true → (u.is_whole ≡ false) × (u.files ≡ [])
  is_vouched_for-covers u h = (ground (arith, h), nothing u.files (ground (arith, h)))
    where
      nothing : (fs : List String) → elim fs [ [] ↦ true | ◌∷◌ _ _ ↦ false ] ≡ true → fs ≡ []
      nothing [] _ = refl
      nothing (f ∷ fs) k = absurd (ground (arith, k))

  module _
      (never_clean : (threats path detail : String)
        → is_clean (e.removed_scan threats path detail).outcome ≡ false) where
    scan_with_originals-clean :
        (p : Plan) (s : At Text Bytes) (o : Originals)
        → is_clean (scan_with_originals e p s o).outcome ≡ true
        → is_clean (e.scan_installed s.site.steps p).outcome ≡ true
    unfolding scan_with_originals failed_scan
    scan_with_originals-clean p s copied c = c
    scan_with_originals-clean p s (blocked why) c =
        absurd (ground (arith, c, never_clean "" s.job.launch_exe why))
    scan_with_originals-clean p s (unread why) c = absurd (ground (arith, c))

    scan_plan-clean :
        (p : Plan) (s : At Text Bytes)
        → is_clean (scan_plan e p s).outcome ≡ true
        → is_clean (e.scan_installed s.site.steps p).outcome ≡ true
    unfolding scan_plan
    scan_plan-clean p s =
        if_branches
          (λ (r : Scan).
            is_clean r.outcome ≡ true → is_clean (e.scan_installed s.site.steps p).outcome ≡ true)
          (p.is_whole || p.is_launch_changed)
          (λ _. scan_with_originals-clean p s (e.originals_installed s.site.steps)) (λ _. λ c. c)

    module _ (s : At Text Bytes) (prior : Option Text) (of_prior : IsPrior s prior) where
      -- The state in which the result is applied: the job with the outcome's name.
      abbrev named_scan : At Text Bytes
      named_scan = record (tick e s) {
        job = record s.job {
          scan_outcome = e.outcome_name (scan_plan e (plan_of s prior) (tick e s)).outcome;
        };
      }

      take_clean-IsVouched :
          IsCovered s prior
          → IsVouched s
              (take_clean e (e.installed_revision s.job) prior (unvouched s prior) named_scan)
      unfolding take_clean
      take_clean-IsVouched w =
          if_branches (IsVouched s) (e.writes (suc s.site.steps))
            (λ _. record {
              sent = refl;
              held = inl refl;
              counted = inr (refl, (prior, of_prior, w));
            })
            (λ _. record { sent = refl; held = inl refl; counted = inl refl })

      apply_scan-IsVouched : IsVouched s (
          apply_scan e
            (e.installed_revision s.job)
            prior
            (unvouched s prior)
            (scan_plan e (plan_of s prior) (tick e s))
            named_scan)
      unfolding apply_scan hold_installed keep_incident
      apply_scan-IsVouched =
          if_branches (IsVouched s) (is_clean (scan_plan e (plan_of s prior) (tick e s)).outcome)
            (λ c. take_clean-IsVouched (inr (scan_plan-clean (plan_of s prior) (tick e s) c)))
            (λ _.
              if_branches (IsVouched s)
                (is_incident (scan_plan e (plan_of s prior) (tick e s)).outcome)
                (λ i. record { sent = refl; held = inr (prior, of_prior, i); counted = inl refl })
                (λ _. record { sent = refl; held = inl refl; counted = inl refl }))

      save_job-IsVouched : (t : At Text Bytes) → IsVouched s t → IsVouched s (save_job e t)
      unfolding save_job
      save_job-IsVouched t h = record { sent = h.sent; held = h.held; counted = h.counted }

      verify_unverified-IsVouched :
          IsVouched s
            (verify_unverified e (e.installed_revision s.job) prior (unvouched s prior) (tick e s))
      unfolding verify_unverified save_job settle_installed
      verify_unverified-IsVouched =
          if_branches (IsVouched s) (is_vouched_for e (unvouched s prior))
            (λ b.
              if_branches (IsVouched s) (s.job.scan_revision_id == e.installed_revision s.job)
                (λ _. record { sent = refl; held = inl refl; counted = inl refl })
                (λ _. record {
                  sent = refl;
                  held = inl refl;
                  counted =
                      inr (
                        refl,
                        (prior, of_prior, inl (is_vouched_for-covers (unvouched s prior) b)),
                      );
                }))
            (λ _. save_job-IsVouched _ apply_scan-IsVouched)

    -- A verification of an installed game sends nothing. The job is held for security as it was, or the
    -- scan of this verification, or its attempt, found a threat. The revision for which its content
    -- counts as scanned stays, or becomes the installed one, and then the record vouched for all of that
    -- revision, or the scan of what it did not vouch for was clean. A record vouches only if the content
    -- counted as scanned for the installed revision before, and the result for a removal by the antivirus
    -- is never clean.
    pub verify_installed-IsVouched : (s : At Text Bytes) → IsVouched s (verify_installed e s)
    unfolding verify_installed
    verify_installed-IsVouched s =
        if_branches (IsVouched s)
          ((e.installed_revision s.job == "")
            || not (e.has_file s.site.steps s.job.install_dir)
            || s.job.security_held)
          (λ _. IsVouched-same s)
          (λ _.
            verify_unverified-IsVouched s (prior_of e (e.installed_revision s.job) s)
              (prior_of-IsPrior s))
