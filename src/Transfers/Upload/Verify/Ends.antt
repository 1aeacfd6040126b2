-- ===== src/Transfers/Upload/Verify/Ends.antt =====
-- How a verification of a package ends (src/client/transfers.hpp, verify_package).
use virule_client.Prelude.{
  ℕ, ◌+◌, ◌*◌, ◌≡◌, ◌∙◌, refl, inl, inr, String, true, false, not, ◌&&◌, ltb, if_branches,
  Option-cases, arith, ◌==◌,
}
use virule_client.Evidence.Json.{Json}
use virule_client.Transfers.Job.{is_clean}
use virule_client.Transfers.Site.{Env, Identity, Digests, Contents, listed, unlisted}
use virule_client.Transfers.Outcome.{At, tick, save_job, defer_job, fail_job}
use virule_client.Transfers.Upload.Session.{ended}
use virule_client.Transfers.Upload.Examine.{with_scratch, examine}
use virule_client.Transfers.Upload.Verify.{
  verify_contents, verify_digests, verify_identity, is_incomplete, begin_verifying, verify_upload,
}
use virule_client.Transfers.Upload.Examine.Found.{IsSameJob, examine-IsExamined}
use virule_client.Transfers.Upload.Verify.Verdict.{
  IsVerdict, failed-IsVerdict, stopped-IsVerdict, settle_examined-IsVerdict, with_scratch-IsCleaned,
}

module _ {j : Json} (e : Env j)
    (never_clean : (threats path detail : String)
      → is_clean (e.removed_scan threats path detail).outcome ≡ false)
    (s0 : At j.Text e.Bytes) where
  open j use {Text}
  open e use {Bytes}

  verify_contents-IsVerdict :
      (before : Identity) (d : Digests) (content files : ℕ) (s : At Text Bytes)
      → IsSameJob e never_clean s0 s
      → s.site.scratch ≡ s0.site.scratch
      → IsVerdict e never_clean s0 (verify_contents e before d content files s)
  unfolding verify_contents with_scratch
  verify_contents-IsVerdict before d content files s h c =
      if_branches (IsVerdict e never_clean s0) (not (e.within_cap content))
        (λ _. failed-IsVerdict e never_clean s0 _ s h (λ u. inl (c ∙ u)))
        (λ _.
          if_branches (IsVerdict e never_clean s0)
            (ltb (e.free_bytes_at s.site.steps s.job.package_path) (content + 256 * 1024 * 1024))
            (λ _.
              failed-IsVerdict e never_clean s0 _ (with_scratch e false s)
                (record {
                  sent = h.sent;
                  ident = h.ident;
                  path = h.path;
                  build = h.build;
                  game = h.game;
                  attempts = h.attempts;
                })
                (λ _. with_scratch-IsCleaned e never_clean s0 s))
            (λ _.
              settle_examined-IsVerdict e never_clean s0 _
                (examine e (with_scratch e true (with_scratch e false s)))
                (examine-IsExamined e never_clean s0 _ (record {
                  sent = h.sent;
                  ident = h.ident;
                  path = h.path;
                  build = h.build;
                  game = h.game;
                  attempts = h.attempts;
                }))))

  verify_digests-IsVerdict :
      (before : Identity) (d : Digests) (s : At Text Bytes)
      → IsSameJob e never_clean s0 s
      → s.site.scratch ≡ s0.site.scratch
      → IsVerdict e never_clean s0 (verify_digests e before d s)
  unfolding verify_digests
  verify_digests-IsVerdict before d s h c =
      if_branches (IsVerdict e never_clean s0)
        (not (s.job.package_sha256 == "") && not (d.sha256 == s.job.package_sha256))
        (λ _. failed-IsVerdict e never_clean s0 _ s h (λ u. inl (c ∙ u)))
        (λ _. go (e.zip_contents s.site.steps s.job.package_path))
    where
      go :
          (x : Contents)
          → IsVerdict e never_clean s0 (elim x [
            | unlisted why ↦ ended (fail_job e why s)
            | listed content files ↦ verify_contents e before d content files s
          ])
      go (unlisted why) = failed-IsVerdict e never_clean s0 why s h (λ u. inl (c ∙ u))
      go (listed content files) = verify_contents-IsVerdict before d content files s h c

  verify_identity-IsVerdict :
      (before : Identity) (s : At Text Bytes)
      → IsSameJob e never_clean s0 s
      → s.site.scratch ≡ s0.site.scratch
      → IsVerdict e never_clean s0 (verify_identity e before s)
  unfolding verify_identity defer_job save_job
  verify_identity-IsVerdict before s h c =
      if_branches (IsVerdict e never_clean s0) (ltb e.package_max before.bytes)
        (λ _. failed-IsVerdict e never_clean s0 _ s h (λ u. inl (c ∙ u)))
        (λ _. elim (Option-cases (e.digest_package s.site.steps s.job.package_path before.bytes)) [
          | inl n ↦
              rw (n, verify_identity)
                (if_branches (IsVerdict e never_clean s0) (e.stops s.site.steps)
                  (λ b.
                    stopped-IsVerdict e never_clean s0 _
                      (record {
                        sent = h.sent;
                        ident = h.ident;
                        path = h.path;
                        build = h.build;
                        game = h.game;
                        attempts = h.attempts;
                      })
                      (λ u. inl (c ∙ u)) (s.site.steps, b))
                  (λ _. record {
                    sent = h.sent;
                    ident = h.ident;
                    same_package = (h.path, (h.build, h.game));
                    cleaned = λ u. inl (c ∙ u);
                    clean_scan = λ g. ground (arith, g);
                    explained = λ _. inr (inr (ground (arith, h.attempts)));
                  }))
          | inr (d, y) ↦
              rw (y, verify_identity)
                (verify_digests-IsVerdict before d (tick e s)
                  (record {
                    sent = h.sent;
                    ident = h.ident;
                    path = h.path;
                    build = h.build;
                    game = h.game;
                    attempts = h.attempts;
                  })
                  c)
        ])

  -- A verification of a package sends nothing to the service and keeps the job's id. It goes on only if
  -- the scan of the package and of all that was extracted from it was clean; otherwise the client
  -- stops, the job failed, or one more attempt is counted. The job is of the same package, build and game.
  -- Where no scratch folder stood before, none stands after unless the file system refused to remove
  -- one. The result for a removal by the antivirus is never clean.
  pub verify_upload-IsVerdict : IsVerdict e never_clean s0 (verify_upload e s0)
  unfolding verify_upload begin_verifying save_job
  verify_upload-IsVerdict =
      let s1 : At Text Bytes = begin_verifying e s0 in
      let h : IsSameJob e never_clean s0 s1 = record {
        sent = refl;
        ident = refl;
        path = refl;
        build = refl;
        game = refl;
        attempts = refl;
      } in
      if_branches (IsVerdict e never_clean s0) (is_incomplete e s1.job)
        (λ _. failed-IsVerdict e never_clean s0 _ s1 h (λ u. inl u))
        (λ _. elim (Option-cases (e.identity_of s1.site.steps s1.job.package_path)) [
          | inl n ↦ rw (n, verify_upload) (failed-IsVerdict e never_clean s0 _ s1 h (λ u. inl u))
          | inr (before, y) ↦
              rw (y, verify_upload)
                (verify_identity-IsVerdict before (tick e s1)
                  (record {
                    sent = refl;
                    ident = refl;
                    path = refl;
                    build = refl;
                    game = refl;
                    attempts = refl;
                  })
                  refl)
        ])
