-- ===== src/Transfers/Upload/Verify/Verdict.antt =====
-- How a verification of a package ends, from its figures on (src/client/transfers.hpp, verify_package).
use virule_client.Prelude.{
  ℕ, ◌+◌, ◌≡◌, refl, ◌⊎◌, inl, inr, String, true, false, not, ◌&&◌, if_branches, Option-cases,
  Bool-cases, arith,
}
use virule_client.Evidence.Json.{Json}
use virule_client.Transfers.Job.{failed, Scan, is_incident, is_clean, is_canceled}
use virule_client.Transfers.Site.{Env}
use virule_client.Transfers.Outcome.{At, save_job, defer_job, fail_job, keep_incident}
use virule_client.Transfers.Upload.Session.{Step, ended}
use virule_client.Transfers.Upload.Record.{write_record, is_same_identity}
use virule_client.Transfers.Upload.Examine.{Examined, interrupted, unusable, scanned, with_scratch}
use virule_client.Transfers.Upload.Verify.{
  Figures, packaged_as, vouch_for, with_attached, with_outcome, upload_scan_sentence, refuse_scan,
  settle_scan, settle_examined,
}
use virule_client.Transfers.Upload.Examine.Found.{
  WasClean, IsSameJob, HasStopped, IsScanned, IsExamined,
}

module _ {j : Json} (e : Env j)
    (never_clean : (threats path detail : String)
      → is_clean (e.removed_scan threats path detail).outcome ≡ false)
    (s0 : At j.Text e.Bytes) where
  open j use {Text}
  open e use {Bytes}

  -- No scratch folder stands, or the file system refused a removal.
  abbrev pub IsCleaned : At Text Bytes → Type 0
  IsCleaned s = (s.site.scratch ≡ false) ⊎ ((k : ℕ) × (e.removes k ≡ false))

  pub with_scratch-IsCleaned : (s : At Text Bytes) → IsCleaned (with_scratch e false s)
  unfolding with_scratch
  with_scratch-IsCleaned s = elim (Bool-cases (e.removes s.site.steps)) [
    | inl h ↦ inl (ground (arith, h))
    | inr h ↦ inr (s.site.steps, h)
  ]

  -- Where a verification goes on the scan was clean; where it ends the client stops, the job failed,
  -- or it is tried later.
  pub record IsVerdict (t : Step Text Bytes) : Type 0 where
    pub sent : t.at.site.sent ≡ s0.site.sent
    pub ident : t.at.job.id ≡ s0.job.id
    pub same_package :
        (t.at.job.package_path ≡ s0.job.package_path)
        × ((t.at.job.build_uuid ≡ s0.job.build_uuid) × (t.at.job.game_uuid ≡ s0.job.game_uuid))
    pub cleaned : s0.site.scratch ≡ false → IsCleaned t.at
    pub clean_scan : t.goes_on ≡ true → WasClean e never_clean s0
    pub explained :
        t.goes_on ≡ false
        → HasStopped e never_clean s0
          ⊎ ((t.at.job.state ≡ failed) ⊎ (t.at.job.attempts ≡ s0.job.attempts + 1))

  -- Ways to end.
  pub failed-IsVerdict :
      (why : String) (s : At Text Bytes)
      → IsSameJob e never_clean s0 s
      → (s0.site.scratch ≡ false → IsCleaned s)
      → IsVerdict (ended (fail_job e why s))
  unfolding fail_job save_job
  failed-IsVerdict why s h c = record {
    sent = h.sent;
    ident = h.ident;
    same_package = (h.path, (h.build, h.game));
    cleaned = c;
    clean_scan = λ g. ground (arith, g);
    explained = λ _. inr (inl refl);
  }

  pub stopped-IsVerdict :
      (s : At Text Bytes)
      → IsSameJob e never_clean s0 s
      → (s0.site.scratch ≡ false → IsCleaned s)
      → HasStopped e never_clean s0
      → IsVerdict (ended s)
  stopped-IsVerdict s h c b = record {
    sent = h.sent;
    ident = h.ident;
    same_package = (h.path, (h.build, h.game));
    cleaned = c;
    clean_scan = λ g. ground (arith, g);
    explained = λ _. inl b;
  }

  vouch_for-IsVerdict :
      (f : Figures) (r : Scan) (s : At Text Bytes)
      → IsSameJob e never_clean s0 s
      → IsCleaned s
      → WasClean e never_clean s0
      → IsVerdict (vouch_for e f r s)
  unfolding vouch_for defer_job save_job write_record packaged_as
  vouch_for-IsVerdict f r s h c w =
      elim (Option-cases (e.identity_of s.site.steps s.job.package_path)) [
        | inl n ↦ rw (n, vouch_for) (failed-IsVerdict _ s h (λ _. c))
        | inr (after, y) ↦
            rw (y, vouch_for)
              (if_branches IsVerdict (not (is_same_identity after f.before))
                (λ _. failed-IsVerdict _ s h (λ _. c))
                (λ _.
                  if_branches IsVerdict (not (e.writes s.site.steps))
                    (λ _. record {
                      sent = h.sent;
                      ident = h.ident;
                      same_package = (h.path, (h.build, h.game));
                      cleaned = λ _. c;
                      clean_scan = λ g. ground (arith, g);
                      explained = λ _. inr (inr (ground (arith, h.attempts)));
                    })
                    (λ _. record {
                      sent = h.sent;
                      ident = h.ident;
                      same_package = (h.path, (h.build, h.game));
                      cleaned = λ _. c;
                      clean_scan = λ _. w;
                      explained = λ g. ground (arith, g);
                    })))
      ]

  refuse_scan-IsVerdict :
      (r : Scan) (s : At Text Bytes)
      → IsSameJob e never_clean s0 s
      → IsCleaned s
      → IsVerdict (refuse_scan e r s)
  unfolding refuse_scan keep_incident
  refuse_scan-IsVerdict r s h c =
      if_branches
        (λ (t : At Text Bytes). IsVerdict (ended (fail_job e (upload_scan_sentence e r) t)))
        (is_incident r.outcome)
        (λ _.
          failed-IsVerdict _ _
            (record {
              sent = h.sent;
              ident = h.ident;
              path = h.path;
              build = h.build;
              game = h.game;
              attempts = h.attempts;
            })
            (λ _. c))
        (λ _. failed-IsVerdict _ s h (λ _. c))

  settle_scan-IsVerdict :
      (f : Figures) (r : Scan) (s : At Text Bytes)
      → IsSameJob e never_clean s0 s
      → IsCleaned s
      → IsScanned e never_clean s0 r
      → IsVerdict (settle_scan e f r s)
  unfolding settle_scan
  settle_scan-IsVerdict f r s h c w =
      if_branches IsVerdict (is_canceled r.outcome && e.stops s.site.steps)
        (λ b. stopped-IsVerdict s h (λ _. c) (s.site.steps, ground (arith, b)))
        (λ _.
          if_branches IsVerdict (not (is_clean r.outcome))
            (λ _.
              refuse_scan-IsVerdict r (with_outcome e r s)
                (record {
                  sent = h.sent;
                  ident = h.ident;
                  path = h.path;
                  build = h.build;
                  game = h.game;
                  attempts = h.attempts;
                })
                c)
            (λ b.
              vouch_for-IsVerdict f r _
                (record {
                  sent = h.sent;
                  ident = h.ident;
                  path = h.path;
                  build = h.build;
                  game = h.game;
                  attempts = h.attempts;
                })
                c (w (ground (arith, b)))))

  pub settle_examined-IsVerdict :
      (f : Figures) (x : Examined Text Bytes)
      → IsExamined e never_clean s0 x
      → IsVerdict (settle_examined e f x)
  unfolding settle_examined with_scratch with_attached
  settle_examined-IsVerdict f (interrupted s) (h, b) =
      stopped-IsVerdict _
        (record {
          sent = h.sent;
          ident = h.ident;
          path = h.path;
          build = h.build;
          game = h.game;
          attempts = h.attempts;
        })
        (λ _. with_scratch-IsCleaned s) b
  settle_examined-IsVerdict f (unusable why s) h =
      failed-IsVerdict why _
        (record {
          sent = h.sent;
          ident = h.ident;
          path = h.path;
          build = h.build;
          game = h.game;
          attempts = h.attempts;
        })
        (λ _. with_scratch-IsCleaned s)
  settle_examined-IsVerdict f (scanned r s) (h, w) =
      settle_scan-IsVerdict f (with_attached e r s) (with_scratch e false s)
        (record {
          sent = h.sent;
          ident = h.ident;
          path = h.path;
          build = h.build;
          game = h.game;
          attempts = h.attempts;
        })
        (with_scratch-IsCleaned s) (λ c. w (ground (arith, c)))
