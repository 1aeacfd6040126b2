-- ===== src/Transfers/Install/Build/Clean.antt =====
-- What an install has behind it (src/client/transfers.hpp, run_install).
use virule_client.Prelude.{
  ℕ, suc, ◌≡◌, refl, String, [], ◌∷◌, Option, none, some, Bool, true, false, not, ◌&&◌, if_branches,
  if◌then◌else◌, arith,
}
use Prim.Native.String.{◌++◌ as join}
use virule_client.Evidence.Json.{Json}
use virule_client.Transfers.Job.{
  TransferJob, installed, scanning, Scan, is_clean, is_canceled, is_at,
}
use virule_client.Transfers.Site.{
  Env, ServiceCall, json, Extraction, whole, broken, Originals, copied, blocked, unread,
}
use virule_client.Transfers.Outcome.{At, tick, save_job, fail_job}
use virule_client.Transfers.Upload.Session.{Step, ended, followed, advance}
use virule_client.Transfers.Upload.Examine.{failed_scan}
use virule_client.Transfers.Install.Chain.{Chained, ensure_launch_chain}
use virule_client.Transfers.Install.Place.{with_staging, clear_staging, staged_files}
use virule_client.Transfers.Install.Refusal.{scan_failed}
use virule_client.Transfers.Install.Build.{unless_taken, extract_build, settle_staged, scan_build}

module _ {j : Json} (e : Env j) where
  open j use {Text}
  open e use {Bytes}

  abbrev pub IsOpen : At Text Bytes → Type 0
  IsOpen s = is_at s.job.state installed ≡ false

  abbrev pub StaysOpen : Step Text Bytes → Type 0
  StaysOpen t = IsOpen t.at

  -- The scan of the extracted build was clean.
  abbrev pub WasScanned : Type 0
  WasScanned = (k : ℕ) × (is_clean (e.scan_staged k).outcome ≡ true)

  -- The launch chain of a job: of its assignment, its folder, its launch file and its revision.
  abbrev pub chain_for : TransferJob → At Text Bytes → Chained e
  chain_for k u =
      ensure_launch_chain e
        (record {
          assignment_id = k.assignment_id;
          install_dir = k.install_dir;
          launch_exe = k.launch_exe;
          revision_id = k.revision_id;
        })
        u

  -- The chain of this job was in order, and the service was not called since.
  abbrev pub WasAuthorized : At Text Bytes → Type 0
  WasAuthorized s =
      (u : At Text Bytes) × (((chain_for s.job u).0.ok ≡ true)
        × (s.site.sent ≡ (chain_for s.job u).1.site.sent))

  -- The completion of a job's download, with the digest and the size of its package.
  abbrev pub completion_for : TransferJob → ServiceCall Text Bytes
  completion_for k = record {
    method = "POST";
    path =
        join (join (join "/v1/assignments/" k.assignment_id) (join "/download/" k.download_id))
          "/complete";
    body = json (
        j.object (("sha256", e.plain k.package_sha256) ∷ ("bytes", j.number k.package_bytes) ∷ []));
  }

  -- The chain of this job was in order, and the next and last call of the service was the completion of
  -- this job's download, answered 200.
  abbrev pub WasTaken : At Text Bytes → Type 0
  WasTaken s =
      (u : At Text Bytes) × ((chain_for s.job u).0.ok ≡ true)
      × (s.site.sent ≡ completion_for s.job ∷ (chain_for s.job u).1.site.sent)
      × (k : ℕ) × ((e.reply k (completion_for s.job)).status ≡ 200)

  -- An installed game was scanned, authorized and taken.
  abbrev pub IsJustified : At Text Bytes → Type 0
  IsJustified s = is_at s.job.state installed ≡ true → WasScanned × WasTaken s

  pub IsJustified-open : (s : At Text Bytes) → IsOpen s → IsJustified s
  IsJustified-open s h g = absurd (ground (arith, h, g))

  pub scan_failed-IsOpen :
      (staged : Bool) (r : Scan) (operation : String) (s : At Text Bytes)
      → IsOpen (scan_failed e staged r operation s)
  unfolding scan_failed fail_job save_job
  scan_failed-IsOpen staged r operation s = refl

  pub fail_job-IsOpen : (why : String) (s : At Text Bytes) → IsOpen (fail_job e why s)
  unfolding fail_job save_job
  fail_job-IsOpen why s = refl

  unless_taken-IsOpen :
      (why path detail : String) (s : At Text Bytes) → IsOpen (unless_taken e why path detail s)
  unfolding unless_taken
  unless_taken-IsOpen why path detail s = go (
      e.threats_seen s.site.steps
        (e.beside s.job.install_root ".virule-staging" ∷ s.job.temp_path ∷ []))
    where
      go :
          (o : Option String)
          → IsOpen (elim o [
            | some threats ↦ scan_failed e true (e.removed_scan threats path detail) "install" s
            | none ↦ fail_job e why (clear_staging e s)
          ])
      go none = fail_job-IsOpen why _
      go (some threats) = scan_failed-IsOpen true _ "install" s

  pub extract_build-StaysOpen : (s : At Text Bytes) → IsOpen s → StaysOpen (extract_build e s)
  unfolding extract_build
  extract_build-StaysOpen s h = go (e.extract_zip s.site.steps s.job.temp_path)
    where
      go :
          (x : Extraction)
          → StaysOpen (elim x [
            | broken why ↦
                if e.stops (suc s.site.steps)
                then ended (
                    clear_staging e
                      (with_staging e (some (e.extracted s.site.steps (staged_files e s))) s))
                else ended (
                    unless_taken e why why
                      "A game file was refused or removed by the antivirus while it was extracted."
                      (with_staging e (some (e.extracted s.site.steps (staged_files e s))) s))
            | whole ↦
                if not (e.has_file (suc s.site.steps) s.job.launch_exe)
                then ended (
                    unless_taken e
                      (join "The installed game has no " (join s.job.launch_exe "."))
                      s.job.launch_exe
                      "The game's launch file was removed by the antivirus."
                      (with_staging e (some (e.extracted s.site.steps (staged_files e s))) s))
                else followed
                    (with_staging e (some (e.extracted s.site.steps (staged_files e s))) s)
          ])
      go (broken why) =
          if_branches StaysOpen (e.stops (suc s.site.steps)) (λ _. h)
            (λ _. unless_taken-IsOpen _ _ _ _)
      go whole =
          if_branches StaysOpen (not (e.has_file (suc s.site.steps) s.job.launch_exe))
            (λ _. unless_taken-IsOpen _ _ _ _) (λ _. h)

  module _
      (never_clean : (threats path detail : String)
        → is_clean (e.removed_scan threats path detail).outcome ≡ false) where
    abbrev pub GoesOnScanned : Step Text Bytes → Type 0
    GoesOnScanned t = StaysOpen t × (t.goes_on ≡ true → WasScanned)

    settle_staged-GoesOn :
        (r : Scan) (s : At Text Bytes)
        → IsOpen s
        → (is_clean r.outcome ≡ true → WasScanned)
        → GoesOnScanned (settle_staged e r s)
    unfolding settle_staged save_job
    settle_staged-GoesOn r s h w =
        if_branches GoesOnScanned (is_canceled r.outcome && e.stops s.site.steps)
          (λ _. (h, λ g. ground (arith, g)))
          (λ _.
            if_branches GoesOnScanned (not (is_clean r.outcome))
              (λ _. (scan_failed-IsOpen true r "install" s, λ g. ground (arith, g)))
              (λ b. (h, λ _. w (ground (arith, b)))))

    pub scan_build-GoesOn : (s : At Text Bytes) → GoesOnScanned (scan_build e s)
    unfolding scan_build advance save_job failed_scan
    scan_build-GoesOn s = go (e.originals_staged (suc s.site.steps))
      where
        go :
            (x : Originals)
            → GoesOnScanned (elim x [
              | copied ↦ settle_staged e (e.scan_staged (suc s.site.steps)) (advance e scanning s)
              | blocked why ↦
                  if e.stops (suc s.site.steps)
                  then ended (clear_staging e (advance e scanning s))
                  else settle_staged e
                      (e.removed_scan "" s.job.launch_exe why)
                      (tick e (advance e scanning s))
              | unread why ↦
                  if e.stops (suc s.site.steps)
                  then ended (clear_staging e (advance e scanning s))
                  else settle_staged e (failed_scan e why) (tick e (advance e scanning s))
            ])
        go copied =
            settle_staged-GoesOn (e.scan_staged (suc s.site.steps)) (advance e scanning s) refl
              (λ c. (suc s.site.steps, c))
        go (blocked why) =
            if_branches GoesOnScanned (e.stops (suc s.site.steps))
              (λ _. (refl, λ g. ground (arith, g)))
              (λ _.
                settle_staged-GoesOn _ _ refl
                  (λ c. absurd (ground (arith, c, never_clean "" s.job.launch_exe why))))
        go (unread why) =
            if_branches GoesOnScanned (e.stops (suc s.site.steps))
              (λ _. (refl, λ g. ground (arith, g)))
              (λ _. settle_staged-GoesOn _ _ refl (λ c. absurd (ground (arith, c))))
