-- ===== src/Transfers/Upload/Examine/Found.antt =====
-- What the examination of a package found (src/client/transfers.hpp, verify_package).
use virule_client.Prelude.{
  ℕ, ◌≡◌, inl, inr, String, [], ◌∷◌, true, false, not, if_branches, if◌then◌else◌, sym,
  Option-cases, arith,
}
use Prim.Native.String.{◌++◌ as join}
use virule_client.Evidence.Json.{Json}
use virule_client.Transfers.Job.{Scan, is_clean}
use virule_client.Transfers.Site.{
  Env, Extraction, whole, broken, Originals, copied, blocked, unread,
}
use virule_client.Transfers.Outcome.{At, tick}
use virule_client.Transfers.Upload.Examine.{
  Examined, interrupted, unusable, scanned, failed_scan, scratch_of, originals_of, unless_acted,
  scan_originals, examine,
}

module _ {j : Json} (e : Env j)
    (never_clean : (threats path detail : String)
      → is_clean (e.removed_scan threats path detail).outcome ≡ false)
    (s0 : At j.Text e.Bytes) where
  open j use {Text}
  open e use {Bytes}

  -- The scan of this package and of all that was extracted from it was clean.
  abbrev pub WasClean : Type 0
  WasClean =
      (k : ℕ) × (is_clean
          (e.run_scan k
            (s0.job.package_path ∷ scratch_of e s0.job ∷ originals_of e s0.job ∷ [])).outcome
        ≡ true)

  -- Nothing was sent, and the job is the same one.
  pub record IsSameJob (s : At Text Bytes) : Type 0 where
    pub sent : s.site.sent ≡ s0.site.sent
    pub ident : s.job.id ≡ s0.job.id
    pub path : s.job.package_path ≡ s0.job.package_path
    pub build : s.job.build_uuid ≡ s0.job.build_uuid
    pub game : s.job.game_uuid ≡ s0.job.game_uuid
    pub attempts : s.job.attempts ≡ s0.job.attempts

  abbrev pub HasStopped : Type 0
  HasStopped = (k : ℕ) × (e.stops k ≡ true)

  abbrev pub IsScanned : Scan → Type 0
  IsScanned r = is_clean r.outcome ≡ true → WasClean

  abbrev pub IsExamined : Examined Text Bytes → Type 0
  IsExamined (interrupted s) = IsSameJob s × HasStopped
  IsExamined (unusable _ s) = IsSameJob s
  IsExamined (scanned r s) = IsSameJob s × IsScanned r

  unless_acted-IsExamined :
      (why path detail : String) (s : At Text Bytes)
      → IsSameJob s
      → IsExamined (unless_acted e why path detail s)
  unfolding unless_acted
  unless_acted-IsExamined why path detail s h =
      elim (Option-cases
        (e.threats_seen s.site.steps (scratch_of e s.job ∷ s.job.package_path ∷ []))) [
          | inl n ↦ rw (n, unless_acted) h
          | inr (threats, y) ↦
              rw (y, unless_acted)
                (h, λ c. absurd (ground (arith, never_clean threats path detail, c)))
        ]

  scan_originals-IsExamined : (s : At Text Bytes) → IsSameJob s → IsExamined (scan_originals e s)
  unfolding scan_originals failed_scan
  scan_originals-IsExamined s h = go (e.originals s.site.steps (scratch_of e s.job))
    where
      go :
          (x : Originals)
          → IsExamined (elim x [
            | copied ↦
                scanned
                  (e.run_scan s.site.steps
                    (s.job.package_path ∷ scratch_of e s.job ∷ originals_of e s.job ∷ []))
                  s
            | blocked why ↦
                if e.stops s.site.steps
                then interrupted s
                else scanned (e.removed_scan "" s.job.launch_exe why) s
            | unread why ↦
                if e.stops s.site.steps then interrupted s else scanned (failed_scan e why) s
          ])
      go copied = (h, λ c. (s.site.steps, rw (sym h.path, sym h.build) c))
      go (blocked why) =
          if_branches IsExamined (e.stops s.site.steps) (λ b. (h, (_, b)))
            (λ _. (h, λ c. absurd (ground (arith, never_clean "" s.job.launch_exe why, c))))
      go (unread why) =
          if_branches IsExamined (e.stops s.site.steps) (λ b. (h, (_, b)))
            (λ _. (h, λ c. absurd (ground (arith, c))))

  pub examine-IsExamined : (s : At Text Bytes) → IsSameJob s → IsExamined (examine e s)
  unfolding examine
  examine-IsExamined s h = go (e.extract_zip s.site.steps s.job.package_path)
    where
      go :
          (x : Extraction)
          → IsExamined (elim x [
            | broken why ↦
                if e.stops s.site.steps
                then interrupted s
                else unless_acted e why why
                    "A game file was refused or removed by the antivirus while the package was verified."
                    s
            | whole ↦
                if not (e.has_file s.site.steps (e.beside (scratch_of e s.job) s.job.launch_exe))
                then unless_acted e
                    (join "The build has no " (join s.job.launch_exe ". Build it again."))
                    s.job.launch_exe
                    "The game's launch file was removed by the antivirus while the package was verified."
                    s
                else scan_originals e (tick e s)
          ])
      go (broken why) =
          if_branches IsExamined (e.stops s.site.steps) (λ b. (h, (_, b)))
            (λ _. unless_acted-IsExamined _ _ _ s h)
      go whole =
          if_branches IsExamined
            (not (e.has_file s.site.steps (e.beside (scratch_of e s.job) s.job.launch_exe)))
            (λ _. unless_acted-IsExamined _ _ _ s h)
            (λ _. scan_originals-IsExamined (tick e s) (record {
              sent = h.sent;
              ident = h.ident;
              path = h.path;
              build = h.build;
              game = h.game;
              attempts = h.attempts;
            }))
